-- ===== src/Examples/Clients.antt =====
-- The automated clients at concrete inputs.
use ioppytest.Prelude.{
  ◌≡◌, refl, true, false, [], ◌∷◌, Option, none, some, Text, codes, text_eq, lookup, mem, List, ok,
}
use ioppytest.Step.{init_iut}
use ioppytest.Testsuite.Stepping.{get_current_step}
use ioppytest.Testsuite.Stepping.Answers.{finished}
use ioppytest.Coordinator.{prepare_next_step}
use ioppytest.Coordinator.Steps.{StepEvent, handle_step_executed}
use ioppytest.Coordinator.Notify.{Notification, notify_step_execute}
use ioppytest.AutomatedIut
use ioppytest.AutomatedIut.{AutomatedIut, Answer, Stimuli, Event, on_request}
use ioppytest.AutomatedIut.Round.{collect_all}
use ioppytest.Clients.{Environment, Process, Launch, flag, text}
use ioppytest.Clients.Libcoap.Table.{Func}
use ioppytest.Clients.Libcoap.{Client, execute_stimuli, init, methods, automated_iut}
use ioppytest.Clients.Libcoap.Executes.{Does, execute_stimuli_lem}
use ioppytest.Clients.Libcoap.Target.{execute_all, execute_all-target}
use ioppytest.Clients.Rounds.{libcoap_round}
use ioppytest.Clients.Aiocoap
use ioppytest.Clients.Aiocoap.{call}
use ioppytest.Clients.Aiocoap.Table
use ioppytest.Examples.{client, stimulus, fresh, config}
use ioppytest.Examples.Session.{at_start, iut_of}

abbrev environment : Environment
environment = record {
  coap_server_host = codes "bbbb::2";
  coap_server_port = codes "5683";
  coap_client_host = codes "bbbb::1";
}

abbrev always : Process → Launch → Process
always p l = p

abbrev token : Text
token = codes "0123456789abcdef"

abbrev cli : Client
cli = init environment false none

abbrev other_host : Option Text
other_host = some (codes "bbbb::7")

-- A GET without confirmation, at an address that the request has.
execute_stimuli_lem_example :
    Does
      (always Process.succeeded)
      token
      (codes "TD_COAP_CORE_05_step_01")
      (some (
        Func.get,
        (codes "base_url", text (codes "coap://[bbbb::2]:5683"))
            ∷ (codes "resource", text (codes "/test"))
            ∷ (codes "confirmable", flag false)
            ∷ [],
      ))
      (record cli { base_url = codes "coap://[bbbb::7]:5683" })
      (execute_stimuli environment
        (always Process.succeeded)
        token
        (codes "TD_COAP_CORE_05_step_01")
        other_host
        none
        cli)
unfolding lookup text_eq init
execute_stimuli_lem_example =
    execute_stimuli_lem environment (always Process.succeeded) token
      (codes "TD_COAP_CORE_05_step_01") other_host none cli

-- The third request is still sent to the address of the first.
execute_all-target_example :
    (execute_all environment
      (always Process.timeout_expired)
      ((codes "TD_COAP_CORE_01_step_01", other_host, token)
        ∷ (codes "TD_COAP_CORE_31_step_01", none, token)
        ∷ (codes "TD_COAP_CORE_01_step_01", some [], token)
        ∷ [])
      cli).base_url
    ≡ codes "coap://[bbbb::7]:5683"
execute_all-target_example =
    execute_all-target environment (always Process.timeout_expired)
      ((codes "TD_COAP_CORE_01_step_01", other_host, token)
        ∷ (codes "TD_COAP_CORE_31_step_01", none, token)
        ∷ (codes "TD_COAP_CORE_01_step_01", some [], token)
        ∷ [])
      cli

-- On the node of the sample's step.
abbrev libcoap_iut : AutomatedIut
libcoap_iut =
    record (automated_iut
      (methods environment (always Process.called_process_error) token (λ a. true) cli)) {
        node = client;
      }

abbrev server_and_libcoap : List AutomatedIut
server_and_libcoap = iut_of (codes "coap_server") ∷ libcoap_iut ∷ []

-- No entry of the table is for the sample's step, and the step is finished all the same.
libcoap_round_example :
    let ts' = (prepare_next_step at_start).1 in
    let after = handle_step_executed StepEvent.stimuli_executed ts' in
    ((l : List Notification) × (notify_step_execute ts' ≡ ok l)
      × (collect_all l server_and_libcoap
          ≡ Answer.step_stimuli_executed
              (some (codes "('Received request to execute unimplemented stimuli %s', 'S1')"))
              client
            ∷ []))
    × (after.0 ≡ ok tt)
    × (get_current_step after.1 ≡ some (finished (stimulus none)))
unfolding lookup text_eq mem automated_iut AutomatedIut.init init init_iut
libcoap_round_example =
    libcoap_round environment (always Process.called_process_error) token (λ l. tt) (λ a. true) cli
      (codes "TC1") fresh at_start config 0 (stimulus none) (init_iut client) server_and_libcoap 1
      libcoap_iut refl refl refl refl refl refl refl (refl, (refl, tt)) refl refl refl

abbrev get_separate : Aiocoap.Table.Entry
get_separate = (
  Aiocoap.Table.get,
  (codes "base_url", text (codes "coap://[bbbb::2]:5683"))
      ∷ (codes "resource", text (codes "/separate"))
      ∷ [],
)
