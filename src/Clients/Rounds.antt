-- ===== src/Clients/Rounds.antt =====
-- A round of a stimuli step with the client of automation/coap_client_libcoap/automated_iut.py as
-- the implementation under test.
use ioppytest.Prelude.{
  ℕ, ◌≡◌, refl, subst, sym, Bool, List, [], ◌∷◌, Option, none, some, Text, lookup, drop, get_elem?,
  ok, Result, raised,
}
use ioppytest.Step.{Step, StepType, Iut}
use ioppytest.Testcase.{Testcase}
use ioppytest.TestConfig.{TestConfig}
use ioppytest.Testsuite.{Testsuite}
use ioppytest.Testsuite.Stepping.{get_current_step}
use ioppytest.Testsuite.Stepping.Progress.{first_due}
use ioppytest.Testsuite.Stepping.Answers.{finished}
use ioppytest.Coordinator.{prepare_next_step}
use ioppytest.Coordinator.Steps.{StepEvent, handle_step_executed}
use ioppytest.Coordinator.Notify.{Notification, notify_step_execute}
use ioppytest.AutomatedIut.{AutomatedIut, Answer, Stimuli}
use ioppytest.AutomatedIut.Group.{Distinct}
use ioppytest.AutomatedIut.Round.{Describes, collect_all, stimuli_round}
use ioppytest.Clients.{
  Environment, Launch, Process, launch_short_automated_iut_process, not_implemented_shown, target,
}
use ioppytest.Clients.Libcoap.Table.{Entry}
use ioppytest.Clients.Libcoap.{Client, execute_stimuli, methods, table_of, stimuli_of}
use ioppytest.Clients.Libcoap.Executes.{Does, execute_stimuli_lem}

-- A process that starts, however it ends.
abbrev pub IsStarted : Result Bool → Type 0
IsStarted (ok b) = Unit
IsStarted (raised e) = ⊥

-- The description of the answer: that the step has no entry.
abbrev pub description_of : Option Entry → Text → Option Text
description_of none step = some (not_implemented_shown step)
description_of (some e) step = none

module _ (env : Environment) (process : Launch → Process) (tkn : Text)
    (starts : (l : Launch) → IsStarted (launch_short_automated_iut_process (process l))) where
  started : (r : Result Bool) → IsStarted r → Describes (stimuli_of r) none
  unfolding stimuli_of
  started (ok b) h = refl
  started (raised e) h = absurd h

  done-Describes :
      (step : Text) (o : Option Entry) (client : Client) (result : Stimuli × Client)
      → Does process tkn step o client result
      → Describes (result.0) (description_of o step)
  done-Describes step none client result h =
      subst (λ p. Describes p.0 (some (not_implemented_shown step))) (sym h) refl
  done-Describes step (some (func, args)) client result (r, l, q, e, m, w, h) =
      subst (λ p. Describes p.0 none) (sym h)
        (started (launch_short_automated_iut_process (process l)) (starts l))

  -- A round of a stimuli step. A test case is current, with its configuration, the step is a
  -- stimuli step and the first one due, and one of the automated IUTs, of which no two have the
  -- same node, has the node of the step and the methods of the libcoap client, in any state, where
  -- every process starts. Then the notification that follows the preparation of the step goes
  -- through; the IUTs answer with one message in all, that the stimuli was executed on the step's
  -- node, with a description exactly when the table of the client has no entry for the step; and
  -- by that answer the coordinator finishes the step, which is still current.
  pub libcoap_round :
      (reach : Text → Bool) (client : Client) (k : Text) (tc : Testcase) (ts : Testsuite)
      (config : TestConfig) (j : ℕ) (s : Step) (iut : Iut) (iuts : List AutomatedIut) (i : ℕ)
      (a : AutomatedIut)
      → ts.current_tc ≡ some k
      → lookup k ts.test_descriptions_dict ≡ some tc
      → lookup tc.configuration_id ts.tc_configs ≡ some config
      → first_due (drop tc.step_it tc.sequence) tc.step_it ≡ some j
      → get_elem? tc.sequence j ≡ some s
      → s.iut ≡ some iut
      → s.type ≡ StepType.stimuli
      → Distinct iuts
      → get_elem? iuts i ≡ some a
      → a.node ≡ iut.node
      → a.methods ≡ methods env process tkn reach client
      → let ts' = (prepare_next_step ts).1 in
        let after = handle_step_executed StepEvent.stimuli_executed ts' in
        ((l : List Notification) × (notify_step_execute ts' ≡ ok l)
          × (collect_all l iuts
              ≡ Answer.step_stimuli_executed
                  (description_of (lookup s.id (table_of env client.mode_aux)) s.id)
                  iut.node
                ∷ []))
        × (after.0 ≡ ok tt)
        × (get_current_step after.1 ≡ some (finished s))
  unfolding methods
  libcoap_round reach client k tc ts config j s iut iuts i a c e f due g b t dist m n h =
      let o = lookup s.id (table_of env client.mode_aux) in
      stimuli_round k tc ts config j s iut iuts i a (description_of o s.id) c e f due g b t dist m n
        (λ addr.
          subst (λ q. Describes (q.execute_stimuli s.id addr) (description_of o s.id)) (sym h)
            (done-Describes s.id o
              (record client { base_url = target none addr env.coap_server_port client.base_url })
              (execute_stimuli env process tkn s.id addr none client)
              (execute_stimuli_lem env process tkn s.id addr none client)))
