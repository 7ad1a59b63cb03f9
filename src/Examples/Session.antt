-- ===== src/Examples/Session.antt =====
-- A session on the sample suite: its configuration, its IUTs and its first round.
use mathlib.Core.Option
use ioppytest.Prelude.{
  true, ◌≡◌, refl, List, [], ◌∷◌, none, some, Text, codes, ok, lookup, mem, text_eq, has_code,
}
use ioppytest.Step.{init_iut}
use ioppytest.Testcase
use ioppytest.Testcase.{Testcase, TcState}
use ioppytest.TestConfig.{TestConfig, Link}
use ioppytest.Testsuite.{Testsuite, put}
use ioppytest.Testsuite.Stepping.{get_current_step}
use ioppytest.Testsuite.Stepping.Answers.{finished}
use ioppytest.Testsuite.Queries.{get_node_address}
use ioppytest.Fsm.Tables.{State, Trigger}
use ioppytest.Coordinator.{Event, prepare_next_testcase, prepare_next_step}
use ioppytest.Coordinator.Configure.{
  Configuration, SessionEvent, AddressEvent, handle_iut_configuration_executed,
}
use ioppytest.Coordinator.Configure.Addresses.{Tells, handle_iut_configuration_executed_twice}
use ioppytest.Coordinator.Offered.{Fires, prepare-Fires}
use ioppytest.Coordinator.Steps.{
  Call, may_start, StepEvent, handle_start_testcase, handle_step_executed,
}
use ioppytest.Coordinator.Steps.Started.{Asks, handle_start_testcase_lem}
use ioppytest.Coordinator.Notify.{Notification, notify_step_execute}
use ioppytest.AutomatedIut.{AutomatedIut, Methods, Stimuli, Answer, on_request, publish}
use ioppytest.AutomatedIut
use ioppytest.AutomatedIut.Group.{collect, collect-addressee}
use ioppytest.AutomatedIut.Round.{collect_all, stimuli_round}
use ioppytest.Examples.{client, server, stimulus, fresh, fresh_steps, testcase, suite, config}

-- Two automated IUTs that are able to do everything.
abbrev pub able : Methods
able = record {
  execute_stimuli = λ step addr. Stimuli.executed;
  execute_verify = λ step. ok tt;
  execute_configuration = λ testcase_id node. ok (some (codes "bbbb::1"));
  test_l3_reachability = λ addr. true;
}

abbrev pub iut_of : Text → AutomatedIut
iut_of node = AutomatedIut.init node (codes "automated_iut") none able

abbrev pub two_iuts : List AutomatedIut
two_iuts = iut_of server ∷ iut_of client ∷ []

abbrev pub at_start : Testsuite
at_start = suite ((codes "TC1", fresh) ∷ []) (some (codes "TC1"))

stimuli_round_example :
    let ts' = (prepare_next_step at_start).1 in
    let after = handle_step_executed StepEvent.stimuli_executed ts' in
    ((l : List Notification) × (notify_step_execute ts' ≡ ok l)
      × (collect_all l two_iuts ≡ Answer.step_stimuli_executed none client ∷ []))
    × (after.0 ≡ ok tt)
    × (get_current_step after.1 ≡ some (finished (stimulus none)))
unfolding lookup text_eq mem AutomatedIut.init init_iut
stimuli_round_example =
    stimuli_round (codes "TC1") fresh at_start config 0 (stimulus none) (init_iut client) two_iuts 1
      (iut_of client) none refl refl refl refl refl refl refl (refl, (refl, tt)) refl refl
      (λ addr. refl)

collect-addressee_example :
    collect (AutomatedIut.step_verify_execute client (codes "S3")) two_iuts
    ≡ Answer.step_verify_executed true client ∷ []
unfolding text_eq mem AutomatedIut.init on_request publish
collect-addressee_example =
    collect-addressee (AutomatedIut.step_verify_execute client (codes "S3")) two_iuts 1
      (iut_of client) (Answer.step_verify_executed true client ∷ []) (refl, (refl, tt)) refl refl
      refl

abbrev lossy_link : Link
lossy_link = record {
  link_id = codes "link_1";
  nodes = client ∷ server ∷ [];
  capture_filter = codes "udp";
  special_mode = some (codes "lossy_context");
}

abbrev lossy : TestConfig
lossy = record config { topology = lossy_link ∷ [] }

abbrev configuring : Testcase
configuring = testcase (some TcState.configuring) fresh_steps 0 none

abbrev about_to_start : Testsuite
about_to_start = record (suite ((codes "TC1", configuring) ∷ []) (some (codes "TC1"))) {
  tc_configs = (codes "CFG", lossy) ∷ [];
}

start_example :
    (calls : List Call) × (handle_start_testcase about_to_start ≡ (
      ok calls,
      put (codes "TC1") (Testcase.change_state (some TcState.executing) configuring) about_to_start,
    ))
    × Asks calls (lossy_link ∷ [])
unfolding lookup text_eq may_start
start_example =
    handle_start_testcase_lem (codes "TC1") configuring about_to_start lossy refl refl refl refl

abbrev session : SessionEvent
session = record {
  configuration = Configuration.testcases (codes "http://doc.f-interop.eu/tests/TC2" ∷ []);
  configuration_text = none;
  session_id = some (some (codes "id"));
  users = some none;
}

-- One IUT tells its address, the other one has a tunnel.
abbrev told : AddressEvent
told = AddressEvent.configuration_executed (some client) (some (codes "bbbb::1"))

abbrev tunnel : AddressEvent
tunnel = AddressEvent.tun_started (record {
  name = some server;
  re_route_packets = (none, none);
  ipv6 = (some (codes "bbbb"), some (codes "2"));
  ipv4 = (none, none);
})

twice_example :
    let (r, ts') = handle_iut_configuration_executed told at_start in
    let (r', ts'') = handle_iut_configuration_executed tunnel ts' in
    (r ≡ ok none)
    × (r' ≡ ok (some Trigger.all_iut_configuration_executed))
    × (get_node_address client ts'' ≡ ok (codes "bbbb", codes "1"))
    × (get_node_address server ts'' ≡ ok (codes "bbbb", codes "2"))
unfolding text_eq has_code
twice_example =
    handle_iut_configuration_executed_twice told tunnel client server (codes "bbbb") (codes "bbbb")
      (codes "1") (codes "2") at_start refl (refl, refl, refl, refl) (refl, Tells.by_ipv6 tt refl)
      refl refl refl

prepare-Fires_example :
    Fires State.preparing_next_testcase (prepare_next_testcase Event.other at_start).0
    × Fires State.preparing_next_step (prepare_next_step at_start).0
prepare-Fires_example = prepare-Fires Event.other at_start
