-- ===== src/Coordinator/Connector.antt =====
-- The dispatch of ioppytest/test_coordinator/amqp_connector.py: control events to the machine, and
-- requests to the two services. How the machine runs a trigger is a parameter.
pub mod Dispatch
use ioppytest.Prelude.Actions.{Action}
use ioppytest.Prelude.{
  List, [], ◌∷◌, Option, none, some, Result, ok, raised, Exn, machine_error, coordinator_error,
}
use ioppytest.Fsm.Tables.{Trigger}
use ioppytest.Testsuite.{Testsuite}
use ioppytest.Testsuite.Views.{TestcaseView}
use ioppytest.Coordinator.Steps.{StatesSummary, get_testcases_basic_service, get_states_summary}

-- The classes of messages that the coordinator subscribes to, and all others.
pub data EventClass : Type 0 where
  session_configuration configuration_executed agent_tun_started testcase_start : EventClass
  step_stimuli_executed step_verify_executed step_check_executed : EventClass
  testcase_select testsuite_start testcase_restart testcase_skip other : EventClass

unfoldable pub control_events_triggers : EventClass → Option Trigger
control_events_triggers session_configuration = some Trigger.configure_testsuite
control_events_triggers configuration_executed = some Trigger.iut_configuration_executed
control_events_triggers agent_tun_started = some Trigger.iut_configuration_executed
control_events_triggers testcase_start = some Trigger.start_testcase
control_events_triggers step_stimuli_executed = some Trigger.step_executed
control_events_triggers step_verify_executed = some Trigger.step_executed
control_events_triggers step_check_executed = some Trigger.step_executed
control_events_triggers testcase_select = some Trigger.select_testcase
control_events_triggers testsuite_start = some Trigger.start_testsuite
control_events_triggers testcase_restart = some Trigger.restart_testcase
control_events_triggers testcase_skip = some Trigger.skip_testcase
control_events_triggers other = none

-- The two `except` clauses: what they catch is logged.
unfoldable pub logged : {S : Type 0} → Result (Unit {0}) × S → Result (Unit {0}) × S
logged (raised machine_error, s) = (ok tt, s)
logged (raised coordinator_error, s) = (ok tt, s)
logged (r, s) = (r, s)

dispatch : {S : Type 0} → (Trigger → Action S (Unit {0})) → Option Trigger → Action S (Unit {0})
unfolding logged
dispatch trigger none s = (ok tt, s)
dispatch trigger (some t) s = logged (trigger t s)

unfoldable pub handle_control :
    {S : Type 0} → (Trigger → Action S (Unit {0})) → EventClass → Action S (Unit {0})
unfolding dispatch
handle_control trigger event = dispatch trigger (control_events_triggers event)

pub data Request : Type 0 where
  get_testcases get_status other_request : Request

pub data Response : Type 0 where
  testcases : List TestcaseView → Response
  status : StatesSummary → Response
  error : Exn → Response

-- Any exception of a service becomes an error message.
response_of : {A : Type 0} → (A → Response) → Result A → Response
response_of f (ok a) = f a
response_of f (raised e) = error e

-- What is published. A request of another kind is passed over.
unfoldable pub handle_service : Request → Testsuite → List Response
unfolding response_of
handle_service get_testcases ts = response_of testcases (get_testcases_basic_service ts) ∷ []
handle_service get_status ts = response_of status (get_states_summary ts) ∷ []
handle_service other_request ts = []
