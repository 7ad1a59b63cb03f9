-- ===== src/Coordinator/Machine.antt =====
-- The coordinator as the model of its state machine: what each callback of the tables in
-- ioppytest/test_coordinator/states_and_transitions.py does to the test suite. What a callback
-- publishes is left out, with the exceptions that making the messages raises kept; publishing, and
-- the writing of the file of a verdict, succeed. The event that was received last is a parameter.
pub mod Cycle
use ioppytest.Prelude.Actions
use ioppytest.Prelude.Actions.{Action, ◌>>◌}
use ioppytest.Prelude.Calls.{◌>>=◌, or_raise}
use ioppytest.Prelude.{
  Bool, true, false, Option, none, some, Text, Result, ok, raised, attribute_error, type_error,
}
use ioppytest.Testsuite.{Testsuite, get_current_testcase}
use ioppytest.Testsuite.Reports.{get_testcase_report}
use ioppytest.Fsm.Tables.{Trigger, Callback}
use ioppytest.Coordinator.{
  SnifferResponse, TatResponse, Event, prepare_next_testcase, prepare_next_step,
  handle_finish_testcase, handle_testcase_restart, handle_testcase_select, handle_testcase_skip,
  handle_abort_testcase, is_skipping_current_testcase,
}
use ioppytest.Coordinator.Configure.{
  SessionEvent, AddressEvent, handle_testsuite_config, handle_iut_configuration_executed,
}
use ioppytest.Coordinator.Steps.{
  StepEvent, handle_step_executed, handle_testsuite_start, handle_current_step_timeout,
  handle_start_testcase, handle_finish_testsuite,
}
use ioppytest.Coordinator.Notify.{
  notify_step_execute, notify_testsuite_configured, notify_testsuite_started,
  notify_testsuite_finished, notify_testcase_started, notify_testcase_ready,
  notify_testcase_finished, notify_testcase_verdict, notify_tescase_configuration,
}

-- What the handlers read of the event received, and what the sniffer and TAT answer.
pub record Received : Type 0 where
  pub event : Event
  pub session : SessionEvent
  pub address : AddressEvent
  pub step : StepEvent
  pub testcase_id : Option Text
  pub sniffer : SnifferResponse
  pub tat : TatResponse

quietly : {A : Type 0} → Result A × Testsuite → Result (Option Trigger) × Testsuite
quietly (raised e, ts) = (raised e, ts)
quietly (ok a, ts) = (ok none, ts)

firing : Result Trigger × Testsuite → Result (Option Trigger) × Testsuite
firing (raised e, ts) = (raised e, ts)
firing (ok t, ts) = (ok (some t), ts)

-- What the file is made of: the fields of the test case, updated with those of its report.
unfoldable pub save_current_testcase_report_to_file : Testsuite → Result (Unit {0})
save_current_testcase_report_to_file ts = do
  _ ← or_raise attribute_error (get_current_testcase ts)
  _ ← or_raise type_error (get_testcase_report none ts)
  ok tt

-- The methods that the tables name. The coordinator has no `notify_testcase_aborted`.
unfoldable pub method : Received → Callback → Action Testsuite (Option Trigger)
unfolding quietly firing
method r Callback.handle_bootstrap ts = (ok (some Trigger.bootstrapped), ts)
method r Callback.handle_testsuite_config ts = quietly (handle_testsuite_config r.session ts)
method r Callback.handle_testsuite_start ts = quietly (handle_testsuite_start ts)
method r Callback.handle_iut_configuration_executed ts =
    handle_iut_configuration_executed r.address ts
method r Callback.handle_start_testcase ts = quietly (handle_start_testcase ts)
method r Callback.handle_finish_testcase ts = quietly (handle_finish_testcase r.sniffer r.tat ts)
method r Callback.handle_abort_testcase ts = quietly (handle_abort_testcase ts)
method r Callback.handle_step_executed ts = quietly (handle_step_executed r.step ts)
method r Callback.handle_current_step_timeout ts = quietly (handle_current_step_timeout ts)
method r Callback.handle_testcase_restart ts = quietly (handle_testcase_restart ts)
method r Callback.handle_testcase_select ts = quietly (handle_testcase_select ts)
method r Callback.handle_testcase_skip ts = quietly (handle_testcase_skip r.testcase_id ts)
method r Callback.prepare_next_testcase ts = firing (prepare_next_testcase r.event ts)
method r Callback.prepare_next_step ts = firing (prepare_next_step ts)
method r Callback.handle_finish_testsuite ts = (ok none, handle_finish_testsuite ts)
method r Callback.save_current_testcase_report_to_file ts =
    quietly (save_current_testcase_report_to_file ts, ts)
method r Callback.notify_testsuite_configured ts = quietly (notify_testsuite_configured ts, ts)
method r Callback.notify_testsuite_started ts = quietly (notify_testsuite_started ts, ts)
method r Callback.notify_testsuite_finished ts = quietly (notify_testsuite_finished ts, ts)
method r Callback.notify_testcase_started ts = quietly (notify_testcase_started ts, ts)
method r Callback.notify_testcase_ready ts = quietly (notify_testcase_ready ts, ts)
method r Callback.notify_testcase_finished ts = quietly (notify_testcase_finished ts, ts)
method r Callback.notify_testcase_verdict ts = quietly (notify_testcase_verdict ts, ts)
method r Callback.notify_tescase_configuration ts = quietly (notify_tescase_configuration ts, ts)
method r Callback.notify_step_execute ts = quietly (notify_step_execute ts, ts)
method r Callback.notify_testcase_aborted ts = (raised attribute_error, ts)
method r _ ts = (ok none, ts)

answered : Result Bool → Bool
answered (ok b) = b
answered (raised e) = false

-- The condition, of an event that has the field of the id.
unfoldable pub skipping : Received → Testsuite → Bool
unfolding answered
skipping r ts = answered (is_skipping_current_testcase (some r.testcase_id) ts)
