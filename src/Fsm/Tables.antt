-- ===== src/Fsm/Tables.antt =====
-- The two tables.
use ioppytest.Prelude.{ℕ, Bool, true, false, List, [], ◌∷◌, Option, none, some}

pub data State : Type 0 where
  null bootstrapping waiting_for_testsuite_config waiting_for_testsuite_start : State
  preparing_next_testcase waiting_for_iut_configuration_executed : State
  waiting_for_testcase_start preparing_next_step waiting_for_step_executed : State
  testcase_finished testcase_aborted testsuite_finished : State

pub data Trigger : Type 0 where
  bootstrap bootstrapped configure_testsuite start_testsuite start_configuration : Trigger
  finish_testsuite iut_configuration_executed start_testcase start_next_step : Trigger
  finish_testcase abort_testcase step_executed : Trigger
  timeout_waiting_iut_configuration_executed all_iut_configuration_executed : Trigger
  timeout_waiting_step_executed restart_testcase select_testcase skip_testcase : Trigger
  go_to_next_testcase to_preparing_next_testcase : Trigger

-- The methods of the coordinator that the tables name.
pub data Callback : Type 0 where
  fire : Trigger → Callback
  set_received_event handle_bootstrap handle_testsuite_config handle_testsuite_start : Callback
  configure_agent_data_plane_interfaces handle_iut_configuration_executed : Callback
  handle_start_testcase handle_finish_testcase handle_abort_testcase : Callback
  handle_step_executed handle_current_step_timeout handle_testcase_restart : Callback
  handle_testcase_select handle_testcase_skip prepare_next_testcase prepare_next_step : Callback
  save_current_testcase_report_to_file handle_finish_testsuite : Callback
  notify_testsuite_ready notify_testsuite_configured notify_testsuite_started : Callback
  notify_tescase_configuration notify_testcase_started notify_testcase_ready : Callback
  notify_step_execute notify_testcase_finished notify_testcase_verdict : Callback
  notify_testcase_aborted notify_testsuite_finished : Callback

-- `'*'`, or a list of states.
pub data Source : Type 0 where
  any : Source
  among : List State → Source

-- `'='`, or a state.
pub data Dest : Type 0 where
  same : Dest
  to : State → Dest

-- `conditions` and `unless`: the one test that the table names.
pub data Guard : Type 0 where
  always is_skipping_current_testcase unless_is_skipping_current_testcase : Guard

pub record StateEntry : Type 0 where
  pub name : State
  pub on_enter : List Callback
  pub on_exit : List Callback
  pub timeout : Option (ℕ × Trigger)
  pub ignore_invalid_triggers : Bool

pub record Transition : Type 0 where
  pub trigger : Trigger
  pub source : Source
  pub dest : Dest
  pub guard : Guard
  pub before : List Callback
  pub after : List Callback

abbrev pub iut_configuration_timeout : ℕ
iut_configuration_timeout = 5

abbrev plain : State → List Callback → List Callback → StateEntry
plain name on_enter on_exit = record {
  name = name;
  on_enter = on_enter;
  on_exit = on_exit;
  timeout = none;
  ignore_invalid_triggers = false;
}

unfoldable pub states : List StateEntry
states =
    plain null (fire bootstrap ∷ []) []
    ∷ plain bootstrapping (handle_bootstrap ∷ []) (notify_testsuite_ready ∷ [])
    ∷ plain waiting_for_testsuite_config [] (notify_testsuite_configured ∷ [])
    ∷ plain waiting_for_testsuite_start [] (notify_testsuite_started ∷ [])
    ∷ plain preparing_next_testcase (prepare_next_testcase ∷ []) []
    ∷ (record {
      name = waiting_for_iut_configuration_executed;
      on_enter = [];
      on_exit = [];
      timeout = some (iut_configuration_timeout, timeout_waiting_iut_configuration_executed);
      ignore_invalid_triggers = false;
    })
    ∷ (record {
      name = waiting_for_testcase_start;
      on_enter = [];
      on_exit = [];
      timeout = none;
      ignore_invalid_triggers = true;
    })
    ∷ plain preparing_next_step (prepare_next_step ∷ []) []
    ∷ plain waiting_for_step_executed (notify_step_execute ∷ []) []
    ∷ plain testcase_finished
        (notify_testcase_finished
          ∷ save_current_testcase_report_to_file
          ∷ notify_testcase_verdict
          ∷ fire to_preparing_next_testcase
          ∷ [])
        []
    ∷ plain testcase_aborted (notify_testcase_aborted ∷ []) []
    ∷ plain testsuite_finished (handle_finish_testsuite ∷ notify_testsuite_finished ∷ []) []
    ∷ []

abbrev from : Trigger → Source → Dest → List Callback → List Callback → Transition
from trigger source dest before after = record {
  trigger = trigger;
  source = source;
  dest = dest;
  guard = always;
  before = before;
  after = after;
}

-- The states from which a test case is restarted or selected, or the current one is skipped.
abbrev pub interruptible : List State
interruptible =
    waiting_for_iut_configuration_executed ∷ waiting_for_testcase_start ∷ waiting_for_step_executed
    ∷ testcase_finished ∷ []

abbrev received : Callback → List Callback
received handler = set_received_event ∷ handler ∷ []

unfoldable pub transitions : List Transition
transitions =
    from bootstrap (among (null ∷ [])) (to bootstrapping) [] []
    ∷ from bootstrapped (among (bootstrapping ∷ [])) (to waiting_for_testsuite_config) [] []
    ∷ from configure_testsuite (among (waiting_for_testsuite_config ∷ []))
        (to waiting_for_testsuite_start) (received handle_testsuite_config) []
    ∷ from start_testsuite (among (waiting_for_testsuite_start ∷ waiting_for_testsuite_config ∷ []))
        (to preparing_next_testcase)
        (set_received_event ∷ handle_testsuite_start ∷ configure_agent_data_plane_interfaces ∷ [])
        []
    ∷ from start_configuration (among (preparing_next_testcase ∷ []))
        (to waiting_for_iut_configuration_executed) [] (notify_tescase_configuration ∷ [])
    ∷ from finish_testsuite (among (preparing_next_testcase ∷ [])) (to testsuite_finished) [] []
    ∷ from iut_configuration_executed any same (set_received_event ∷ [])
        (handle_iut_configuration_executed ∷ [])
    ∷ from start_testcase
        (among (waiting_for_testcase_start ∷ waiting_for_iut_configuration_executed ∷ []))
        (to preparing_next_step) (received handle_start_testcase) (notify_testcase_started ∷ [])
    ∷ from start_next_step (among (preparing_next_step ∷ [])) (to waiting_for_step_executed) [] []
    ∷ from finish_testcase (among (preparing_next_step ∷ [])) (to testcase_finished)
        (received handle_finish_testcase) []
    ∷ from abort_testcase
        (among (
          waiting_for_iut_configuration_executed ∷ preparing_next_step ∷ waiting_for_testcase_start
          ∷ waiting_for_step_executed ∷ []))
        (to preparing_next_testcase) (received handle_abort_testcase) []
    ∷ from step_executed (among (waiting_for_step_executed ∷ [])) (to preparing_next_step)
        (received handle_step_executed) []
    ∷ from timeout_waiting_iut_configuration_executed
        (among (waiting_for_iut_configuration_executed ∷ [])) (to waiting_for_testcase_start)
        (set_received_event ∷ []) (notify_testcase_ready ∷ [])
    ∷ from all_iut_configuration_executed (among (waiting_for_iut_configuration_executed ∷ []))
        (to waiting_for_testcase_start) (set_received_event ∷ []) (notify_testcase_ready ∷ [])
    ∷ from timeout_waiting_step_executed (among (waiting_for_step_executed ∷ []))
        (to waiting_for_testsuite_start) (received handle_current_step_timeout) []
    ∷ from restart_testcase (among interruptible) (to preparing_next_testcase)
        (received handle_testcase_restart) []
    ∷ from select_testcase (among interruptible) (to preparing_next_testcase)
        (received handle_testcase_select) []
    ∷ (record {
      trigger = skip_testcase;
      source = among interruptible;
      dest = to preparing_next_testcase;
      guard = is_skipping_current_testcase;
      before = received handle_testcase_skip;
      after = [];
    })
    ∷ (record {
      trigger = skip_testcase;
      source = among (
          waiting_for_iut_configuration_executed ∷ waiting_for_testcase_start
          ∷ waiting_for_testsuite_config ∷ waiting_for_step_executed ∷ testcase_finished ∷ []);
      dest = same;
      guard = unless_is_skipping_current_testcase;
      before = received handle_testcase_skip;
      after = [];
    })
    ∷ from go_to_next_testcase (among []) same (set_received_event ∷ []) []
    ∷ []
