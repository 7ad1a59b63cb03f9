-- ===== src/Coordinator.antt =====
-- ioppytest/test_coordinator/coordinator.py: the callbacks of the state machine that work on the
-- test suite. What the sniffer and the test analysis tool (TAT) answer are parameters; the trigger
-- that a callback fires at its end is what it returns.
pub mod Current
pub mod Finish
pub mod Prepare
pub mod Configure
pub mod Steps
pub mod Offered
pub mod Notify
pub mod Connector
pub mod Machine
use Prim.Native.Nat.{◌/◌, ◌%◌}
use ioppytest.Prelude.Actions
use ioppytest.Prelude.Actions.{Action, ◌>>=◌, ◌>>◌}
use ioppytest.Prelude.{
  ℕ, zero, suc, ◌+◌, Bool, true, false, List, [], ◌∷◌, ◌++◌, length, Option, none, some, Text,
  codes, ◌==◌, decimal, lookup, if◌then◌else◌, Result, ok, raised, coordinator_error, name_error,
  attribute_error,
}
use ioppytest.Step.{Step}
use ioppytest.Testcase
use ioppytest.Testcase.{Testcase, TcState, PartialVerdict}
use ioppytest.Testcase.Reporting.{generate_testcase_report}
use ioppytest.Testsuite.{
  Testsuite, on_testcase, testcase_at, get_testcase, set_current_testcase_state, next_testcase,
  go_to_testcase,
}
use ioppytest.Testsuite.Stepping.{next_step}
use ioppytest.Testsuite.Selection.{
  get_current_testcase_id, abort_current_testcase, skip_testcase, reinit_testcase,
}
use ioppytest.Testsuite.Views.{check_testcase_finished, get_detailed_status}
use ioppytest.Fsm.Tables.{Trigger}

-- The answer of the sniffer: a capture, a refusal, or something without the fields read. The two
-- last have the text by which they are shown.
pub data SnifferResponse : Type 0 where
  captured : SnifferResponse
  refused : Text → SnifferResponse
  malformed : Text → SnifferResponse

-- The answer of TAT. A verdict comes with its description; a refusal with its message and code.
pub data TatResponse : Type 0 where
  timed_out : TatResponse
  verdicts : List (Text × Text) → TatResponse
  refused : Text → Text → TatResponse
  malformed : Text → TatResponse

-- `"frame_check_[{}/{}]".format(step_count, ls_len)`
unfoldable pub frame_id : ℕ → ℕ → Text
frame_id step_count ls_len =
    codes "frame_check_[" ++ (decimal step_count ++ (codes "/" ++ (decimal ls_len ++ codes "]")))

-- The loop over the partial verdicts of TAT.
unfoldable pub partial_verdicts : ℕ → ℕ → List (Text × Text) → List PartialVerdict
partial_verdicts step_count ls_len [] = []
partial_verdicts step_count ls_len ((verdict, description) ∷ rest) =
    record {
      step_id = frame_id (suc step_count) ls_len;
      verdict = verdict;
      info = description;
      frame = none;
    }
    ∷ partial_verdicts (suc step_count) ls_len rest

-- A report is generated and the test case is finished.
conclude : Option (List PartialVerdict) → Option Text → Action Testcase (Unit {0})
conclude partial_verd error_msg =
    generate_testcase_report partial_verd error_msg
    >> Actions.modify (Testcase.change_state (some TcState.finished))

fail_with : Text → Action Testcase (Unit {0})
unfolding conclude
fail_with error_msg = conclude none (some error_msg)

conclude_from : TatResponse → Action Testcase (Unit {0})
unfolding fail_with
conclude_from TatResponse.timed_out = fail_with (codes "TAT service timeout error")
conclude_from (TatResponse.verdicts items) =
    conclude (some (partial_verdicts 0 (length items) items)) none
conclude_from (TatResponse.refused message code) = fail_with (
    codes "Error response from TAT : "
    ++ (message ++ (codes " (err.code: " ++ (code ++ codes ")"))))
conclude_from (TatResponse.malformed shown) =
    fail_with (codes "TAT didn't send a correctly formatted message, we got " ++ shown)

-- TAT is asked only with a capture.
analyse_capture : SnifferResponse → TatResponse → Action Testcase (Unit {0})
unfolding conclude_from
analyse_capture SnifferResponse.captured tat = conclude_from tat
analyse_capture (SnifferResponse.refused shown) tat =
    fail_with (codes "Error encountered with packet sniffer: " ++ shown)
analyse_capture (SnifferResponse.malformed shown) tat =
    fail_with
      (codes "Failed to process packet sniffer response. Wrongly formatted response? : " ++ shown)

-- `change_state('analyzing')`, and no step is current.
abbrev pub analyzed : Testcase → Testcase
analyzed tc = record (Testcase.change_state (some TcState.analyzing) tc) { current_step = none }

unfoldable pub conclude_testcase : SnifferResponse → TatResponse → Action Testcase (Unit {0})
unfolding analyse_capture
conclude_testcase sniffer tat tc = analyse_capture sniffer tat (analyzed tc)

-- A test case with steps left is reported in the log, and refused.
refuse : {A : Type 0} → Result A → Action Testsuite (Unit {0})
refuse (raised e) ts = (raised e, ts)
refuse (ok status) ts = (raised coordinator_error, ts)

finish_if : Result Bool → SnifferResponse → TatResponse → Action Testsuite (Unit {0})
unfolding refuse
finish_if (raised e) sniffer tat ts = (raised e, ts)
finish_if (ok false) sniffer tat ts = refuse (get_detailed_status ts) ts
finish_if (ok true) sniffer tat ts = on_testcase ts.current_tc (conclude_testcase sniffer tat) ts

unfoldable pub finish_testcase : SnifferResponse → TatResponse → Action Testsuite (Unit {0})
unfolding finish_if
finish_testcase sniffer tat ts = finish_if (check_testcase_finished ts) sniffer tat ts

unfoldable pub handle_finish_testcase : SnifferResponse → TatResponse → Action Testsuite (Unit {0})
handle_finish_testcase sniffer tat =
    finish_testcase sniffer tat >> set_current_testcase_state (some TcState.finished)

-- The event that led to a callback: a selection or a start, which may lack the field of the id or
-- have `None` there; a restart; or another.
pub data Event : Type 0 where
  select_or_start : Option (Option Text) → Event
  restart other : Event

-- The test case that the event asks for. `AttributeError` on the way is no test case.
asked_for : Event → Action Testsuite (Option Text)
asked_for (select_or_start none) ts = (ok none, ts)
asked_for (select_or_start (some testcase_id)) ts = elim (get_testcase testcase_id ts) [
  | none ↦ (ok none, ts)
  | some k ↦ (go_to_testcase (some k) >> Actions.pure (some k)) ts
]
asked_for restart ts = (ok ts.current_tc, ts)
asked_for other ts = (ok none, ts)

is_finished : Option Testcase → Bool
is_finished (some tc) = elim tc.state [
  | none ↦ false
  | some s ↦ elim s [ TcState.finished ↦ true | _ ↦ false ]
]
is_finished none = false

or_next : Option Text → Action Testsuite (Option Text)
unfolding is_finished
or_next none ts = next_testcase ts
or_next (some k) ts =
    if is_finished (testcase_at (some k) ts) then next_testcase ts else (ok (some k), ts)

start_or_finish : Option Text → Action Testsuite Trigger
start_or_finish none = Actions.pure Trigger.finish_testsuite
start_or_finish (some k) =
    set_current_testcase_state (some TcState.configuring)
    >> Actions.pure Trigger.start_configuration

unfoldable pub prepare_next_testcase : Event → Action Testsuite Trigger
unfolding asked_for or_next start_or_finish
prepare_next_testcase received_event = asked_for received_event >>= λ testcase_to_execute.
    or_next testcase_to_execute >>= start_or_finish

execute_or_analyse : Option Step → Action Testsuite Trigger
execute_or_analyse (some step) =
    set_current_testcase_state (some TcState.executing) >> Actions.pure Trigger.start_next_step
execute_or_analyse none =
    set_current_testcase_state (some TcState.ready_for_analysis)
    >> Actions.pure Trigger.finish_testcase

unfoldable pub prepare_next_step : Action Testsuite Trigger
unfolding execute_or_analyse
prepare_next_step = next_step >>= execute_or_analyse

-- `if current_tc_id`: an empty id is none.
restart_of : Option Text → Action Testsuite (Unit {0})
restart_of (some (c ∷ s)) = reinit_testcase (some (c ∷ s))
restart_of _ = Actions.raise coordinator_error

unfoldable pub handle_testcase_restart : Action Testsuite (Unit {0})
unfolding restart_of
handle_testcase_restart ts = restart_of (get_current_testcase_id ts) ts

unfoldable pub handle_testcase_select : Action Testsuite (Unit {0})
handle_testcase_select ts = reinit_testcase (get_current_testcase_id ts) ts

skip_if_any : Option Text → Option Text → Action Testsuite (Unit {0})
skip_if_any none none ts = (raised coordinator_error, ts)
skip_if_any current_tc_id testcase_id_skip ts = skip_testcase testcase_id_skip ts

-- The id of the event, `None` also where the event has no such field.
unfoldable pub handle_testcase_skip : Option Text → Action Testsuite (Unit {0})
unfolding skip_if_any
handle_testcase_skip testcase_id_skip ts =
    skip_if_any (get_current_testcase_id ts) testcase_id_skip ts

unfoldable pub handle_abort_testcase : Action Testsuite (Unit {0})
handle_abort_testcase = abort_current_testcase

is_current : Text → Option Text → Bool
is_current id none = false
is_current id (some current) = id == current

-- The handler of the exception logs `tc_id`, which is then unbound.
unfoldable pub is_skipping_current_testcase : Option (Option Text) → Testsuite → Result Bool
unfolding is_current
is_skipping_current_testcase none ts = raised name_error
is_skipping_current_testcase (some none) ts = ok true
is_skipping_current_testcase (some (some tc_id)) ts =
    ok (is_current tc_id (get_current_testcase_id ts))
