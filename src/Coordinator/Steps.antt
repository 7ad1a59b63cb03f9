-- ===== src/Coordinator/Steps.antt =====
-- Steps and the start of a test case, in ioppytest/test_coordinator/coordinator.py, and the short
-- callbacks there. What a callback asks of the sniffer and of the packet router is what it returns.
pub mod Started
use ioppytest.Prelude.Actions
use ioppytest.Prelude.Actions.{Action, ◌>>=◌, ◌>>◌}
use ioppytest.Prelude.{
  ℕ, Bool, true, false, List, [], ◌∷◌, ◌++◌, Option, none, some, Text, codes, ◌==◌, if◌then◌else◌,
  Result, ok, raised, attribute_error, coordinator_error,
}
use ioppytest.Testcase.{TcState}
use ioppytest.TestConfig.{TestConfig, Link}
use ioppytest.Testsuite.{Testsuite, set_current_testcase_state}
use ioppytest.Testsuite.Stepping.{finish_stimuli_step, finish_check_step, finish_verify_step}
use ioppytest.Testsuite.Selection
use ioppytest.Testsuite.Selection.{get_current_testcase_id, abort_current_testcase}
use ioppytest.Testsuite.Reports.{generate_report}
use ioppytest.Testsuite.Queries.{get_current_testcase_configuration, Summary, states_summary}
use ioppytest.Testsuite.Views.{
  get_current_testcase_state, TestcaseView, get_testcases_basic, SessionView,
  get_testsuite_configuration,
}

-- A `step_executed` event. A field that the message lacks is none.
pub data StepEvent : Type 0 where
  stimuli_executed : StepEvent
  check_executed : (partial_verdict description : Option Text) → StepEvent
  verify_executed : (verify_response : Option Bool) → StepEvent
  other : StepEvent

-- `except AttributeError: raise CoordinatorError(...)`
as_malformed : {A : Type 0} → Result A × Testsuite → Result A × Testsuite
as_malformed (raised attribute_error, ts) = (raised coordinator_error, ts)
as_malformed (r, ts) = (r, ts)

finish_check : Option Text → Option Text → Action Testsuite (Unit {0})
finish_check (some partial_verdict) (some description) =
    finish_check_step description partial_verdict
finish_check _ _ = Actions.raise attribute_error

finish_verify : Option Bool → Action Testsuite (Unit {0})
finish_verify (some verify_response) = finish_verify_step verify_response
finish_verify none = Actions.raise attribute_error

unfoldable pub handle_step_executed : StepEvent → Action Testsuite (Unit {0})
unfolding as_malformed finish_check finish_verify
handle_step_executed stimuli_executed ts = finish_stimuli_step ts
handle_step_executed (check_executed partial_verdict description) ts =
    as_malformed (finish_check partial_verdict description ts)
handle_step_executed (verify_executed verify_response) ts =
    as_malformed (finish_verify verify_response ts)
handle_step_executed other ts = (ok tt, ts)

unfoldable pub handle_testsuite_start : Action Testsuite (Unit {0})
handle_testsuite_start = Selection.reinit none

unfoldable pub handle_current_step_timeout : Action Testsuite (Unit {0})
handle_current_step_timeout = abort_current_testcase

-- A request to the sniffer, or a message to the packet router.
pub data Call : Type 0 where
  sniffing_start : (capture_id : Option Text) (filter_proto link_id : Text) → Call
  start_lossy_link : (number_of_packets_to_drop : ℕ) → Call

abbrev pub lossy_context_number_of_packets_to_drop : ℕ
lossy_context_number_of_packets_to_drop = 2

-- A link that lacks `special_mode` ends in the `KeyError` that is passed over.
unfoldable pub special_calls : Option Text → List Call
special_calls none = []
special_calls (some special_mode) =
    if special_mode == codes "lossy_context"
    then start_lossy_link lossy_context_number_of_packets_to_drop ∷ []
    else []

-- The loop over the links. An answer that the sniffer does not give is only logged.
unfoldable pub start_links : Option Text → List Link → List Call
unfolding special_calls
start_links capture_id [] = []
start_links capture_id (link ∷ rest) =
    sniffing_start capture_id link.capture_filter link.link_id
    ∷ (special_calls link.special_mode ++ start_links capture_id rest)

unfoldable pub may_start : Option TcState → Bool
may_start (some TcState.ready) = true
may_start (some TcState.configuring) = true
may_start _ = false

start_topology : Option TestConfig → Action Testsuite (List Call)
start_topology none ts = (raised attribute_error, ts)
start_topology (some config) ts =
    (ok (start_links (get_current_testcase_id ts) config.topology), ts)

unfoldable pub handle_start_testcase : Action Testsuite (List Call)
unfolding may_start start_topology
handle_start_testcase ts =
    (Actions.assert (may_start (get_current_testcase_state ts))
        >> set_current_testcase_state (some TcState.executing)
        >> λ ts'. start_topology (get_current_testcase_configuration ts') ts')
      ts

-- The report of the session is generated, and written to a file.
unfoldable pub handle_finish_testsuite : Testsuite → Testsuite
handle_finish_testsuite = generate_report

-- The two services of the coordinator. The listing passes on `verbose=None`.
unfoldable pub get_testcases_basic_service : Testsuite → Result (List TestcaseView)
get_testcases_basic_service ts = get_testcases_basic false ts

pub record StatesSummary : Type 0 where
  pub states : Summary
  pub session : SessionView

with_session : Summary → Result SessionView → Result StatesSummary
with_session states (raised e) = raised e
with_session states (ok session) = ok (record { states = states; session = session })

unfoldable pub get_states_summary : Testsuite → Result StatesSummary
unfolding with_session
get_states_summary ts = with_session (states_summary ts) (get_testsuite_configuration ts)
