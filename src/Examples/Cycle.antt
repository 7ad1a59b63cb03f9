-- ===== src/Examples/Cycle.antt =====
-- The coordinator's machine at work, run by an engine that does what is documented.
use ioppytest.Prelude.{◌≡◌, ◌≢◌, refl, [], ◌∷◌, none, some, codes, ok, lookup, text_eq}
use ioppytest.Testcase.{Testcase, TcState, Report}
use ioppytest.Testcase.Reporting.{error_report}
use ioppytest.Testsuite.{Testsuite, get_current_testcase, testcase_at}
use ioppytest.Testsuite.State.{get_testcase, or_current}
use ioppytest.Testsuite.Reports.{get_testcase_report}
use ioppytest.Testsuite.Order.Pending.{first_pending}
use ioppytest.Fsm.Tables.{State}
use ioppytest.Fsm.Machine.{Work, Package, documented, run}
use ioppytest.Coordinator.{SnifferResponse, TatResponse, Event}
use ioppytest.Coordinator.Configure.{Configuration, AddressEvent}
use ioppytest.Coordinator.Steps.{StepEvent, handle_finish_testsuite}
use ioppytest.Coordinator.Machine.{Received, method, skipping}
use ioppytest.Coordinator.Machine.Cycle.{prepared_suite, cycle_starts, cycle_finishes}
use ioppytest.Examples.{done, fresh, suite, config}

abbrev received : Received
received = record {
  event = Event.other;
  session = record {
    configuration = Configuration.missing;
    configuration_text = none;
    session_id = none;
    users = none;
  };
  address = AddressEvent.malformed_tun_started;
  step = StepEvent.other;
  testcase_id = none;
  sniffer = SnifferResponse.captured;
  tat = TatResponse.timed_out;
}

abbrev engine : Package Testsuite
engine = documented (method received) (skipping received)

abbrev verdict_given : Report
verdict_given = error_report (codes "no analysis")

-- The test case is finished, with its report.
abbrev finished : Testcase
finished = record done { state = some TcState.finished; report = some verdict_given }

abbrev one_left : Testsuite
one_left = suite ((codes "TC1", finished) ∷ (codes "TC2", fresh) ∷ []) (some (codes "TC1"))

one_left_current : get_current_testcase one_left ≡ some finished
unfolding get_current_testcase testcase_at lookup text_eq
one_left_current = refl

one_left_reported : get_testcase_report none one_left ≡ some verdict_given
unfolding get_testcase_report get_testcase or_current testcase_at lookup text_eq
one_left_reported = refl

one_left_ne : one_left.test_descriptions_dict ≢ []
one_left_ne e = cc

second_is_fresh : lookup (codes "TC2") one_left.test_descriptions_dict ≡ some fresh
unfolding lookup text_eq
second_is_fresh = refl

second_configured : lookup fresh.configuration_id one_left.tc_configs ≡ some config
unfolding lookup text_eq
second_configured = refl

second_pending : first_pending one_left.test_descriptions_dict ≡ some (codes "TC2")
unfolding first_pending
second_pending = refl

cycle_starts_example :
    run engine 12 (Work.enter State.testcase_finished ∷ []) State.preparing_next_step one_left
    ≡ ok (record {
      state = State.waiting_for_iut_configuration_executed;
      work = [];
      coordinator = prepared_suite (codes "TC2") fresh one_left;
    })
cycle_starts_example =
    cycle_starts received engine State.preparing_next_step one_left finished verdict_given
      (codes "TC2") fresh config (λ w later s d. refl) refl one_left_current one_left_reported
      one_left_ne second_pending second_is_fresh second_configured

abbrev none_left : Testsuite
none_left = suite ((codes "TC1", finished) ∷ []) (some (codes "TC1"))

none_left_current : get_current_testcase none_left ≡ some finished
unfolding get_current_testcase testcase_at lookup text_eq
none_left_current = refl

none_left_reported : get_testcase_report none none_left ≡ some verdict_given
unfolding get_testcase_report get_testcase or_current testcase_at lookup text_eq
none_left_reported = refl

none_left_ne : none_left.test_descriptions_dict ≢ []
none_left_ne e = cc

none_pending : first_pending none_left.test_descriptions_dict ≡ none
unfolding first_pending
none_pending = refl

cycle_finishes_example :
    run engine 12 (Work.enter State.testcase_finished ∷ []) State.preparing_next_step none_left
    ≡ ok (record {
      state = State.testsuite_finished;
      work = [];
      coordinator = handle_finish_testsuite (record none_left { current_tc = none });
    })
cycle_finishes_example =
    cycle_finishes received engine State.preparing_next_step none_left finished verdict_given
      (λ w later s d. refl) refl none_left_current none_left_reported none_left_ne none_pending
