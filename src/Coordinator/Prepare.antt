-- ===== src/Coordinator/Prepare.antt =====
-- Which trigger follows the preparation of a test case.
use ioppytest.Prelude.{◌≡◌, ◌≢◌, refl, [], none, some, Text, ok, lookup}
use ioppytest.Testcase
use ioppytest.Testcase.{Testcase, TcState}
use ioppytest.Testsuite.{Testsuite, put}
use ioppytest.Testsuite.Order.Pending.{first_pending, next_testcase_lem}
use ioppytest.Fsm.Tables.{Trigger}
use ioppytest.Coordinator.Current.{state_set_at}
use ioppytest.Coordinator.{Event, prepare_next_testcase, asked_for, or_next, start_or_finish}

-- With an event that asks for no test case, a suite with no test case left without a state is
-- finished, and nothing is current then.
pub prepare_next_testcase_finishes :
    (ts : Testsuite)
    → ts.test_descriptions_dict ≢ []
    → first_pending ts.test_descriptions_dict ≡ none
    → prepare_next_testcase Event.other ts
      ≡ (ok Trigger.finish_testsuite, record ts { current_tc = none })
unfolding prepare_next_testcase asked_for or_next start_or_finish
prepare_next_testcase_finishes ts h e = rw (next_testcase_lem ts h) (rw e refl)

-- With an event that asks for no test case, the first test case without a state becomes current
-- and is `configuring`, nothing else changes, and its configuration starts.
pub prepare_next_testcase_starts :
    (ts : Testsuite) (k : Text) (tc : Testcase)
    → ts.test_descriptions_dict ≢ []
    → first_pending ts.test_descriptions_dict ≡ some k
    → lookup k ts.test_descriptions_dict ≡ some tc
    → prepare_next_testcase Event.other ts ≡ (
      ok Trigger.start_configuration,
      put k
          (Testcase.change_state (some TcState.configuring) tc)
          (record ts { current_tc = some k }),
    )
unfolding prepare_next_testcase asked_for or_next start_or_finish
prepare_next_testcase_starts ts k tc h e at = rw (next_testcase_lem ts h) (
    rw e
      (rw (state_set_at TcState.configuring (record ts { current_tc = some k }) k tc refl at) refl))
