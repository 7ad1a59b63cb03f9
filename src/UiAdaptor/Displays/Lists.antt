-- ===== src/UiAdaptor/Displays/Lists.antt =====
-- The list of test cases, from the coordinator's service to the users.
use ioppytest.Prelude.{
  ◌≡◌, refl, Bool, true, false, List, [], ◌∷◌, map, Option, none, some, Text, codes, values, lookup,
  text_eq, ok,
}
use ioppytest.Testcase.{Testcase, TcState}
use ioppytest.Testsuite.{Testsuite}
use ioppytest.Testsuite.Views.{TestcaseView, testcase_to_dict, get_testcases_basic}
use ioppytest.Coordinator.Steps.{get_testcases_basic_service}
use ioppytest.Coordinator.Connector.{get_testcases, testcases, handle_service}
use ioppytest.UiAdaptor.Messages.{paragraph}
use ioppytest.UiAdaptor.Trees.{Tree, text}
use ioppytest.UiAdaptor.Reports.{Cell, tree, shown}
use ioppytest.UiAdaptor.Displays.{
  Entry, dict, not_yet, or_not_yet, info, listed_row, listed_rows, get_ui_testcases_list,
}

abbrev pub state_name : TcState → Text
state_name TcState.skipped = codes "skipped"
state_name TcState.configuring = codes "configuring"
state_name TcState.ready = codes "ready"
state_name TcState.executing = codes "executing"
state_name TcState.ready_for_analysis = codes "ready_for_analysis"
state_name TcState.analyzing = codes "analyzing"
state_name TcState.finished = codes "finished"
state_name TcState.aborted = codes "aborted"

abbrev pub state_tree : Option TcState → Tree
state_tree none = Tree.null
state_tree (some s) = text (state_name s)

-- A test case as the service lists it.
abbrev pub sent : TestcaseView → Entry
sent v = dict (
    (codes "testcase_id", text v.testcase_id)
    ∷ (codes "testcase_ref", text v.testcase_ref)
    ∷ (codes "objective", text v.objective)
    ∷ (codes "state", state_tree v.state)
    ∷ [])

-- The row of a test case: one without a state is not yet executed.
abbrev pub state_shown : Option TcState → Tree
state_shown none = not_yet
state_shown (some s) = text (state_name s)

abbrev pub row_of : Testcase → List Cell
row_of tc = tree (text tc.id) ∷ tree (text tc.uri) ∷ tree (state_shown tc.state) ∷ []

or_not_yet_lem : (s : Option TcState) → or_not_yet (state_tree s) ≡ state_shown s
unfolding or_not_yet
or_not_yet_lem none = refl
or_not_yet_lem (some TcState.skipped) = refl
or_not_yet_lem (some TcState.configuring) = refl
or_not_yet_lem (some TcState.ready) = refl
or_not_yet_lem (some TcState.executing) = refl
or_not_yet_lem (some TcState.ready_for_analysis) = refl
or_not_yet_lem (some TcState.analyzing) = refl
or_not_yet_lem (some TcState.finished) = refl
or_not_yet_lem (some TcState.aborted) = refl

listed_known :
    (tcs : List Testcase)
    → listed_rows (map sent (map (testcase_to_dict false) tcs)) ≡ ok (map row_of tcs)
unfolding listed_rows listed_row testcase_to_dict lookup text_eq
listed_known [] = refl
listed_known (tc ∷ rest) = rw (or_not_yet_lem tc.state) (rw (listed_known rest) refl)

-- The list of the test cases of a suite that has some, as the coordinator's service answers it, is
-- displayed without an exception: one table, under its header, with a row for each test case in
-- order, of its id, its URL, and its state or that it is not yet executed.
pub handle_service-displayed :
    (tabulate : Bool → List (List Cell) → Text) (ts : Testsuite) (tc : Testcase)
    (rest : List Testcase)
    → values ts.test_descriptions_dict ≡ tc ∷ rest
    → (views : List TestcaseView) × (handle_service get_testcases ts ≡ testcases views ∷ [])
      × (get_ui_testcases_list tabulate (map sent views)
          ≡ ok (record {
            title = codes "Test cases list:";
            level = info;
            fields =
                paragraph (
                  tabulate true (
                    map shown
                      (codes "Test Case ID" ∷ codes "Test Case URL" ∷ codes "Test Case State" ∷ [])
                    ∷ map row_of (tc ∷ rest)))
                ∷ [];
          }))
unfolding handle_service get_testcases_basic_service get_testcases_basic get_ui_testcases_list
handle_service-displayed tabulate ts tc rest e =
    (map (testcase_to_dict false) (tc ∷ rest), rw e refl, rw (listed_known (tc ∷ rest)) refl)
