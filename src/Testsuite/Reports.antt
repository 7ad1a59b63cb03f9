-- ===== src/Testsuite/Reports.antt =====
-- The reports of the suite.
pub mod Complete
use ioppytest.Prelude.{List, [], ◌∷◌, ◌++◌, Option, none, some, Text, codes, Dict}
use ioppytest.Prelude.Actions.{Action}
use ioppytest.Testcase.{Testcase, Report}
use ioppytest.Testcase.Reporting.{generate_testcase_report}
use ioppytest.Testsuite.State.{Testsuite, ReportItem, testcase_at, get_testcase, or_current}

abbrev pub no_report : Text
no_report = codes "No test case verdict/report found for test case"

-- `if tc.report is None`: a dummy report is generated.
unfoldable pub with_report : Testcase → Testcase
with_report tc = elim tc.report [
  | none ↦ (generate_testcase_report none (some no_report) tc).1
  | some _ ↦ tc
]

-- `report_item.update(tc.report)`
unfoldable pub items_of : Testcase → List ReportItem
items_of tc = elim tc.report [
  | none ↦ []
  | some r ↦ record { testcase_id = tc.id; report = r } ∷ []
]

-- The loop over the test cases: their reports, and the test cases with what it wrote.
unfoldable pub report_entries : Dict Testcase → List ReportItem × Dict Testcase
report_entries [] = ([], [])
report_entries ((k, tc) ∷ rest) =
    let tc' = with_report tc in
    let (items, rest') = report_entries rest in (items_of tc' ++ items, (k, tc') ∷ rest')

unfoldable pub generate_report : Testsuite → Testsuite
generate_report ts =
    let (items, entries) = report_entries ts.test_descriptions_dict in
    record ts { test_descriptions_dict = entries; report = some items }

unfoldable pub get_report : Testsuite → Option (List ReportItem)
get_report ts = ts.report

-- The report of the test case of that id, or else of the current one.
unfoldable pub get_testcase_report : Option Text → Testsuite → Option Report
get_testcase_report testcase_id ts =
    elim (testcase_at (or_current (get_testcase testcase_id ts) ts) ts) [
      | none ↦ none
      | some tc ↦ tc.report
    ]
