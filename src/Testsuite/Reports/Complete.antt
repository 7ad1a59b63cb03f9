-- ===== src/Testsuite/Reports/Complete.antt =====
-- The final report has an entry for every test case.
use ioppytest.Prelude.{◌≡◌, refl, [], ◌∷◌, map, Option, none, some, Text, Dict, arith}
use ioppytest.Testcase.{Testcase, Report}
use ioppytest.Testcase.Reporting.{error_report, generate_testcase_report}
use ioppytest.Testsuite.State.{Testsuite, ReportItem}
use ioppytest.Testsuite.Reports.{no_report, with_report, items_of, report_entries, generate_report}

-- The report of a test case, or the dummy one.
abbrev pub report_or_error : Option Report → Report
report_or_error none = error_report no_report
report_or_error (some r) = r

abbrev pub entry_of : Text × Testcase → ReportItem
entry_of e = record { testcase_id = e.1.id; report = report_or_error e.1.report }

abbrev pub reported : Text × Testcase → Text × Testcase
reported e = (e.0, record e.1 { report = some (report_or_error e.1.report) })

with_report_lem :
    (tc : Testcase) → with_report tc ≡ record tc { report = some (report_or_error tc.report) }
unfolding with_report generate_testcase_report
with_report_lem tc = ground arith

report_entries_lem : (d : Dict Testcase) → report_entries d ≡ (map entry_of d, map reported d)
unfolding report_entries items_of
report_entries_lem [] = refl
report_entries_lem ((k, tc) ∷ rest) = rw (report_entries_lem rest, with_report_lem tc) refl

-- The final report has one entry for each test case, in their order: its own report, or the error
-- report of a test case that has none. The test cases keep those reports and change in nothing
-- else.
pub generate_report_complete :
    (ts : Testsuite)
    → generate_report ts ≡ record ts {
      test_descriptions_dict = map reported ts.test_descriptions_dict;
      report = some (map entry_of ts.test_descriptions_dict);
    }
unfolding generate_report
generate_report_complete ts = λ i. record ts {
  test_descriptions_dict = (report_entries_lem ts.test_descriptions_dict i).1;
  report = some (report_entries_lem ts.test_descriptions_dict i).0;
}
