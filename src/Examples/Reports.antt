-- ===== src/Examples/Reports.antt =====
-- Reports and verdicts of the sample test cases.
use mathlib.Core.List.{Permᴰ}
use ioppytest.Prelude.{◌≡◌, ◌≤◌, refl, [], ◌∷◌, none, some, codes, text_eq, ok, All, arith}
use ioppytest.Verdict
use ioppytest.Verdict.{Verdict, blank, severity, update_all}
use ioppytest.Verdict.Worst.{severities, IsWorst, update_all-IsWorst}
use ioppytest.Verdict.Order.{value_of, update_all-perm}
use ioppytest.Step.{StepState}
use ioppytest.Testcase.{Testcase, TcState, Report, check_all_steps_finished, all_finished}
use ioppytest.Testcase.Reporting
use ioppytest.Testcase.Reporting.{generate_testcase_report, written, pass_message, analyse}
use ioppytest.Testcase.Reporting.Final.{
  CanReport, Reports, report_worst, report_missing, report_pass,
}
use ioppytest.Examples.{done, pass_line, stimulus, verifying, testcase}

pub done-CanReport : CanReport done
unfolding check_all_steps_finished
done-CanReport = record { run = refl; done = refl; steps = (tt, (tt, (omega arith, tt))) }

pub one_pass : severities ((codes "pass", []) ∷ []) ≡ some (1 ∷ [])
unfolding severities severity text_eq
one_pass = refl

report_worst_example :
    (r : Report) × (generate_testcase_report (some (pass_line ∷ [])) none done
      ≡ (ok (written r), record done { report = some r }))
    × Reports 3 r
report_worst_example = report_worst done pass_line [] (1 ∷ []) done-CanReport one_pass

report_missing_example :
    (r : Report) × (generate_testcase_report none none done
      ≡ (ok (written r), record done { report = some r }))
    × (r.verdict ≡ codes "error")
report_missing_example = report_missing done none done-CanReport tt

abbrev passed : Testcase
passed =
    testcase (some TcState.executing)
      (stimulus (some StepState.finished)
        ∷ verifying (some StepState.finished) (record { value = 1; message = codes "yes" })
        ∷ [])
      2 (some 1)

passed-CanReport : CanReport passed
unfolding check_all_steps_finished
passed-CanReport = record { run = refl; done = refl; steps = (tt, (omega arith, tt)) }

abbrev passed_report : Report
passed_report = record {
  verdict = codes "pass";
  description = pass_message;
  partial_verdicts =
      record { step_id = codes "S3"; verdict = codes "pass"; info = codes "yes"; frame = some [] }
      ∷ pass_line
      ∷ [];
}

passed_is_written :
    (generate_testcase_report (some (pass_line ∷ [])) none passed).0 ≡ ok (written passed_report)
unfolding generate_testcase_report check_all_steps_finished all_finished analyse
    Reporting.tally_steps Reporting.tally_step Reporting.tally_as Reporting.tally_finished
    Verdict.get_value Verdict.name_at Verdict.update severity text_eq Reporting.tally_tat
    Reporting.tally_analysis Reporting.report_of Reporting.overwrite_pass Verdict.absorb
    Verdict.get_message
passed_is_written = refl

report_pass_example : All (λ n. n ≤ 1) (1 ∷ 1 ∷ []) × (passed_report.description ≡ pass_message)
report_pass_example =
    report_pass passed pass_line [] (1 ∷ []) passed_report passed-CanReport one_pass
      passed_is_written refl

update_all-IsWorst_example :
    IsWorst blank
      (update_all ((codes "pass", []) ∷ []) blank)
      (severities ((codes "pass", []) ∷ []))
update_all-IsWorst_example = update_all-IsWorst ((codes "pass", []) ∷ []) blank

update_all-perm_example :
    value_of (update_all ((codes "pass", []) ∷ (codes "error", codes "e") ∷ []) blank)
    ≡ value_of (update_all ((codes "error", codes "e") ∷ (codes "pass", []) ∷ []) blank)
update_all-perm_example =
    update_all-perm ((codes "pass", []) ∷ (codes "error", codes "e") ∷ [])
      ((codes "error", codes "e") ∷ (codes "pass", []) ∷ []) blank (Permᴰ.swap refl refl)
