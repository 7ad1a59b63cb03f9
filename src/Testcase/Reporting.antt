-- ===== src/Testcase/Reporting.antt =====
-- `generate_testcase_report`: the final verdict of a test case, from the verdicts of its steps and
-- those of the Test Analysis Tool.
pub mod Verdicts
pub mod Final
use ioppytest.Prelude.Calls.{◌>>=◌, ◌>>◌, or_raise}
use ioppytest.Prelude.Actions
use ioppytest.Prelude.Actions.{Action}
use ioppytest.Prelude.{
  ℕ, ◌≡◌, Bool, true, false, List, [], ◌∷◌, ◌++◌, Option, none, some, Text, codes, ◌==◌,
  if◌then◌else◌, Result, ok, raised, attribute_error, test_suite_error,
}
use ioppytest.Verdict
use ioppytest.Verdict.{Verdict, blank, get_value, get_message}
use ioppytest.Step.{Step, StepState, has_verdict}
use ioppytest.Testcase.State.{TcState, PartialVerdict, Report, Testcase, check_all_steps_finished}

-- What the method returns: the report; or, with no report written, the tuple for a test case that
-- was not run, or `None` for one with unfinished steps.
pub data Outcome : Type 0 where
  written : Report → Outcome
  not_run : Option TcState → Outcome
  unfinished : Outcome

-- The lines of the report so far, and the final verdict so far.
abbrev pub Tally : Type 0
Tally = List PartialVerdict × Verdict

-- A finished check, verify or feature step: its line is appended, and the verdict updated.
unfoldable pub tally_finished : Text → Verdict → Tally → Result Tally
tally_finished step_id v (lines, final_verdict) = do
  name ← get_value v
  final_verdict' ← Verdict.update name (get_message v) final_verdict
  ok (
    lines
        ++ (record { step_id = step_id; verdict = name; info = get_message v; frame = some [] }
            ∷ []),
    final_verdict',
  )

-- The branches on whether the type has a verdict, and on the state.
unfoldable pub tally_as : Bool → Option StepState → Option Verdict → Text → Tally → Result Tally
tally_as false _ _ step_id t = ok t
tally_as true (some StepState.postponed) _ step_id t = ok t
tally_as true (some StepState.finished) (some v) step_id t = tally_finished step_id v t
tally_as true (some StepState.finished) none step_id t = raised attribute_error
tally_as true _ _ step_id t = raised test_suite_error

unfoldable pub tally_step : Step → Tally → Result Tally
tally_step s t = tally_as (has_verdict s.type) s.state s.partial_verdict s.id t

unfoldable pub tally_steps : List Step → Tally → Result Tally
tally_steps [] t = ok t
tally_steps (s ∷ rest) t = do t' ← tally_step s t; tally_steps rest t'

-- `for item in tat_analysis_report`
unfoldable pub tally_analysis : List PartialVerdict → Tally → Result Tally
tally_analysis [] t = ok t
tally_analysis (item ∷ rest) (lines, final_verdict) = do
  final_verdict' ← Verdict.update item.verdict item.info final_verdict
  tally_analysis rest (lines ++ (item ∷ []), final_verdict')

-- `if tat_analysis_report and len(tat_analysis_report) != 0`
unfoldable pub tally_tat : Option (List PartialVerdict) → Tally → Result Tally
tally_tat (some (item ∷ rest)) t = tally_analysis (item ∷ rest) t
tally_tat _ (lines, final_verdict) = do
  final_verdict' ←
      Verdict.update (codes "error") (codes "Test Analysis Tool returned an empty analysis report")
        final_verdict
  ok (lines, final_verdict')

abbrev pub pass_message : Text
pass_message = codes "No interoperability error was detected."

-- The hack that overwrites the message of a pass.
unfoldable pub overwrite_pass : Verdict → Result Verdict
overwrite_pass final_verdict = do
  name ← get_value final_verdict
  if name == codes "pass"
      then Verdict.update (codes "pass") pass_message final_verdict
      else ok final_verdict

unfoldable pub report_of : Tally → Result Report
report_of (lines, final_verdict) = do
  v ← overwrite_pass final_verdict
  name ← get_value v
  ok (record { verdict = name; description = get_message v; partial_verdicts = lines })

-- The report from the steps and the analysis.
unfoldable pub analyse : List Step → Option (List PartialVerdict) → Result Report
analyse steps tat_analysis_report = do
  t ← tally_steps steps ([], blank)
  t' ← tally_tat tat_analysis_report t
  report_of t'

abbrev pub was_run : Option TcState → Bool
was_run none = false
was_run (some TcState.skipped) = false
was_run (some TcState.aborted) = false
was_run (some _) = true

unfoldable pub error_report : Text → Report
error_report err_msg = record {
  verdict = codes "error";
  description = err_msg;
  partial_verdicts = [];
}

write_report : Report → Action Testcase Outcome
write_report report tc = (ok (written report), record tc { report = some report })

from_steps : Option (List PartialVerdict) → Action Testcase Outcome
unfolding write_report
from_steps tat tc = elim (check_all_steps_finished tc) [
  | raised e ↦ (raised e, tc)
  | ok done ↦ elim done [
    | false ↦ (ok unfinished, tc)
    | true ↦ elim (analyse tc.sequence tat) [
      | raised e ↦ (raised e, tc)
      | ok report ↦ write_report report tc
    ]
  ]
]

-- `if err_msg`: an empty message is none.
unfoldable pub generate_testcase_report :
    Option (List PartialVerdict) → Option Text → Action Testcase Outcome
unfolding from_steps
generate_testcase_report tat (some (c ∷ s)) tc = write_report (error_report (c ∷ s)) tc
generate_testcase_report tat _ tc =
    if was_run tc.state then from_steps tat tc else (ok (not_run tc.state), tc)
