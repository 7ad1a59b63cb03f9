-- ===== src/Coordinator/Finish.antt =====
-- How a test case ends, with the answers of the sniffer and of TAT.
use ioppytest.Prelude.{
  ℕ, suc, ◌≡◌, refl, ◌∙◌, ap, List, [], ◌∷◌, ◌++◌, length, none, some, Text, ok,
}
use ioppytest.Verdict.Worst.{severities, worst}
use ioppytest.Testcase
use ioppytest.Testcase.{Testcase, TcState, PartialVerdict, Report, check_all_steps_finished}
use ioppytest.Testcase.Reporting.{generate_testcase_report, error_report}
use ioppytest.Testcase.Reporting.Verdicts.{step_values, updates}
use ioppytest.Testcase.Reporting.Final.{CanReport, Reports, report_worst}
use ioppytest.Coordinator.{
  SnifferResponse, TatResponse, frame_id, partial_verdicts, conclude, fail_with, conclude_from,
  analyse_capture, analyzed, conclude_testcase,
}

-- A test case that is finished with a report.
abbrev pub reported : Testcase → Report → Testcase
reported tc r = Testcase.change_state (some TcState.finished) (record tc { report = some r })

analyzed-CanReport : (tc : Testcase) → CanReport tc → CanReport (analyzed tc)
unfolding check_all_steps_finished Testcase.change_state
analyzed-CanReport tc h = record { run = refl; done = h.done; steps = h.steps }

updates-partial_verdicts :
    (n m : ℕ) (items : List (Text × Text)) → updates (partial_verdicts n m items) ≡ items
unfolding partial_verdicts
updates-partial_verdicts n m [] = refl
updates-partial_verdicts n m ((verdict, description) ∷ rest) =
    ap (◌∷◌ (verdict, description)) (updates-partial_verdicts (suc n) m rest)

-- A run test case whose steps are done, with a capture and verdicts of TAT that are known, ends
-- finished, with a report of the worst of the verdicts of its steps and of TAT.
pub conclude_testcase-worst :
    (tc : Testcase) (item : Text × Text) (rest : List (Text × Text)) (ns : List ℕ)
    → CanReport tc
    → severities (item ∷ rest) ≡ some ns
    → (r : Report) × (conclude_testcase SnifferResponse.captured
          (TatResponse.verdicts (item ∷ rest))
          tc
        ≡ (ok tt, reported (analyzed tc) r))
      × Reports (worst 0 (step_values tc.sequence ++ ns)) r
unfolding conclude_testcase analyse_capture conclude_from conclude partial_verdicts
    Testcase.change_state
conclude_testcase-worst tc (verdict, description) rest ns h e =
    let items = (verdict, description) ∷ rest in
    let known = ap severities (updates-partial_verdicts 0 (length items) items) ∙ e in
    let first : PartialVerdict = record {
      step_id = frame_id 1 (length items);
      verdict = verdict;
      info = description;
      frame = none;
    } in
    let (r, f, g) =
      report_worst (analyzed tc) first (partial_verdicts 1 (length items) rest) ns
        (analyzed-CanReport tc h) known in
    (r, rw f refl, g)

-- An answer of TAT that is no list of verdicts.
abbrev pub IsFailure : TatResponse → Type 0
IsFailure (TatResponse.verdicts items) = ⊥
IsFailure _ = Unit

-- Without an analysis, be it for the sniffer or for TAT, a test case ends finished all the same,
-- with a report of the verdict `error`.
pub conclude_testcase_error :
    (tc : Testcase) (sniffer : SnifferResponse) (tat : TatResponse)
    → (sniffer ≡ SnifferResponse.captured → IsFailure tat)
    → (message : Text) × (conclude_testcase sniffer tat tc
        ≡ (ok tt, reported (analyzed tc) (error_report message)))
unfolding conclude_testcase analyse_capture conclude_from fail_with conclude
    generate_testcase_report
conclude_testcase_error tc SnifferResponse.captured TatResponse.timed_out h = (_, refl)
conclude_testcase_error tc SnifferResponse.captured (TatResponse.verdicts items) h = absurd (h refl)
conclude_testcase_error tc SnifferResponse.captured (TatResponse.refused message code) h = (_, refl)
conclude_testcase_error tc SnifferResponse.captured (TatResponse.malformed shown) h = (_, refl)
conclude_testcase_error tc (SnifferResponse.refused shown) tat h = (_, refl)
conclude_testcase_error tc (SnifferResponse.malformed shown) tat h = (_, refl)
