-- ===== src/UiAdaptor/Reports/Colors.antt =====
-- The color of the final report of a suite, from the coordinator to the users.
use ioppytest.Prelude.{
  ◌≡◌, refl, sym, ap, subst, inl, inr, Bool, true, false, Bool-cases, ◌||◌, List, [], ◌∷◌, ◌++◌,
  map, Option, none, some, Text, codes, ◌==◌, text_eq, text_eq_iff, mem, All, lookup, contains_text,
  starts_with, lower, ok, if◌then◌else◌,
}
use ioppytest.Verdict
use ioppytest.Testcase.{PartialVerdict}
use ioppytest.Testsuite.{Testsuite}
use ioppytest.Testsuite.State.{ReportItem}
use ioppytest.Testsuite.Reports.{get_report}
use ioppytest.Testsuite.Reports.Complete.{entry_of, generate_report_complete}
use ioppytest.Coordinator.Steps.{handle_finish_testsuite}
use ioppytest.Coordinator.Notify.{testsuite_report, notify_testsuite_finished}
use ioppytest.UiAdaptor.Messages.{Field, paragraph}
use ioppytest.UiAdaptor.Trees.{text, Item, line, is_in, is_in_lower, list_to_str}
use ioppytest.UiAdaptor.Reports.{
  Row, row, Report, Cell, Summary, Display, display_color, choose, red, highlighted, warning,
  summary_row, generate_ui_fields, summarise, rows_for, step_message_fields, details_if_any, tree,
  item, summary_cells, display_of, get_ui_test_suite_results,
}

-- What is shown in red.
abbrev pub is_bad : Text → Bool
is_bad v = v == codes "none" || (v == codes "fail" || v == codes "error")

abbrev color_of : Text → Text
color_of v = if is_bad v then red else if v == codes "pass" then highlighted else warning

-- What holds of each element of a list holds of a member.
tail_member : (a b : Bool) → a ≡ false → (a || b) ≡ true → b ≡ true
tail_member true b n h = cc
tail_member false b n h = h

All-mem : (P : Text → Type 0) (xs : List Text) (v : Text) → All P xs → mem v xs ≡ true → P v
unfolding mem
All-mem P [] v p h = cc h
All-mem P (x ∷ xs) v (p, ps) h = elim (Bool-cases (v == x)) [
  | inl e ↦ subst P (sym ((text_eq_iff v x).0 e)) p
  | inr n ↦ All-mem P xs v ps (tail_member (v == x) (mem v xs) n h)
]

color_known :
    (v : Text) → mem v Verdict.values ≡ true → display_color (some (text v)) ≡ ok (color_of v)
unfolding display_color choose is_in is_in_lower contains_text starts_with lower text_eq
color_known v =
    All-mem (λ v. display_color (some (text v)) ≡ ok (color_of v)) Verdict.values v
      (refl, (refl, (refl, (refl, (refl, (refl, tt))))))

red_known : (v : Text) → mem v Verdict.values ≡ true → (color_of v == red) ≡ is_bad v
unfolding text_eq
red_known v =
    All-mem (λ v. (color_of v == red) ≡ is_bad v) Verdict.values v
      (refl, (refl, (refl, (refl, (refl, (refl, tt))))))

-- A report as the coordinator sends it.
abbrev frame_of : Option Text → List Item
frame_of none = []
frame_of (some t) = line t ∷ []

abbrev row_of : PartialVerdict → Row
row_of p = row (line p.step_id ∷ line p.verdict ∷ line p.info ∷ frame_of p.frame)

abbrev pub sent : ReportItem → Report
sent r = record {
  fields =
      (codes "testcase_id", text r.testcase_id)
      ∷ (codes "verdict", text r.report.verdict)
      ∷ (codes "description", text r.report.description)
      ∷ [];
  partial_verdicts = some (map row_of r.report.partial_verdicts);
}

abbrev pub any_bad : List ReportItem → Bool
any_bad [] = false
any_bad (r ∷ rest) = is_bad r.report.verdict || any_bad rest

abbrev pub HasKnown : ReportItem → Type 0
HasKnown r = mem r.report.verdict Verdict.values ≡ true

module _ (tabulate : Bool → List (List Cell) → Text) where
  fields_of : ReportItem → List Field
  fields_of r =
      paragraph (tabulate false (rows_for step_message_fields (sent r).fields))
      ∷ details_if_any tabulate (sent r).partial_verdicts

  -- The fields of a report with a known verdict, in the color of the verdict.
  fields_known :
      (r : ReportItem)
      → HasKnown r
      → generate_ui_fields tabulate (sent r)
        ≡ ok (text r.testcase_id, color_of r.report.verdict, fields_of r)
  unfolding generate_ui_fields fields_of lookup text_eq
  fields_known r k = rw (color_known r.report.verdict k) refl

  summary_of : List ReportItem → Summary
  summary_of [] = record { is_red = false; rows = []; tail = [] }
  summary_of (r ∷ rest) = record {
    is_red = color_of r.report.verdict == red || (summary_of rest).is_red;
    rows =
        (tree (text r.testcase_id)
          ∷ tree (text r.report.verdict)
          ∷ item (line r.report.description)
          ∷ [])
        ∷ (summary_of rest).rows;
    tail =
        paragraph (codes "---\n---\n" ++ (r.testcase_id ++ codes ":\n"))
        ∷ (fields_of r ++ (summary_of rest).tail);
  }

  summarise_known :
      (rs : List ReportItem)
      → All HasKnown rs
      → summarise tabulate (map sent rs) ≡ ok (summary_of rs)
  unfolding summarise summary_row summary_of summary_cells list_to_str lookup text_eq
  summarise_known [] k = refl
  summarise_known (r ∷ rest) (k, ks) = rw (fields_known r k) (rw (summarise_known rest ks) refl)

  summary_red : (rs : List ReportItem) → All HasKnown rs → (summary_of rs).is_red ≡ any_bad rs
  unfolding summary_of
  summary_red [] k = refl
  summary_red (r ∷ rest) (k, ks) =
      rw (red_known r.report.verdict k)
        (ap (λ b. is_bad r.report.verdict || b) (summary_red rest ks))

  -- The display of the reports of known verdicts, and its level.
  results_known :
      (rs : List ReportItem)
      → All HasKnown rs
      → (d : Display) × (get_ui_test_suite_results tabulate (map sent rs) ≡ ok d)
        × (d.level ≡ (if any_bad rs then red else highlighted))
  unfolding get_ui_test_suite_results display_of
  results_known rs k = (
    display_of tabulate (summary_of rs),
    rw (summarise_known rs k) refl,
    ap (λ b. if b then red else highlighted) (summary_red rs k),
  )

  -- When a suite whose reports have known verdicts is finished, the coordinator sends one message,
  -- with the reports of all test cases, a test case without one having an error report. What the
  -- interface displays of it goes through, and is red if some verdict is `none`, `fail` or `error`,
  -- and green otherwise.
  pub finished_suite_color :
      (ts : Testsuite)
      → All HasKnown (map entry_of ts.test_descriptions_dict)
      → (items : List ReportItem) × (notify_testsuite_finished (handle_finish_testsuite ts)
          ≡ ok (testsuite_report (some items) ∷ []))
        × ((d : Display) × (get_ui_test_suite_results tabulate (map sent items) ≡ ok d)
            × (d.level
                ≡ (if any_bad (map entry_of ts.test_descriptions_dict) then red else highlighted)))
  unfolding notify_testsuite_finished get_report handle_finish_testsuite
  finished_suite_color ts k = (
    map entry_of ts.test_descriptions_dict,
    ap (λ s. ok (testsuite_report s.report ∷ [])) (generate_report_complete ts),
    results_known (map entry_of ts.test_descriptions_dict) k,
  )
