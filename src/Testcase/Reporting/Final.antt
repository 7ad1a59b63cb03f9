-- ===== src/Testcase/Reporting/Final.antt =====
-- The report of a test case that was run to its end.
use ioppytest.Prelude.{
  ℕ, ◌<◌, ◌≤◌, max, ◌≡◌, refl, ◌∙◌, sym, ap, subst, Option-cases, inl, inr, true, List, [], ◌∷◌,
  ◌++◌, Option, none, some, Text, codes, arith, ok, All,
}
use ioppytest.Verdict.{Verdict, blank, severity, name_at, update_all}
use ioppytest.Verdict.Names.{severity-error, severity-lt, name_at-pass}
use ioppytest.Verdict.Worst.{
  update_known, value-absorb, severities, worst, IsWorst, update_all-IsWorst,
}
use ioppytest.Testcase.State.{PartialVerdict, Report, Testcase, check_all_steps_finished}
use ioppytest.Testcase.Reporting.{
  Tally, tally_tat, analyse, was_run, pass_message, written, generate_testcase_report,
}
use ioppytest.Testcase.Reporting.Verdicts.{
  IsReportable, step_values, tally_steps-Tallies, worst-append, worst-lt, step_values-lt, updates,
  tally_analysis-eq-update_all, report_of_lem,
}

-- The test case was run, and every step of it is done and has a known verdict where it needs one.
pub record CanReport (tc : Testcase) : Type 0 where
  pub run : was_run tc.state ≡ true
  pub done : check_all_steps_finished tc ≡ ok true
  pub steps : All IsReportable tc.sequence

-- The report has the name of value `n` for its verdict, and a pass has the fixed description.
abbrev pub Reports : ℕ → Report → Type 0
Reports n r = (name_at n ≡ ok r.verdict) × (n ≡ 1 → r.description ≡ pass_message)

generate_from_analysis :
    (tat : Option (List PartialVerdict)) (tc : Testcase) (r : Report)
    → CanReport tc
    → analyse tc.sequence tat ≡ ok r
    → generate_testcase_report tat none tc ≡ (ok (written r), record tc { report = some r })
unfolding generate_testcase_report
generate_from_analysis tat tc r h e = ground (arith, h.run, h.done)

analyse-worst :
    (tc : Testcase) (tat : Option (List PartialVerdict)) (n : ℕ)
    → CanReport tc
    → n < 6
    → ((lines : List PartialVerdict) (v : Verdict)
        → v.value ≡ worst 0 (step_values tc.sequence)
        → (t : Tally) × (tally_tat tat (lines, v) ≡ ok t) × (t.1.value ≡ n))
    → (r : Report) × (analyse tc.sequence tat ≡ ok r) × Reports n r
unfolding analyse
analyse-worst tc tat n h b tally =
    let (t, e, f) = tally_steps-Tallies tc.sequence [] blank h.steps in
    let (u, g, k) = tally t.0 t.1 f in
    let (w, name, p, q, a) = report_of_lem u.0 u.1 (rw k b) in
    (
      record { verdict = name; description = w.message; partial_verdicts = u.0 },
      rw (e, g) p,
      (rw k at q, λ x. a.1 (k ∙ x)),
    )

tally_tat_items :
    (item : PartialVerdict) (rest : List PartialVerdict) (ns : List ℕ) (m : ℕ)
    → severities (updates (item ∷ rest)) ≡ some ns
    → (lines : List PartialVerdict) (v : Verdict) → v.value ≡ m
    → (t : Tally) × (tally_tat (some (item ∷ rest)) (lines, v) ≡ ok t) × (t.1.value ≡ worst m ns)
unfolding tally_tat
tally_tat_items item rest ns m e lines v h =
    let (w, f, g) =
      subst (IsWorst v (update_all (updates (item ∷ rest)) v)) e
        (update_all-IsWorst (updates (item ∷ rest)) v) in
    (
      (lines ++ (item ∷ rest), w),
      tally_analysis-eq-update_all (item ∷ rest) lines v ∙ rw f refl,
      g ∙ ap (λ x. worst x ns) h,
    )

severities-lt :
    (l : List (Text × Text)) {ns : List ℕ} → severities l ≡ some ns → All (λ n. n < 6) ns
unfolding severities
severities-lt [] {ns} e = let q : [] ≡ ns = cc e in rw (← q) tt
severities-lt ((name, message) ∷ rest) {ns} e = elim (Option-cases (severity name)) [
  | inl p ↦ cc (rw p at e)
  | inr (n, p) ↦ elim (Option-cases (severities rest)) [
    | inl q ↦ cc (rw (p, q) at e)
    | inr (ms, q) ↦
        let e' : some (n ∷ ms) ≡ some ns = rw (p, q) at e in
        let k : n ∷ ms ≡ ns = cc e' in rw (← k) (severity-lt name p, severities-lt rest q)
  ]
]

values-lt :
    (tc : Testcase) (items : List PartialVerdict) (ns : List ℕ)
    → CanReport tc
    → severities (updates items) ≡ some ns
    → worst 0 (step_values tc.sequence ++ ns) < 6
values-lt tc items ns h e = rw (worst-append 0 (step_values tc.sequence) ns) (
    worst-lt _ 6 ns (worst-lt 0 6 _ (omega arith) (step_values-lt tc.sequence h.steps))
      (severities-lt (updates items) e))

-- With an analysis of known verdicts the report is written, and its verdict is the worst of the
-- verdicts of the finished steps and of the analysis.
pub report_worst :
    (tc : Testcase) (item : PartialVerdict) (rest : List PartialVerdict) (ns : List ℕ)
    → CanReport tc
    → severities (updates (item ∷ rest)) ≡ some ns
    → (r : Report) × (generate_testcase_report (some (item ∷ rest)) none tc
        ≡ (ok (written r), record tc { report = some r }))
      × Reports (worst 0 (step_values tc.sequence ++ ns)) r
report_worst tc item rest ns h e =
    let values = step_values tc.sequence in
    let b = values-lt tc (item ∷ rest) ns h e in
    let (r, f, g) =
      analyse-worst tc (some (item ∷ rest)) (worst (worst 0 values) ns) h
        (rw (worst-append 0 values ns) at b) (tally_tat_items item rest ns (worst 0 values) e) in
    (r, generate_from_analysis (some (item ∷ rest)) tc r h f, rw (worst-append 0 values ns) g)

-- No analysis: the tool returned nothing, or an empty list.
abbrev pub IsMissing : Option (List PartialVerdict) → Type 0
IsMissing none = Unit
IsMissing (some []) = Unit
IsMissing (some (_ ∷ _)) = ⊥

tally_tat_missing :
    (tat : Option (List PartialVerdict)) (m : ℕ)
    → IsMissing tat
    → m < 6
    → (lines : List PartialVerdict) (v : Verdict) → v.value ≡ m
    → (t : Tally) × (tally_tat tat (lines, v) ≡ ok t) × (t.1.value ≡ 5)
unfolding tally_tat
tally_tat_missing (some (x ∷ l)) m h b lines v e = absurd h
tally_tat_missing none m h b lines v e =
    rw (update_known (codes "error") _ v severity-error) (_, refl, value-absorb 5 _ v ∙ omega arith)
tally_tat_missing (some []) m h b lines v e =
    rw (update_known (codes "error") _ v severity-error) (_, refl, value-absorb 5 _ v ∙ omega arith)

-- Without an analysis the report is written with the verdict `error`, whatever the steps say.
pub report_missing :
    (tc : Testcase) (tat : Option (List PartialVerdict))
    → CanReport tc
    → IsMissing tat
    → (r : Report) × (generate_testcase_report tat none tc
        ≡ (ok (written r), record tc { report = some r }))
      × (r.verdict ≡ codes "error")
unfolding name_at
report_missing tc tat h missing =
    let values = step_values tc.sequence in
    let b = worst-lt 0 6 values (omega arith) (step_values-lt tc.sequence h.steps) in
    let (r, f, g) =
      analyse-worst tc tat 5 h (omega arith) (tally_tat_missing tat (worst 0 values) missing b) in
    (r, generate_from_analysis tat tc r h f, cc (g.0))

worst-le : (n b : ℕ) (ns : List ℕ) → worst n ns ≤ b → (n ≤ b) × All (λ m. m ≤ b) ns
worst-le n b [] h = (h, tt)
worst-le n b (m ∷ ns) h =
    let (k, hs) = worst-le (max n m) b ns h in (omega arith, (omega arith, hs))

-- A report says `pass` only if no finished step and no line of the analysis is worse than a pass.
pub report_pass :
    (tc : Testcase) (item : PartialVerdict) (rest : List PartialVerdict) (ns : List ℕ) (r : Report)
    → CanReport tc
    → severities (updates (item ∷ rest)) ≡ some ns
    → (generate_testcase_report (some (item ∷ rest)) none tc).0 ≡ ok (written r)
    → r.verdict ≡ codes "pass"
    → All (λ n. n ≤ 1) (step_values tc.sequence ++ ns) × (r.description ≡ pass_message)
report_pass tc item rest ns r h e written_r pass =
    let (r', f, g) = report_worst tc item rest ns h e in
    let same : ok (written r') ≡ ok (written r) = sym (ap (λ p. p.0) f) ∙ written_r in
    let eq : r' ≡ r = cc same in
    let reports = subst (Reports (worst 0 (step_values tc.sequence ++ ns))) eq g in
    let one = name_at-pass _ (values-lt tc (item ∷ rest) ns h e) (reports.0 ∙ ap ok pass) in
    ((worst-le 0 1 _ (omega (arith, one))).1, reports.1 one)
