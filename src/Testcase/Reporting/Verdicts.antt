-- ===== src/Testcase/Reporting/Verdicts.antt =====
-- The verdict of a report is the worst of the verdicts that went into it.
use mathlib.Core.List.{append-nil, append_assoc}
use ioppytest.Prelude.Calls.{◌>>=◌}
use ioppytest.Prelude.{
  ℕ, ◌<◌, max, ◌≡◌, refl, ◌≢◌, ◌∙◌, sym, ap, inl, inr, Bool, true, false, Bool-cases, List, [], ◌∷◌,
  ◌++◌, map, Option, none, some, Text, codes, text_eq, arith, Result, ok, All, Result-cases,
}
use ioppytest.Verdict
use ioppytest.Verdict.{
  Verdict, blank, absorb, severity, index_of, get_value, name_at, get_message, update_all,
}
use ioppytest.Verdict.Names.{get_value_ok, get_value-pass_iff, severity-pass}
use ioppytest.Verdict.Worst.{update_known, value-absorb, worst}
use ioppytest.Step.{Step, StepState, has_verdict}
use ioppytest.Testcase.State.{PartialVerdict}
use ioppytest.Testcase.Reporting.{
  Tally, tally_finished, tally_as, tally_step, tally_steps, tally_analysis, pass_message,
  overwrite_pass, report_of,
}

-- What a report asks of a step: one with a verdict is postponed, or finished with a known value.
abbrev pub ReportableAs : Bool → Option StepState → Option Verdict → Type 0
ReportableAs false st v = Unit
ReportableAs true (some StepState.postponed) v = Unit
ReportableAs true (some StepState.finished) (some v) = v.value < 6
ReportableAs true _ _ = ⊥

abbrev pub IsReportable : Step → Type 0
IsReportable s = ReportableAs (has_verdict s.type) s.state s.partial_verdict

-- The values that go into the report: those of the finished steps that have a verdict.
abbrev pub value_as : Bool → Option StepState → Option Verdict → List ℕ
value_as true (some StepState.finished) (some v) = v.value ∷ []
value_as _ _ _ = []

abbrev pub step_values : List Step → List ℕ
step_values [] = []
step_values (s ∷ rest) = value_as (has_verdict s.type) s.state s.partial_verdict ++ step_values rest

-- Updating by the name of a known verdict is absorbing its value.
tally_finished_lem :
    (step_id : Text) (v : Verdict) (lines : List PartialVerdict) (w : Verdict)
    → v.value < 6
    → (t : Tally) × (tally_finished step_id v (lines, w) ≡ ok t) × (t.1.value ≡ max w.value v.value)
unfolding tally_finished
tally_finished_lem step_id v lines w h =
    let (name, e, f) = get_value_ok v h in
    rw (e, update_known name (get_message v) w f) (_, refl, value-absorb v.value (get_message v) w)

-- A call on a tally that ends with the worst of the values.
abbrev pub Tallies : Verdict → List ℕ → Result Tally → Type 0
Tallies v ns r = (t : Tally) × (r ≡ ok t) × (t.1.value ≡ worst v.value ns)

tally_as-Tallies :
    (b : Bool) (st : Option StepState) (pv : Option Verdict) (step_id : Text)
    (lines : List PartialVerdict) (w : Verdict)
    → ReportableAs b st pv
    → Tallies w (value_as b st pv) (tally_as b st pv step_id (lines, w))
unfolding tally_as
tally_as-Tallies false st pv step_id lines w h = ((lines, w), refl, refl)
tally_as-Tallies true (some StepState.postponed) pv step_id lines w h = ((lines, w), refl, refl)
tally_as-Tallies true (some StepState.finished) (some v) step_id lines w h =
    tally_finished_lem step_id v lines w h
tally_as-Tallies true (some StepState.finished) none step_id lines w h = absurd h
tally_as-Tallies true none pv step_id lines w h = absurd h
tally_as-Tallies true (some StepState.executing) pv step_id lines w h = absurd h
tally_as-Tallies true (some StepState.aborted) pv step_id lines w h = absurd h

pub worst-append : (n : ℕ) (ns ms : List ℕ) → worst n (ns ++ ms) ≡ worst (worst n ns) ms
worst-append n [] ms = refl
worst-append n (m ∷ ns) ms = worst-append (max n m) ns ms

pub tally_steps-Tallies :
    (steps : List Step) (lines : List PartialVerdict) (w : Verdict)
    → All IsReportable steps
    → Tallies w (step_values steps) (tally_steps steps (lines, w))
unfolding tally_steps tally_step
tally_steps-Tallies [] lines w h = ((lines, w), refl, refl)
tally_steps-Tallies (s ∷ rest) lines w (h, hs) =
    let (t, e, f) =
      tally_as-Tallies (has_verdict s.type) s.state s.partial_verdict s.id lines w h in
    let (u, e', f') = tally_steps-Tallies rest t.0 t.1 hs in
    (
      u,
      rw e e',
      f'
          ∙ ap (λ x. worst x (step_values rest)) f
          ∙ sym (
              worst-append w.value (value_as (has_verdict s.type) s.state s.partial_verdict)
                (step_values rest)),
    )

-- The names and messages of the analysis, as updates.
abbrev pub updates : List PartialVerdict → List (Text × Text)
updates = map (λ item. (item.verdict, item.info))

pub tally_analysis-eq-update_all :
    (items : List PartialVerdict) (lines : List PartialVerdict) (w : Verdict)
    → tally_analysis items (lines, w)
      ≡ (update_all (updates items) w >>= λ v. ok (lines ++ items, v))
unfolding tally_analysis update_all
tally_analysis-eq-update_all [] lines w = rw (append-nil lines)
tally_analysis-eq-update_all (item ∷ rest) lines w =
    elim (Result-cases (Verdict.update item.verdict item.info w)) [
      | inl (v, e) ↦ rw e (
          tally_analysis-eq-update_all rest (lines ++ (item ∷ [])) v
          ∙ rw (append_assoc lines (item ∷ []) rest) refl)
      | inr (x, e) ↦ rw e refl
    ]

absorb_pass :
    (v : Verdict)
    → v.value ≡ 1
    → absorb 1 pass_message v ≡ record { value = 1; message = pass_message }
unfolding absorb
absorb_pass v h = ground arith

-- What the report says of a final verdict: its value, and the fixed message for a pass.
abbrev pub Announces : Verdict → Verdict → Type 0
Announces v w =
    (w.value ≡ v.value) × (v.value ≡ 1 → w.message ≡ pass_message) × (v.value ≢ 1 → w ≡ v)

overwrite_pass_lem :
    (v : Verdict) → v.value < 6 → (w : Verdict) × (overwrite_pass v ≡ ok w) × Announces v w
unfolding overwrite_pass
overwrite_pass_lem v h =
    let (name, e, f) = get_value_ok v h in
    let iff = get_value-pass_iff v name e f in
    elim (Bool-cases (text_eq name (codes "pass"))) [
      | inl t ↦ (
        record { value = 1; message = pass_message },
        rw (e, t)
            (update_known (codes "pass") pass_message v severity-pass
              ∙ rw (absorb_pass v (iff.0 t)) refl),
        (sym (iff.0 t), (λ _. refl), (λ n. absurd (n (iff.0 t)))),
      )
      | inr t ↦ (v, rw (e, t) refl, (refl, (λ p. cc (iff.1 p, t)), (λ _. refl)))
    ]

pub report_of_lem :
    (lines : List PartialVerdict) (v : Verdict)
    → v.value < 6
    → (w : Verdict) × (name : Text) × (report_of (lines, v)
        ≡ ok (record { verdict = name; description = w.message; partial_verdicts = lines }))
      × (name_at v.value ≡ ok name)
      × Announces v w
unfolding report_of get_message get_value
report_of_lem lines v h =
    let (w, e, a) = overwrite_pass_lem v h in
    let (name, f, g) = get_value_ok w (rw (a.0) h) in (w, name, rw (e, f) refl, rw (a.0) at f, a)

pub worst-lt : (n b : ℕ) (ns : List ℕ) → n < b → All (λ m. m < b) ns → worst n ns < b
worst-lt n b [] h hs = h
worst-lt n b (m ∷ ns) h (k, hs) = worst-lt (max n m) b ns (omega arith) hs

value_as-lt :
    (b : Bool) (st : Option StepState) (pv : Option Verdict) (rest : List ℕ)
    → ReportableAs b st pv
    → All (λ m. m < 6) rest
    → All (λ m. m < 6) (value_as b st pv ++ rest)
value_as-lt false st pv rest k hs = hs
value_as-lt true none pv rest k hs = absurd k
value_as-lt true (some StepState.postponed) pv rest k hs = hs
value_as-lt true (some StepState.finished) none rest k hs = absurd k
value_as-lt true (some StepState.finished) (some v) rest k hs = (k, hs)
value_as-lt true (some StepState.executing) pv rest k hs = absurd k
value_as-lt true (some StepState.aborted) pv rest k hs = absurd k

pub step_values-lt :
    (steps : List Step) → All IsReportable steps → All (λ m. m < 6) (step_values steps)
step_values-lt [] h = tt
step_values-lt (s ∷ rest) (h, hs) =
    value_as-lt (has_verdict s.type) s.state s.partial_verdict (step_values rest) h
      (step_values-lt rest hs)
