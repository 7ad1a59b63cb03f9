-- ===== src/Testcase/Lifecycle.antt =====
-- Re-initialising, skipping and aborting a test case.
use ioppytest.Prelude.{
  ℕ, ◌≤◌, ◌≡◌, refl, true, List, [], ◌∷◌, map, Option, none, some, arith, ok, All, Bool-cases,
  Option-cases, inl, inr,
}
use ioppytest.Verdict.{Verdict, absorb}
use ioppytest.Verdict.Names.{severity-aborted}
use ioppytest.Verdict.Worst.{value-absorb}
use ioppytest.Step
use ioppytest.Step.{
  Step, StepType, stimuli, check, verify, feature, StepState, has_verdict, set_result,
}
use ioppytest.Step.Lifecycle.{HasVerdict, IsWellTyped, set_result_ok}
use ioppytest.Testcase.State.{TcState, Testcase, abort_step, for_steps, abort, change_state, reinit}

abbrev pub verdict_of : Step → ℕ
verdict_of s = elim s.partial_verdict [ none ↦ 0 | some v ↦ v.value ]

-- What `abort` does to a step: it is aborted, and its verdict, if it has one, is at least that.
abbrev pub IsAborted : Step → Type 0
IsAborted s = (s.state ≡ some StepState.aborted) × (has_verdict s.type ≡ true → 4 ≤ verdict_of s)

no_verdict :
    (t : StepType) (v : Option Verdict) → HasVerdict t v → has_verdict t ≡ true → v ≡ none → ⊥
no_verdict stimuli v h t e = cc t
no_verdict check v h t e = h e
no_verdict verify v h t e = h e
no_verdict feature v h t e = h e

reinit_overwrites :
    (s : Step) (st : Option StepState) (v w : Verdict)
    → has_verdict s.type ≡ true
    → Step.reinit (record s { state = st; partial_verdict = some v }) ≡ Step.reinit s
unfolding Step.reinit
reinit_overwrites s st v w t = ground arith

reinit_overwrites_state :
    (s : Step) (st : Option StepState) → Step.reinit (record s { state = st }) ≡ Step.reinit s
unfolding Step.reinit
reinit_overwrites_state s st = ground arith

abort_step_lem :
    (s : Step)
    → IsWellTyped s
    → (s' : Step) × (abort_step s ≡ ok s') × IsAborted s' × (Step.reinit s' ≡ Step.reinit s)
unfolding abort_step Step.change_state
abort_step_lem s h = elim (Bool-cases (has_verdict s.type)) [
  | inl t ↦ elim (Option-cases s.partial_verdict) [
    | inl e ↦ absurd (no_verdict s.type s.partial_verdict h.verdict t e)
    | inr (v, e) ↦
        rw (t, set_result_ok _ _ s t e severity-aborted)
          (
            _,
            refl,
            (refl, (λ _. rw (value-absorb 4 _ v) (omega arith))),
            reinit_overwrites s (some StepState.aborted) (absorb 4 _ v) v t,
          )
  ]
  | inr t ↦
      rw t (_, refl, (refl, (λ k. cc (t, k))), reinit_overwrites_state s (some StepState.aborted))
]

for_steps-abort :
    (steps : List Step)
    → All IsWellTyped steps
    → (steps' : List Step) × (for_steps abort_step steps ≡ (ok tt, steps'))
      × All IsAborted steps'
      × (map Step.reinit steps' ≡ map Step.reinit steps)
unfolding for_steps
for_steps-abort [] h = ([], refl, tt, refl)
for_steps-abort (s ∷ rest) (h, hs) =
    let (s', e, a, k) = abort_step_lem s h in
    let (rest', f, b, m) = for_steps-abort rest hs in
    (s' ∷ rest', rw (e, for_steps) (rw f refl), (a, b), rw (k, m) refl)

-- Aborting a test case with well-typed steps never raises. Every step is aborted, with a verdict
-- of at least `aborted` where it has one, no step is current, and nothing of it survives a
-- re-initialisation.
pub abort_lem :
    (tc : Testcase)
    → All IsWellTyped tc.sequence
    → (tc' : Testcase) × (abort tc ≡ (ok tt, tc'))
      × (tc'.state ≡ some TcState.aborted)
      × (tc'.current_step ≡ none)
      × All IsAborted tc'.sequence
      × (reinit tc' ≡ reinit tc)
unfolding abort reinit change_state
abort_lem tc h =
    let (steps', e, a, m) = for_steps-abort tc.sequence h in
    let tc' = record tc { sequence = steps'; state = some TcState.aborted; current_step = none } in
    (tc', rw e refl, refl, refl, a, rw m refl)
