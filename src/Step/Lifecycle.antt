-- ===== src/Step/Lifecycle.antt =====
-- What the operations of a step keep and what they change.
use ioppytest.Prelude.{
  ℕ, ◌≡◌, refl, ◌≢◌, inl, inr, true, Option, none, some, Text, arith, ok, Option-cases,
}
use ioppytest.Verdict.{Verdict, absorb, severity}
use ioppytest.Verdict.Worst.{update_known}
use ioppytest.Step
use ioppytest.Step.{
  Step, StepType, stimuli, check, verify, feature, StepState, postponed, has_verdict, init, build,
  change_state, reinit, set_result, is_known, parse_type, new_iut,
}

-- Stimuli steps alone carry no verdict; stimuli and verify steps alone carry an IUT.
abbrev pub HasVerdict : StepType → Option Verdict → Type 0
HasVerdict stimuli v = v ≡ none
HasVerdict _ v = v ≢ none

abbrev pub HasIut : StepType → Option Step.Iut → Type 0
HasIut check i = i ≡ none
HasIut feature i = i ≡ none
HasIut _ i = i ≢ none

pub record IsWellTyped (s : Step) : Type 0 where
  pub verdict : HasVerdict s.type s.partial_verdict
  pub iut : HasIut s.type s.iut

build-IsWellTyped :
    (step_id info : Text) (t : StepType) (node : Option Text) {s : Step}
    → build step_id info t node ≡ ok s
    → IsWellTyped s
unfolding build new_iut
build-IsWellTyped step_id info t iut_node h = ground arith

-- A step that `__init__` builds is well typed.
pub init-IsWellTyped :
    (step_id type info : Text) (node : Option Text) {s : Step}
    → init step_id type info node ≡ ok s
    → IsWellTyped s
unfolding init
init-IsWellTyped step_id type info node h = elim (Option-cases (parse_type type)) [
  | inl e ↦ let k = rw (e, init) at h in cc k
  | inr (t, e) ↦ build-IsWellTyped step_id info t node (rw (e, init) at h)
]

pub reinit-IsWellTyped : (s : Step) → IsWellTyped s → IsWellTyped (reinit s)
unfolding reinit
reinit-IsWellTyped s h = ground arith

-- A well-typed step stays so when a result is stored in it.
pub set_result-IsWellTyped :
    (result info : Text) (s : Step) {s' : Step}
    → IsWellTyped s
    → set_result result info s ≡ ok s'
    → IsWellTyped s'
unfolding set_result
set_result-IsWellTyped result info s h e = ground arith

-- A step with a verdict takes any known result.
pub set_result_ok :
    (result info : Text) (s : Step) {n : ℕ} {v : Verdict}
    → has_verdict s.type ≡ true
    → s.partial_verdict ≡ some v
    → severity result ≡ some n
    → set_result result info s ≡ ok (record s { partial_verdict = some (absorb n info v) })
unfolding set_result
set_result_ok result info s {v = v} t p e =
    rw t (rw (e, is_known) (rw p (rw (update_known result info v e) refl)))
