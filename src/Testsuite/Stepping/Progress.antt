-- ===== src/Testsuite/Stepping/Progress.antt =====
-- What a round of `next_step` does to the current test case.
use ioppytest.Prelude.{
  ℕ, suc, ◌+◌, ◌≤◌, ◌≡◌, refl, true, false, List, [], ◌∷◌, Option, none, some, Bool-cases, inl, inr,
  arith, ap, sym, subst, ◌∙◌, get_elem?, get_elem?-drop, get_elem?-modify_at_self, modify_at, drop,
  length, if◌then◌else◌, Result, ok,
}
use ioppytest.Step
use ioppytest.Step.{Step, StepState}
use ioppytest.Testcase.{Testcase}
use ioppytest.Testsuite.Stepping.{
  is_postponed, Advance, advance, take_step, settle, current_step_of,
}

-- The first step, from a position on, that is not postponed.
abbrev pub first_due : List Step → ℕ → Option ℕ
first_due [] i = none
first_due (s ∷ rest) i = if is_postponed s.state then first_due rest (suc i) else some i

-- The last step of those that are left, or the current one if none is left.
abbrev pub last_left : List Step → ℕ → Option ℕ → Option ℕ
last_left [] i cur = cur
last_left (s ∷ rest) i cur = some (i + length rest)

-- Where the iterator stands after a round: behind the step found, or at the end, with the last of
-- the steps that are left as the current one.
abbrev pub Finds : Advance → List Step → ℕ → Option ℕ → Option ℕ → Type 0
Finds a steps i cur none =
    (a.found ≡ false) × (a.step_it ≡ i + length steps) × (a.current_step ≡ last_left steps i cur)
Finds a steps i cur (some j) =
    (a.found ≡ true) × (a.step_it ≡ suc j) × (a.current_step ≡ some j) × (i ≤ j)

last_of_rest : (rest : List Step) (i : ℕ) → last_left rest (suc i) (some i) ≡ some (i + length rest)
last_of_rest [] i = ap some (omega arith)
last_of_rest (s ∷ rest) i = ap some (omega arith)

Finds-weaken :
    (a : Advance) (s : Step) (rest : List Step) (i : ℕ) (cur o : Option ℕ)
    → Finds a rest (suc i) (some i) o
    → Finds a (s ∷ rest) i cur o
Finds-weaken a s rest i cur none (f, g, k) = (f, omega (arith, g), k ∙ last_of_rest rest i)
Finds-weaken a s rest i cur (some j) (f, g, k, l) = (f, g, k, omega arith)

advance-Finds :
    (steps : List Step) (i : ℕ) (cur : Option ℕ)
    → Finds (advance steps i cur) steps i cur (first_due steps i)
unfolding advance
advance-Finds [] i cur = (refl, omega arith, refl)
advance-Finds (s ∷ rest) i cur = elim (Bool-cases (is_postponed s.state)) [
  | inl p ↦
      rw p
        (Finds-weaken _ s rest i cur (first_due rest (suc i)) (advance-Finds rest (suc i) (some i)))
  | inr p ↦ rw p (refl, refl, refl, omega arith)
]

pub first_due_offset :
    (steps : List Step) (i j : ℕ)
    → first_due steps i ≡ some j
    → (m : ℕ) × (s : Step) × (j ≡ i + m)
      × (get_elem? steps m ≡ some s)
      × (is_postponed s.state ≡ false)
first_due_offset [] i j h = cc h
first_due_offset (s ∷ rest) i j h = elim (Bool-cases (is_postponed s.state)) [
  | inl p ↦
      let (m, t, e, f, g) = first_due_offset rest (suc i) j (rw p at h) in
      (suc m, t, omega (arith, e), f, g)
  | inr p ↦
      let k : some i ≡ some j = rw p at h in
      let e : i ≡ j = cc k in (0, s, omega (arith, e), refl, p)
]

-- The step that is found stands at that position of the sequence, and is not postponed.
first_due-get_elem? :
    (steps : List Step) (i j : ℕ)
    → first_due (drop i steps) i ≡ some j
    → (s : Step) × (get_elem? steps j ≡ some s) × (is_postponed s.state ≡ false) × (i ≤ j)
first_due-get_elem? steps i j h =
    let (m, s, e, f, g) = first_due_offset (drop i steps) i j h in
    (s, ap (get_elem? steps) e ∙ sym (get_elem?-drop i steps m) ∙ f, g, omega (arith, e))

-- What a round of `next_step` leaves behind, by the position of the step that is due.
abbrev pub Takes : Testcase → Result (Option Step) × Testcase → Option ℕ → Type 0
Takes tc p none =
    let left = drop tc.step_it tc.sequence in
    (p.0 ≡ ok none)
    × (p.1 ≡ record tc {
      step_it = tc.step_it + length left;
      current_step = last_left left tc.step_it tc.current_step;
    })
Takes tc p (some j) =
    (s : Step) × (get_elem? tc.sequence j ≡ some s)
    × (is_postponed s.state ≡ false)
    × (p.0 ≡ ok (some (Step.change_state (some StepState.executing) s)))
    × (p.1 ≡ record tc {
      step_it = suc j;
      current_step = some j;
      sequence = modify_at tc.sequence j (Step.change_state (some StepState.executing));
    })

settle-Takes :
    (tc : Testcase) (a : Advance) (o : Option ℕ)
    → first_due (drop tc.step_it tc.sequence) tc.step_it ≡ o
    → Finds a (drop tc.step_it tc.sequence) tc.step_it tc.current_step o
    → Takes tc (settle tc a) o
unfolding settle current_step_of
settle-Takes tc a none e (f, g, k) =
    let left = drop tc.step_it tc.sequence in
    let q : a ≡ record {
      found = false;
      step_it = tc.step_it + length left;
      current_step = last_left left tc.step_it tc.current_step;
    } =
      λ x. record { found = f x; step_it = g x; current_step = k x } in
    subst (λ x. Takes tc (settle tc x) none) (sym q) (refl, refl)
settle-Takes tc a (some j) e (f, g, k, l) =
    let (s, h, p, q) = first_due-get_elem? tc.sequence tc.step_it j e in
    let q : a ≡ record { found = true; step_it = suc j; current_step = some j } =
      λ x. record { found = f x; step_it = g x; current_step = k x } in
    subst (λ x. Takes tc (settle tc x) (some j)) (sym q)
      (
        s,
        h,
        p,
        ap ok (
            get_elem?-modify_at_self tc.sequence j (Step.change_state (some StepState.executing))
              h),
        refl,
      )

-- A round of `next_step` takes the first step behind the iterator that is not postponed: the step
-- is executing and current, the iterator stands behind it, and nothing else has changed. If all
-- that are left are postponed it returns `None`; then the iterator stands at the end, the last of
-- those that are left is the current one, or the same as before if none is left, and nothing else
-- has changed.
pub take_step-Takes :
    (tc : Testcase) → Takes tc (take_step tc) (first_due (drop tc.step_it tc.sequence) tc.step_it)
unfolding take_step
take_step-Takes tc =
    settle-Takes tc (advance (drop tc.step_it tc.sequence) tc.step_it tc.current_step) _ refl
      (advance-Finds (drop tc.step_it tc.sequence) tc.step_it tc.current_step)
