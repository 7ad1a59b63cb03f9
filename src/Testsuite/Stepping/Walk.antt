-- ===== src/Testsuite/Stepping/Walk.antt =====
-- A test case that is walked through: `next_step`, then the step is finished, again and again
-- until `next_step` answers `None`, as the coordinator drives it.
use ioppytest.Prelude.{
  ℕ, zero, suc, ◌+◌, ◌≤◌, ◌<◌, ◌≡◌, refl, ◌∙◌, ap, sym, Bool, true, false, not, List, [], ◌∷◌,
  Option, none, some, Text, map, length, length-map, Bool-cases, inl, inr, arith, get_elem?,
  modify_at, drop, get_elem?-drop, nil_of_length, length-map, drop-drop, drop-modify_at,
  length-drop-suc, filter_by, Result, ok, raised,
}
use ioppytest.Step
use ioppytest.Step.{Step, StepType, stimuli, check, verify, feature, StepState}
use ioppytest.Testcase
use ioppytest.Testcase.{Testcase}
use ioppytest.Testsuite.Stepping.{is_postponed, take_step, finish}
use ioppytest.Testsuite.Stepping.Progress.{first_due, Takes, take_step-Takes}

abbrev walk_rest : (Testcase → List Text) → Result (Option Step) × Testcase → List Text
walk_rest go (ok (some s), tc) = s.id ∷ go (finish tc).1
walk_rest go (ok none, tc) = []
walk_rest go (raised _, tc) = []

-- The ids of the steps that are executed, in their order; the fuel bounds the rounds.
unfoldable pub walk : ℕ → Testcase → List Text
walk zero tc = []
walk (suc fuel) tc = walk_rest (walk fuel) (take_step tc)

abbrev is_due : Step → Bool
is_due s = not (is_postponed s.state)

abbrev due_ids : List Step → List Text
due_ids steps = map (λ s. s.id) (filter_by is_due steps)

due_none : (steps : List Step) (i : ℕ) → first_due steps i ≡ none → due_ids steps ≡ []
due_none [] i h = refl
due_none (s ∷ rest) i h = elim (Bool-cases (is_postponed s.state)) [
  | inl p ↦ rw p (due_none rest (suc i) (rw p at h))
  | inr p ↦ cc (rw p at h)
]

due_some :
    (steps : List Step) (i j : ℕ)
    → first_due steps i ≡ some j
    → (m : ℕ) × (s : Step) × (j ≡ i + m)
      × (get_elem? steps m ≡ some s)
      × (due_ids steps ≡ s.id ∷ due_ids (drop (suc m) steps))
due_some [] i j h = cc h
due_some (s ∷ rest) i j h = elim (Bool-cases (is_postponed s.state)) [
  | inl p ↦
      let (m, t, e, f, g) = due_some rest (suc i) j (rw p at h) in
      (suc m, t, omega (arith, e), f, rw p g)
  | inr p ↦
      let k : some i ≡ some j = rw p at h in
      let e : i ≡ j = cc k in (0, s, omega (arith, e), refl, rw p refl)
]

-- Finishing the step that was taken leaves the steps behind the iterator alone.
after_finish :
    (tc : Testcase) (j : ℕ) (f : Step → Step)
    → let tc' =
        (finish (record tc {
          step_it = suc j;
          current_step = some j;
          sequence = modify_at tc.sequence j f;
        })).1 in
      drop tc'.step_it tc'.sequence ≡ drop (suc j) tc.sequence
unfolding finish
after_finish tc j f =
    drop-modify_at (modify_at tc.sequence j f) j _ ∙ drop-modify_at tc.sequence j f

-- The test case once its step `j` was taken.
abbrev taken : Testcase → ℕ → Testcase
taken tc j = record tc {
  step_it = suc j;
  current_step = some j;
  sequence = modify_at tc.sequence j (Step.change_state (some StepState.executing));
}

abbrev id_of : Option Step → Text
id_of none = []
id_of (some s) = s.id

walk_taken :
    (go : Testcase → List Text) (tc : Testcase) (o : Option ℕ)
    → first_due (drop tc.step_it tc.sequence) tc.step_it ≡ o
    → Takes tc (take_step tc) o
    → ((tc' : Testcase)
        → length (drop tc'.step_it tc'.sequence) < length (drop tc.step_it tc.sequence)
        → go tc' ≡ due_ids (drop tc'.step_it tc'.sequence))
    → walk_rest go (take_step tc) ≡ due_ids (drop tc.step_it tc.sequence)
unfolding Step.change_state
walk_taken go tc none h (e, f) ih =
    let p : take_step tc ≡ (ok none, (take_step tc).1) = λ i. (e i, (take_step tc).1) in
    ap (walk_rest go) p ∙ sym (due_none (drop tc.step_it tc.sequence) tc.step_it h)
walk_taken go tc (some j) h (s, get, due, e, f) ih =
    let left = drop tc.step_it tc.sequence in
    let (m, t, q, g, d) = due_some left tc.step_it j h in
    let n : tc.step_it + suc m ≡ suc j = omega (arith, q) in
    let behind : drop (suc m) left ≡ drop (suc j) tc.sequence =
      drop-drop (suc m) tc.step_it tc.sequence ∙ ap (λ k. drop k tc.sequence) n in
    let same : some t ≡ some s =
      sym g ∙ get_elem?-drop tc.step_it tc.sequence m ∙ ap (get_elem? tc.sequence) (sym q) ∙ get in
    let id_eq : t.id ≡ s.id = ap id_of same in
    let tc' = (finish (taken tc j)).1 in
    let rest = after_finish tc j (Step.change_state (some StepState.executing)) ∙ sym behind in
    let step : take_step tc
        ≡ (ok (some (Step.change_state (some StepState.executing) s)), taken tc j) =
      λ i. (e i, f i) in
    ap (walk_rest go) step
    ∙ ap (◌∷◌ s.id) (ih tc' (rw rest (length-drop-suc m left g)) ∙ ap due_ids rest)
    ∙ sym (d ∙ ap (λ x. x ∷ due_ids (drop (suc m) left)) id_eq)

-- The walk visits exactly the steps behind the iterator that are not postponed, in their order.
walk_due :
    (fuel : ℕ) (tc : Testcase)
    → length (drop tc.step_it tc.sequence) ≤ fuel
    → walk fuel tc ≡ due_ids (drop tc.step_it tc.sequence)
unfolding walk
walk_due zero tc h = sym (ap due_ids (nil_of_length (drop tc.step_it tc.sequence) (omega arith)))
walk_due (suc fuel) tc h =
    walk_taken (walk fuel) tc _ refl (take_step-Takes tc) (λ tc' k. walk_due fuel tc' (omega arith))

-- The steps that a user is asked to execute.
abbrev pub is_asked : StepType → Bool
is_asked stimuli = true
is_asked verify = true
is_asked _ = false

reinit_due : (s : Step) → (is_due (Step.reinit s) ≡ is_asked s.type) × ((Step.reinit s).id ≡ s.id)
unfolding Step.reinit
reinit_due s = ground arith

due_ids-reinit :
    (steps : List Step)
    → due_ids (map Step.reinit steps) ≡ map (λ s. s.id) (filter_by (λ s. is_asked s.type) steps)
due_ids-reinit [] = refl
due_ids-reinit (s ∷ rest) = elim (Bool-cases (is_asked s.type)) [
  | inl a ↦ rw (reinit_due s).0 (rw a (rw (reinit_due s).1 (ap (◌∷◌ s.id) (due_ids-reinit rest))))
  | inr a ↦ rw (reinit_due s).0 (rw a (due_ids-reinit rest))
]

-- A test case that was re-initialised is walked through in at most as many rounds as it has steps:
-- the stimuli and verify steps are executed, each once and in their order, and no other.
pub walk-reinit :
    (fuel : ℕ) (tc : Testcase)
    → length tc.sequence ≤ fuel
    → walk fuel (Testcase.reinit tc)
      ≡ map (λ s. s.id) (filter_by (λ s. is_asked s.type) tc.sequence)
walk-reinit fuel tc h =
    walk_due fuel (Testcase.reinit tc)
      (unfold Testcase.reinit in omega (arith, length-map Step.reinit tc.sequence))
    ∙ unfold Testcase.reinit in due_ids-reinit tc.sequence
