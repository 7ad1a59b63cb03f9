-- ===== src/Testsuite/Views/Status.antt =====
-- The detailed status of a suite with well-typed steps.
use ioppytest.Prelude.{
  ◌≡◌, ◌≢◌, refl, ap, ◌∙◌, true, List, [], ◌∷◌, map, Option, none, some, Text, All, values, Result,
  ok,
}
use ioppytest.Step.{Step, StepType, Iut}
use ioppytest.Step.Lifecycle.{IsWellTyped, HasIut}
use ioppytest.Testcase.{Testcase}
use ioppytest.Testsuite.State.{Testsuite}
use ioppytest.Testsuite.Views.{
  StepView, TestcaseView, step_to_dict, steps_to_dict, seq_to_dict, iut_details, testcase_to_dict,
  status_of, if_any, get_detailed_status, view, details_of, IutView,
}

-- The ids of the steps that a listing shows.
abbrev pub shown_ids : List StepView → List Text
shown_ids = map (λ d. d.step_id)

abbrev pub ids : List Step → List Text
ids = map (λ s. s.id)

iut_details_lem :
    (t : StepType) (iut : Option Iut)
    → HasIut t iut
    → (v : Option IutView) × (iut_details t iut ≡ ok v)
unfolding iut_details
iut_details_lem StepType.check iut h = (none, refl)
iut_details_lem StepType.feature iut h = (none, refl)
iut_details_lem StepType.stimuli none h = absurd (h refl)
iut_details_lem StepType.stimuli (some iut) h = (_, refl)
iut_details_lem StepType.verify none h = absurd (h refl)
iut_details_lem StepType.verify (some iut) h = (_, refl)

steps_lem :
    (steps : List Step)
    → All IsWellTyped steps
    → (ds : List StepView) × (steps_to_dict true steps ≡ ok ds) × (shown_ids ds ≡ ids steps)
unfolding steps_to_dict step_to_dict
steps_lem [] h = ([], refl, refl)
steps_lem (s ∷ rest) (h, hs) =
    let (v, e) = iut_details_lem s.type s.iut h.iut in
    let (ds, f, g) = steps_lem rest hs in
    (view s (some (details_of s v)) ∷ ds, rw e (rw f refl), ap (◌∷◌ s.id) g)

-- What the status lists for test cases.
abbrev pub Lists : List Testcase → List TestcaseView × List (List StepView) → Type 0
Lists l (tcs, seqs) =
    (map (λ v. v.testcase_id) tcs ≡ map (λ tc. tc.id) l)
    × (map shown_ids seqs ≡ map (λ tc. ids tc.sequence) l)

status_of_lem :
    (l : List Testcase)
    → All (λ tc. All IsWellTyped tc.sequence) l
    → (p : List TestcaseView × List (List StepView)) × (status_of l ≡ ok p) × Lists l p
unfolding status_of seq_to_dict testcase_to_dict
status_of_lem [] h = (([], []), refl, (refl, refl))
status_of_lem (tc ∷ rest) (h, hs) =
    let (ds, e, f) = steps_lem tc.sequence h in
    let (p, g, q) = status_of_lem rest hs in
    (
      (testcase_to_dict true tc ∷ p.0, ds ∷ p.1),
      rw e (rw g refl),
      (ap (◌∷◌ tc.id) q.0, λ i. f i ∷ q.1 i),
    )

if_any_lem : {A : Type 0} (l : List Testcase) (r : Result A) → l ≢ [] → if_any l r ≡ r
unfolding if_any
if_any_lem [] r h = absurd (h refl)
if_any_lem (tc ∷ rest) r h = refl

-- The detailed status of a suite with test cases, all of whose steps are well typed, is given
-- without an exception, and lists every test case and every step by its id, in their order.
pub get_detailed_status_complete :
    (ts : Testsuite)
    → values ts.test_descriptions_dict ≢ []
    → All (λ tc. All IsWellTyped tc.sequence) (values ts.test_descriptions_dict)
    → (p : List TestcaseView × List (List StepView)) × (get_detailed_status ts ≡ ok p)
      × Lists (values ts.test_descriptions_dict) p
unfolding get_detailed_status
get_detailed_status_complete ts some_testcase h =
    let (p, e, q) = status_of_lem (values ts.test_descriptions_dict) h in
    (p, if_any_lem (values ts.test_descriptions_dict) _ some_testcase ∙ e, q)
