-- ===== src/Testsuite/Stepping/Answers.antt =====
-- What a user's answer leaves in the step that is under way.
use ioppytest.Prelude.{
  Bool, true, false, ◌≡◌, refl, sym, ap, ◌∙◌, ℕ, subst, inl, inr, Option-cases, none, some, Text,
  codes, lookup, lookup-modify_key, text_eq_refl, text_eq, get_elem?-modify_at_self, ok,
}
use ioppytest.Verdict.{Verdict, absorb, severity}
use ioppytest.Step.Lifecycle.{set_result_ok}
use ioppytest.Step
use ioppytest.Step.{Step, StepType, StepState, verify, stimuli, set_result}
use ioppytest.Testcase.{Testcase}
use ioppytest.Testsuite.State.{Testsuite, on_testcase, put, testcase_at, get_current_testcase}
use ioppytest.Testsuite.Stepping.{
  store, store_on, stored, set_current, answer, finish, current_step_of, modify_current,
  get_current_step, may_finish, finish_verify_step, finish_stimuli_step, shown, not_shown,
}

-- What is stored by an answer.
abbrev verdict_of : Bool → Text
verdict_of true = codes "pass"
verdict_of false = codes "fail"

testcase_after_put :
    (k : Text) (ts : Testsuite) (tc tc' : Testcase)
    → ts.current_tc ≡ some k
    → lookup k ts.test_descriptions_dict ≡ some tc
    → get_current_testcase (put k tc' ts) ≡ some tc'
unfolding get_current_testcase testcase_at
testcase_after_put k ts tc tc' cur at =
    subst (λ o. testcase_at o (put k tc' ts) ≡ some tc') (sym cur)
      (rw (lookup-modify_key k k (λ _. tc') ts.test_descriptions_dict, text_eq_refl k, at) refl)

current_step_after_put :
    (k : Text) (ts : Testsuite) (tc tc' : Testcase)
    → ts.current_tc ≡ some k
    → lookup k ts.test_descriptions_dict ≡ some tc
    → get_current_step (put k tc' ts) ≡ current_step_of tc'
unfolding get_current_step
current_step_after_put k ts tc tc' cur at =
    rw (testcase_after_put k ts tc tc' cur at, get_current_step) refl

current_step_modified :
    (tc : Testcase) (s : Step) (f : Step → Step)
    → current_step_of tc ≡ some s
    → current_step_of (modify_current f tc) ≡ some (f s)
unfolding current_step_of
current_step_modified tc s f e = elim (Option-cases tc.current_step) [
  | inl n ↦ let c : none ≡ some s = (rw n at e) in cc
  | inr (i, n) ↦ rw n (get_elem?-modify_at_self tc.sequence i f (rw n at e))
]

-- The verdict of an answer, by its place among the severities, and its info.
abbrev value_of : Bool → ℕ
value_of true = 1
value_of false = 3

abbrev info_of : Bool → Text
info_of true = shown
info_of false = not_shown

severity_known : (b : Bool) → severity (verdict_of b) ≡ some (value_of b)
unfolding severity text_eq
severity_known true = refl
severity_known false = refl

store_lem :
    (result info : Text) (tc : Testcase) (s s' : Step)
    → current_step_of tc ≡ some s
    → set_result result info s ≡ ok s'
    → store result info tc ≡ (ok tt, modify_current (λ _. s') tc)
unfolding store store_on stored set_current
store_lem result info tc s s' e r = rw (e, r) refl

abbrev pub finished : Step → Step
finished = Step.change_state (some StepState.finished)

answer_lem :
    (b : Bool) (tc : Testcase) (s s' : Step)
    → current_step_of tc ≡ some s
    → set_result (verdict_of b) (info_of b) s ≡ ok s'
    → answer b tc ≡ (ok tt, modify_current finished (modify_current (λ _. s') tc))
unfolding answer finish
answer_lem true tc s s' e r = rw (store_lem (codes "pass") shown tc s s' e r) refl
answer_lem false tc s s' e r = rw (store_lem (codes "fail") not_shown tc s s' e r) refl

current_step_known :
    (k : Text) (ts : Testsuite) (tc : Testcase)
    → ts.current_tc ≡ some k
    → lookup k ts.test_descriptions_dict ≡ some tc
    → get_current_step ts ≡ current_step_of tc
unfolding get_current_step get_current_testcase testcase_at
current_step_known k ts tc cur at =
    let e : get_current_testcase ts ≡ some tc =
      subst (λ o. testcase_at o ts ≡ some tc) (sym cur) at in
    rw (e, get_current_step) refl

finish_verify_step_puts :
    (b : Bool) (ts : Testsuite) (k : Text) (tc : Testcase) (s : Step) (v : Verdict)
    → ts.current_tc ≡ some k
    → lookup k ts.test_descriptions_dict ≡ some tc
    → current_step_of tc ≡ some s
    → s.state ≡ some StepState.executing
    → s.type ≡ verify
    → s.partial_verdict ≡ some v
    → finish_verify_step b ts ≡ (
      ok tt,
      put k
          (modify_current finished (
            modify_current
              (λ _. record s { partial_verdict = some (absorb (value_of b) (info_of b) v) })
              tc))
          ts,
    )
unfolding finish_verify_step may_finish on_testcase
finish_verify_step_puts b ts k tc s v cur at cs ex ty pv =
    let g : get_current_step ts ≡ some s = current_step_known k ts tc cur at ∙ cs in
    let r = set_result_ok (verdict_of b) (info_of b) s (rw ty refl) pv (severity_known b) in
    let called : finish_verify_step b ts ≡ on_testcase ts.current_tc (answer b) ts =
      rw (g, may_finish) (rw ex (rw ty refl)) in
    called
    ∙ ap (λ o. on_testcase o (answer b) ts) cur
    ∙ rw (at, on_testcase) (rw (answer_lem b tc s _ cs r) refl)

-- An answer to the verify step under way goes through: it is still the current step, finished,
-- with the verdict `pass` or `fail` taken up into its partial verdict.
pub finish_verify_step_lem :
    (b : Bool) (ts : Testsuite) (k : Text) (tc : Testcase) (s : Step) (v : Verdict)
    → ts.current_tc ≡ some k
    → lookup k ts.test_descriptions_dict ≡ some tc
    → current_step_of tc ≡ some s
    → s.state ≡ some StepState.executing
    → s.type ≡ verify
    → s.partial_verdict ≡ some v
    → ((finish_verify_step b ts).0 ≡ ok tt)
      × (get_current_step (finish_verify_step b ts).1
          ≡ some (record s {
            partial_verdict = some (absorb (value_of b) (info_of b) v);
            state = some StepState.finished;
          }))
unfolding Step.change_state
finish_verify_step_lem b ts k tc s v cur at cs ex ty pv =
    let s' : Step = record s { partial_verdict = some (absorb (value_of b) (info_of b) v) } in
    let tc' = modify_current finished (modify_current (λ _. s') tc) in
    subst (λ r. (r.0 ≡ ok tt) × (get_current_step r.1 ≡ some (finished s')))
      (sym (finish_verify_step_puts b ts k tc s v cur at cs ex ty pv))
      (
        refl,
        current_step_after_put k ts tc tc' cur at
            ∙ current_step_modified (modify_current (λ _. s') tc) s' finished
                (current_step_modified tc s (λ _. s') cs),
      )

-- The stimuli step under way is finished by its answer, and is still the current one.
pub finish_stimuli_step_lem :
    (ts : Testsuite) (k : Text) (tc : Testcase) (s : Step)
    → ts.current_tc ≡ some k
    → lookup k ts.test_descriptions_dict ≡ some tc
    → current_step_of tc ≡ some s
    → s.state ≡ some StepState.executing
    → s.type ≡ stimuli
    → ((finish_stimuli_step ts).0 ≡ ok tt)
      × (get_current_step (finish_stimuli_step ts).1 ≡ some (finished s))
unfolding finish_stimuli_step may_finish on_testcase finish
finish_stimuli_step_lem ts k tc s cur at cs ex ty =
    let g : get_current_step ts ≡ some s = current_step_known k ts tc cur at ∙ cs in
    let called : finish_stimuli_step ts ≡ on_testcase ts.current_tc finish ts =
      rw (g, may_finish) (rw ex (rw ty refl)) in
    let puts : finish_stimuli_step ts ≡ (ok tt, put k (modify_current finished tc) ts) =
      called ∙ ap (λ o. on_testcase o finish ts) cur ∙ rw (at, on_testcase) refl in
    subst (λ r. (r.0 ≡ ok tt) × (get_current_step r.1 ≡ some (finished s))) (sym puts)
      (
        refl,
        current_step_after_put k ts tc (modify_current finished tc) cur at
            ∙ current_step_modified tc s finished cs,
      )
