-- ===== src/Testsuite/Stepping.antt =====
-- `next_step`, and the three methods that finish a step.
pub mod Progress
pub mod Answers
pub mod Walk
use ioppytest.Prelude.Actions
use ioppytest.Prelude.Actions.{Action, ◌>>=◌, ◌>>◌}
use ioppytest.Prelude.{
  ℕ, suc, Bool, true, false, List, [], ◌∷◌, Option, none, some, Text, codes, get_elem?, modify_at,
  drop, if◌then◌else◌, Result, ok, raised, attribute_error, type_error,
}
use ioppytest.Step
use ioppytest.Step.{Step, StepType, stimuli, check, verify, StepState, set_result}
use ioppytest.Testcase.{Testcase}
use ioppytest.Testsuite.State.{Testsuite, on_testcase, get_current_testcase}

abbrev pub is_postponed : Option StepState → Bool
is_postponed (some StepState.postponed) = true
is_postponed _ = false

-- Where the iterator and `current_step` stand, and whether a step was found.
pub record Advance : Type 0 where
  pub found : Bool
  pub step_it : ℕ
  pub current_step : Option ℕ

-- `next(_step_it)`, past the postponed steps, on the steps that the iterator has left. At
-- `StopIteration` `current_step` is the last step that was taken.
unfoldable pub advance : List Step → ℕ → Option ℕ → Advance
advance [] step_it current_step = record {
  found = false;
  step_it = step_it;
  current_step = current_step;
}
advance (s ∷ rest) step_it current_step =
    let later = advance rest (suc step_it) (some step_it) in
    if is_postponed s.state
    then later
    else record { found = true; step_it = suc step_it; current_step = some step_it }

-- `self.current_tc.current_step.change_state(...)`, and other changes of that step.
abbrev pub modify_current : (Step → Step) → Testcase → Testcase
modify_current f tc = elim tc.current_step [
  | none ↦ tc
  | some i ↦ record tc { sequence = modify_at tc.sequence i f }
]

unfoldable pub current_step_of : Testcase → Option Step
current_step_of tc = elim tc.current_step [ none ↦ none | some i ↦ get_elem? tc.sequence i ]

settle : Testcase → Advance → Result (Option Step) × Testcase
unfolding current_step_of
settle tc a =
    let tc' = record tc { step_it = a.step_it; current_step = a.current_step } in
    let executing = modify_current (Step.change_state (some StepState.executing)) tc' in
    if a.found then (ok (current_step_of executing), executing) else (ok none, tc')

-- The body of `next_step`, on the current test case.
unfoldable pub take_step : Action Testcase (Option Step)
unfolding settle
take_step tc = settle tc (advance (drop tc.step_it tc.sequence) tc.step_it tc.current_step)

unfoldable pub next_step : Action Testsuite (Option Step)
next_step ts = elim ts.current_tc [
  | none ↦ (ok none, ts)
  | some k ↦ on_testcase (some k) take_step ts
]

-- `get_current_step`, `get_current_step_state`: an exception on the way is `None`.
unfoldable pub get_current_step : Testsuite → Option Step
unfolding current_step_of
get_current_step ts = elim (get_current_testcase ts) [ none ↦ none | some tc ↦ current_step_of tc ]

unfoldable pub get_current_step_state : Testsuite → Option StepState
get_current_step_state ts = elim (get_current_step ts) [ none ↦ none | some s ↦ s.state ]

abbrev pub is_executing : Option StepState → Bool
is_executing (some StepState.executing) = true
is_executing _ = false

abbrev pub same_type : StepType → StepType → Bool
same_type stimuli stimuli = true
same_type check check = true
same_type verify verify = true
same_type StepType.feature StepType.feature = true
same_type _ _ = false

-- The two guards of the `finish_*_step` methods: outside them a method warns and returns.
unfoldable pub may_finish : StepType → Testsuite → Bool
may_finish type ts = elim (get_current_step ts) [
  | none ↦ false
  | some s ↦ if is_executing s.state then same_type s.type type else false
]

set_current : Step → Action Testcase (Unit {0})
set_current s tc = (ok tt, modify_current (λ _. s) tc)

-- `current_step.set_result(...)`
stored : Result Step → Action Testcase (Unit {0})
unfolding set_current
stored (raised e) tc = (raised e, tc)
stored (ok s) tc = set_current s tc

store_on : Text → Text → Option Step → Action Testcase (Unit {0})
unfolding stored
store_on result info none tc = (raised attribute_error, tc)
store_on result info (some s) tc = stored (set_result result info s) tc

store : Text → Text → Action Testcase (Unit {0})
unfolding store_on
store result info tc = store_on result info (current_step_of tc) tc

-- `current_step.change_state('finished')`
pub finish : Action Testcase (Unit {0})
finish tc = (ok tt, modify_current (Step.change_state (some StepState.finished)) tc)

-- `partial_verdict.lower() in Verdict.values` tests for membership in a method, which no object
-- is asked for: `TypeError`. The lines after it never run.
unfoldable pub finish_check_step : Text → Text → Action Testsuite (Unit {0})
finish_check_step info partial_verdict ts =
    if may_finish check ts then (raised type_error, ts) else (ok tt, ts)

abbrev pub shown : Text
shown =
    codes "VERIFY step: User informed that the information was displayed correclty on his/her IUT"

abbrev pub not_shown : Text
not_shown =
    codes
      "VERIFY step: User informed that the information was not displayed correclty on his/her IUT"

answer : Bool → Action Testcase (Unit {0})
unfolding store finish
answer true = store (codes "pass") shown >> finish
answer false = store (codes "fail") not_shown >> finish

unfoldable pub finish_verify_step : Bool → Action Testsuite (Unit {0})
unfolding answer
finish_verify_step verify_response ts =
    if may_finish verify ts
    then on_testcase ts.current_tc (answer verify_response) ts
    else (ok tt, ts)

unfoldable pub finish_stimuli_step : Action Testsuite (Unit {0})
unfolding finish
finish_stimuli_step ts =
    if may_finish stimuli ts then on_testcase ts.current_tc finish ts else (ok tt, ts)
