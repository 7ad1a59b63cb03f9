-- ===== src/Testcase/State.antt =====
-- The test case, its construction from a parsed YAML mapping, and its state changes.
use ioppytest.Prelude.Calls
use ioppytest.Prelude.Calls.{◌>>=◌, ◌>>◌, or_raise, require}
use ioppytest.Prelude.Actions.{Action}
use ioppytest.Prelude.{
  ℕ, Bool, true, false, not, ◌&&◌, List, [], ◌∷◌, map, Option, none, some, Text, codes, ◌==◌, mem,
  all, if◌then◌else◌, Dict, lookup, contains, keys, Result, ok, raised, type_error, stop_iteration,
  test_suite_error,
}
use ioppytest.Step
use ioppytest.Step.{Step, StepState, has_verdict, set_result}

pub data TcState : Type 0 where
  skipped configuring ready executing ready_for_analysis analyzing finished aborted : TcState

-- A line of a report: `(step id, verdict, info)`, and the frame that steps of the sequence append.
pub record PartialVerdict : Type 0 where
  pub step_id : Text
  pub verdict : Text
  pub info : Text
  pub frame : Option Text

pub record Report : Type 0 where
  pub verdict : Text
  pub description : Text
  pub partial_verdicts : List PartialVerdict

pub record Testcase : Type 0 where
  pub id : Text
  pub state : Option TcState
  pub uri : Text
  pub objective : Text
  pub configuration_id : Text
  pub references : Text
  pub pre_conditions : Text
  pub notes : Text
  pub sequence : List Step
  pub step_it : ℕ
  pub current_step : Option ℕ
  pub report : Option Report

-- The keyword arguments of `Step(**s)`: none is unknown, and the first three are there.
abbrev step_keys : List Text
step_keys = codes "step_id" ∷ codes "type" ∷ codes "description" ∷ codes "node" ∷ []

unfoldable pub call_step : Dict Text → Result Step
call_step s = do
  require type_error (all (λ k. mem k step_keys) (keys s))
  step_id ← or_raise type_error (lookup (codes "step_id") s)
  type ← or_raise type_error (lookup (codes "type") s)
  info ← or_raise type_error (lookup (codes "description") s)
  Step.init step_id type info (lookup (codes "node") s)

-- The sanity checks of one imported step. The first `assert` tests only `"type" in s`.
unfoldable pub import_step : Dict Text → Result Step
import_step s = do
  Calls.assert (contains (codes "type") s)
  type ← or_raise type_error (lookup (codes "type") s)
  if type == codes "stimuli" then Calls.assert (contains (codes "node") s) else ok tt
  call_step s

-- `except: raise TestSuiteError`
unfoldable pub import_steps : List (Dict Text) → Result (List Step)
import_steps [] = ok []
import_steps (s ∷ rest) = elim (import_step s) [
  | raised _ ↦ raised test_suite_error
  | ok step ↦ elim (import_steps rest) [ raised e ↦ raised e | ok steps ↦ ok (step ∷ steps) ]
]

-- `__init__`
unfoldable pub init :
    (id uri objective configuration references pre_conditions notes : Text)
    → List (Dict Text)
    → Result Testcase
init id uri objective configuration references pre_conditions notes sequence = do
  steps ← import_steps sequence
  ok (record {
    id = id;
    state = none;
    uri = uri;
    objective = objective;
    configuration_id = configuration;
    references = references;
    pre_conditions = pre_conditions;
    notes = notes;
    sequence = steps;
    step_it = 0;
    current_step = none;
    report = none;
  })

unfoldable pub reinit : Testcase → Testcase
reinit tc = record tc {
  state = none;
  current_step = none;
  step_it = 0;
  sequence = map Step.reinit tc.sequence;
}

change_state_as : Option TcState → List Step → List Step
change_state_as (some skipped) = map (Step.change_state (some StepState.finished))
change_state_as _ = λ steps. steps

-- Every caller passes a constant that the `assert` admits.
unfoldable pub change_state : Option TcState → Testcase → Testcase
unfolding change_state_as
change_state state tc = record tc { state = state; sequence = change_state_as state tc.sequence }

-- One round of the loop of `abort`.
unfoldable pub abort_step : Step → Result Step
abort_step s = do
  s' ←
      if has_verdict s.type
      then set_result (codes "aborted") (codes "Testcase was aborted") s
      else ok s
  ok (Step.change_state (some StepState.aborted) s')

-- A loop over steps that it changes: those before a step that raises stay changed.
unfoldable pub for_steps : (Step → Result Step) → List Step → Result (Unit {0}) × List Step
for_steps body [] = (ok tt, [])
for_steps body (s ∷ rest) =
    let (r, rest') = for_steps body rest in
    elim (body s) [ raised e ↦ (raised e, s ∷ rest) | ok s' ↦ (r, s' ∷ rest') ]

-- What follows the loop of `abort`.
unfoldable pub abort_rest : Testcase → Result (Unit {0}) × List Step → Result (Unit {0}) × Testcase
unfolding change_state
abort_rest tc (raised e, steps) = (raised e, record tc { sequence = steps })
abort_rest tc (ok _, steps) = (
  ok tt,
  record (change_state (some TcState.aborted) (record tc { sequence = steps })) {
    current_step = none;
  },
)

unfoldable pub abort : Action Testcase (Unit {0})
unfolding abort_rest
abort tc = abort_rest tc (for_steps abort_step tc.sequence)

-- The states of a step in which `check_all_steps_finished` answers False. The names
-- `configuring` and `ready` that it also tests are no states of a step.
abbrev pub is_unfinished : Option StepState → Bool
is_unfinished none = true
is_unfinished (some StepState.executing) = true
is_unfinished (some _) = false

unfoldable pub all_finished : List Step → Bool
all_finished [] = true
all_finished (s ∷ rest) = not (is_unfinished s.state) && all_finished rest

-- The first `next` stands outside the `try`.
unfoldable pub check_all_steps_finished : Testcase → Result Bool
unfolding all_finished
check_all_steps_finished tc = elim tc.sequence [
  | [] ↦ raised stop_iteration
  | s ∷ rest ↦ ok (all_finished (s ∷ rest))
]
