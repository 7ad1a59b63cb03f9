-- ===== src/Step.antt =====
-- `class Iut` and `class Step` of ioppytest/test_suite/testsuite.py. The `state` of the source is
-- `None` or a name; here it is an `Option`.
pub mod Lifecycle
use ioppytest.Prelude.Calls.{◌>>=◌, ◌>>◌, assert}
use ioppytest.Prelude.{
  ℕ, ◌≡◌, Bool, true, false, List, [], ◌∷◌, Option, none, some, Text, codes, ◌==◌, if◌then◌else◌,
  Result, ok, raised, assertion_error, attribute_error,
}
use ioppytest.Verdict
use ioppytest.Verdict.{Verdict, blank, severity}

pub data IutMode : Type 0 where
  user_assisted automated : IutMode

pub record Iut : Type 0 where
  pub node : Text
  pub mode : IutMode
  pub address : Option Text

-- `Iut(node)`, with the default mode
unfoldable pub init_iut : Text → Iut
init_iut node = record { node = node; mode = user_assisted; address = none }

pub data StepType : Type 0 where
  stimuli check verify feature : StepType

pub data StepState : Type 0 where
  executing finished postponed aborted : StepState

pub record Step : Type 0 where
  pub id : Text
  pub type : StepType
  pub state : Option StepState
  pub description : Text
  -- Stimuli steps have no such attribute.
  pub partial_verdict : Option Verdict
  pub iut : Option Iut

-- `type in ("stimuli", "check", "verify", "feature")`
unfoldable pub parse_type : Text → Option StepType
parse_type t =
    if t == codes "stimuli"
    then some stimuli
    else if t == codes "check"
    then some check
    else if t == codes "verify"
    then some verify
    else if t == codes "feature"
    then some feature
    else none

abbrev pub new_verdict : StepType → Option Verdict
new_verdict stimuli = none
new_verdict _ = some blank

-- `if type == 'stimuli' or type == 'verify'`: such a step needs a node.
unfoldable pub new_iut : StepType → Option Text → Result (Option Iut)
unfolding init_iut
new_iut stimuli none = raised assertion_error
new_iut stimuli (some node) = ok (some (init_iut node))
new_iut verify none = raised assertion_error
new_iut verify (some node) = ok (some (init_iut node))
new_iut check _ = ok none
new_iut feature _ = ok none

unfoldable pub build : Text → Text → StepType → Option Text → Result Step
unfolding new_iut
build step_id info type node = do
  iut ← new_iut type node
  ok (record {
    id = step_id;
    type = type;
    state = none;
    description = info;
    partial_verdict = new_verdict type;
    iut = iut;
  })

-- `__init__`
unfoldable pub init : Text → Text → Text → Option Text → Result Step
init step_id type info node = elim (parse_type type) [
  | none ↦ raised assertion_error
  | some t ↦ build step_id info t node
]

-- Every caller passes a constant that the `assert` admits.
unfoldable pub change_state : Option StepState → Step → Step
change_state state s = record s { state = state }

abbrev pub has_verdict : StepType → Bool
has_verdict stimuli = false
has_verdict _ = true

reinit_as : StepType → Step → Step
unfolding change_state
reinit_as check s = change_state (some postponed) (record s { partial_verdict = some blank })
reinit_as feature s = change_state (some postponed) (record s { partial_verdict = some blank })
reinit_as verify s = change_state none (record s { partial_verdict = some blank })
reinit_as stimuli s = change_state none s

unfoldable pub reinit : Step → Step
unfolding reinit_as
reinit s = reinit_as s.type s

store_result : Text → Text → Step → Option Verdict → Result Step
store_result result info s none = raised attribute_error
store_result result info s (some v) = do
  v' ← Verdict.update result info v
  ok (record s { partial_verdict = some v' })

abbrev pub is_known : Text → Bool
is_known result = elim (severity result) [ none ↦ false | some _ ↦ true ]

-- The two asserts, and the update of the partial verdict.
unfoldable pub set_result : Text → Text → Step → Result Step
unfolding store_result
set_result result result_info s = do
  assert (has_verdict s.type)
  assert (is_known result)
  store_result result result_info s s.partial_verdict
