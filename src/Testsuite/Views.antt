-- ===== src/Testsuite/Views.antt =====
-- The `to_dict` methods of test cases and steps, and the listings and getters made of them. A
-- mapping is a record; what `verbose` adds is an `Option`.
pub mod Status
use ioppytest.Prelude.{
  Bool, true, false, List, [], ◌∷◌, map, Option, none, some, Text, Dict, values, update, Result, ok,
  raised, attribute_error, test_suite_error,
}
use ioppytest.Prelude.Calls.{◌>>=◌, or_raise}
use ioppytest.Step.{Step, StepType, StepState, Iut, IutMode}
use ioppytest.Testcase.{Testcase, TcState, check_all_steps_finished}
use ioppytest.Testsuite.State.{Testsuite, get_current_testcase}
use ioppytest.Testsuite.Stepping.{get_current_step}

pub record IutView : Type 0 where
  pub node : Text
  pub node_execution_mode : IutMode
  pub node_address : Option Text

unfoldable pub iut_to_dict : Iut → IutView
iut_to_dict iut = record {
  node = iut.node;
  node_execution_mode = iut.mode;
  node_address = iut.address;
}

pub record StepDetails : Type 0 where
  pub step_type : StepType
  pub step_info : Text
  pub step_state : Option StepState
  pub iut : Option IutView

pub record StepView : Type 0 where
  pub step_id : Text
  pub details : Option StepDetails

-- `self.iut.to_dict()`, for the two types that have an IUT
unfoldable pub iut_details : StepType → Option Iut → Result (Option IutView)
unfolding iut_to_dict
iut_details StepType.check iut = ok none
iut_details StepType.feature iut = ok none
iut_details _ none = raised attribute_error
iut_details _ (some iut) = ok (some (iut_to_dict iut))

abbrev view : Step → Option StepDetails → StepView
view s details = record { step_id = s.id; details = details }

abbrev details_of : Step → Option IutView → StepDetails
details_of s iut = record {
  step_type = s.type;
  step_info = s.description;
  step_state = s.state;
  iut = iut;
}

unfoldable pub step_to_dict : Bool → Step → Result StepView
unfolding iut_details
step_to_dict false s = ok (view s none)
step_to_dict true s = iut_details s.type s.iut >>= λ iut. ok (view s (some (details_of s iut)))

pub record TestcaseView : Type 0 where
  pub testcase_id : Text
  pub testcase_ref : Text
  pub objective : Text
  pub state : Option TcState
  -- `pre_conditions` and `notes`
  pub details : Option (Text × Text)

abbrev verbose_details : Bool → Testcase → Option (Text × Text)
verbose_details true tc = some (tc.pre_conditions, tc.notes)
verbose_details false tc = none

unfoldable pub testcase_to_dict : Bool → Testcase → TestcaseView
testcase_to_dict verbose tc = record {
  testcase_id = tc.id;
  testcase_ref = tc.uri;
  objective = tc.objective;
  state = tc.state;
  details = verbose_details verbose tc;
}

steps_to_dict : Bool → List Step → Result (List StepView)
unfolding step_to_dict
steps_to_dict verbose [] = ok []
steps_to_dict verbose (s ∷ rest) =
    step_to_dict verbose s >>= λ d. steps_to_dict verbose rest >>= λ ds. ok (d ∷ ds)

unfoldable pub seq_to_dict : Bool → Testcase → Result (List StepView)
unfolding steps_to_dict
seq_to_dict verbose tc = steps_to_dict verbose tc.sequence

status_of : List Testcase → Result (List TestcaseView × List (List StepView))
unfolding testcase_to_dict seq_to_dict
status_of [] = ok ([], [])
status_of (tc ∷ rest) = seq_to_dict true tc >>= λ steps.
    status_of rest >>= λ (tcs, seqs). ok (testcase_to_dict true tc ∷ tcs, steps ∷ seqs)

if_any : {A : Type 0} → List Testcase → Result A → Result A
if_any [] r = raised test_suite_error
if_any (tc ∷ rest) r = r

unfoldable pub get_detailed_status : Testsuite → Result (List TestcaseView × List (List StepView))
unfolding status_of if_any
get_detailed_status ts =
    if_any (values ts.test_descriptions_dict) (status_of (values ts.test_descriptions_dict))

unfoldable pub get_testcases_basic : Bool → Testsuite → Result (List TestcaseView)
unfolding testcase_to_dict if_any
get_testcases_basic verbose ts =
    if_any (values ts.test_descriptions_dict)
      (ok (map (testcase_to_dict verbose) (values ts.test_descriptions_dict)))

pub record SessionView : Type 0 where
  pub session_id : Option Text
  pub users : Option Text
  pub configuration : Option Text
  pub tc_list : List TestcaseView

unfoldable pub get_testsuite_configuration : Testsuite → Result SessionView
get_testsuite_configuration ts = get_testcases_basic false ts >>= λ tc_list. ok (record {
  session_id = ts.session_id;
  users = ts.session_users;
  configuration = ts.session_configuration;
  tc_list = tc_list;
})

unfoldable pub check_testcase_finished : Testsuite → Result Bool
check_testcase_finished ts =
    or_raise attribute_error (get_current_testcase ts) >>= check_all_steps_finished

-- An exception on the way is `None`.
unfoldable pub get_current_step_id : Testsuite → Option Text
get_current_step_id ts = elim (get_current_step ts) [ none ↦ none | some s ↦ some s.id ]

unfoldable pub get_current_testcase_state : Testsuite → Option TcState
get_current_testcase_state ts = elim (get_current_testcase ts) [ none ↦ none | some tc ↦ tc.state ]

unfoldable pub get_current_testcase_configuration_id : Testsuite → Option Text
get_current_testcase_configuration_id ts = elim (get_current_testcase ts) [
  | none ↦ none
  | some tc ↦ some tc.configuration_id
]

-- The table is merged in once for each configuration.
merge_for : {A : Type 0} → List A → Dict (Text × Text) → Dict (Text × Text) → Dict (Text × Text)
merge_for [] table merged = merged
merge_for (c ∷ rest) table merged = merge_for rest table (update merged table)

unfoldable pub get_default_iut_addressing_from_configurations : Testsuite → Dict (Text × Text)
unfolding merge_for
get_default_iut_addressing_from_configurations ts =
    merge_for (values ts.tc_configs) ts.addressing_table []
