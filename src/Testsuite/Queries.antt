-- ===== src/Testsuite/Queries.antt =====
-- What other components ask a suite: addresses, the current step and configuration, summaries.
pub mod Target
use ioppytest.Prelude.{
  Bool, true, false, not, List, [], ◌∷◌, ◌++◌, map, Option, none, some, Text, codes, ltb, length,
  Dict, lookup, insert, values, set_add, keys, Result, ok, raised, key_error, attribute_error,
  test_suite_error,
}
use ioppytest.Prelude.Calls.{◌>>=◌, or_raise}
use ioppytest.Step.{Step, Iut}
use ioppytest.Testcase.{Testcase, TcState}
use ioppytest.TestConfig.{TestConfig, get_target_node}
use ioppytest.Testsuite.State.{Testsuite, get_current_testcase}
use ioppytest.Testsuite.Stepping.{current_step_of, get_current_step}

unfoldable pub check_all_iut_nodes_configured : Testsuite → Bool
check_all_iut_nodes_configured ts = ltb 1 (length ts.nodes_configured)

unfoldable pub get_node_address : Text → Testsuite → Result (Text × Text)
get_node_address node ts = or_raise key_error (lookup node ts.addressing_table)

unfoldable pub update_node_address : Text → Text × Text → Testsuite → Testsuite
update_node_address node address ts = record ts {
  addressing_table = insert node address ts.addressing_table;
  nodes_configured = set_add node ts.nodes_configured;
}

abbrev config_of : Testcase → Testsuite → Option TestConfig
config_of tc ts = lookup tc.configuration_id ts.tc_configs

-- An exception on the way is `None`.
unfoldable pub get_current_testcase_configuration : Testsuite → Option TestConfig
get_current_testcase_configuration ts = elim (get_current_testcase ts) [
  | none ↦ none
  | some tc ↦ config_of tc ts
]

-- `current_step.iut.node`
unfoldable pub get_current_step_node : Testsuite → Option Text
get_current_step_node ts = elim (get_current_step ts) [
  | none ↦ none
  | some step ↦ elim step.iut [ none ↦ none | some iut ↦ some iut.node ]
]

-- `"%s::%s" % address_tuple`
abbrev pub shown_address : Text × Text → Text
shown_address (prefix, host) = prefix ++ codes "::" ++ host

unfoldable pub target_address : Text → Testsuite → Result Text
target_address node ts = do
  config ← or_raise attribute_error (get_current_testcase_configuration ts)
  target_node ← get_target_node node none config
  address ← get_node_address target_node ts
  ok (shown_address address)

address_for : Option Text → Testsuite → Result (Option Text)
unfolding target_address
address_for none ts = ok none
address_for (some node) ts = target_address node ts >>= λ address. ok (some address)

-- `None` where there is no current test case, no current step, or no node of the step.
unfoldable pub get_current_step_target_address : Testsuite → Result (Option Text)
unfolding address_for
get_current_step_target_address ts = address_for (get_current_step_node ts) ts

-- `states_summary`: the step is there only while a test case has one.
pub record Summary : Type 0 where
  pub started : Bool
  pub testcase_id : Option Text
  pub testcase_state : Option TcState
  pub step : Option Step

unfoldable pub states_summary : Testsuite → Summary
states_summary ts = elim (get_current_testcase ts) [
  | none ↦ record { started = false; testcase_id = none; testcase_state = none; step = none }
  | some tc ↦ record {
    started = true;
    testcase_id = some tc.id;
    testcase_state = tc.state;
    step = current_step_of tc;
  }
]

unfoldable pub get_testcases_list : Testsuite → List Text
get_testcases_list ts = keys ts.test_descriptions_dict
