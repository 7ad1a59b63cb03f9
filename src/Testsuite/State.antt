-- ===== src/Testsuite/State.antt =====
-- The state of a test suite, its construction, and access to the current test case.
use ioppytest.Prelude.Actions.{Action}
use ioppytest.Prelude.{
  true, false, List, [], ◌∷◌, Option, none, some, Text, Dict, lookup, contains, insert, update,
  modify_key, set_union, Result, ok, raised, assertion_error, attribute_error,
}
use ioppytest.Testcase
use ioppytest.Testcase.{Testcase, TcState, Report}
use ioppytest.TestConfig.{TestConfig, Addressing, get_default_addressing_table}

-- An entry of the final report: the id, beside the items of the test case's own report.
pub record ReportItem : Type 0 where
  pub testcase_id : Text
  pub report : Report

pub record Testsuite : Type 0 where
  pub tc_configs : Dict TestConfig
  pub agents : List Text
  pub addressing_table : Dict (Text × Text)
  pub nodes_configured : List Text
  pub test_descriptions_dict : Dict Testcase
  pub current_tc : Option Text
  pub session_id : Option Text
  pub session_users : Option Text
  pub session_configuration : Option Text
  pub session_selected_tc_list : Option (List Text)
  pub report : Option (List ReportItem)

abbrev blank : Testsuite
blank = record {
  tc_configs = [];
  agents = [];
  addressing_table = [];
  nodes_configured = [];
  test_descriptions_dict = [];
  current_tc = none;
  session_id = none;
  session_users = none;
  session_configuration = none;
  session_selected_tc_list = none;
  report = none;
}

-- The default addresses of a configuration.
add_addresses : List Addressing → Dict (Text × Text) → Dict (Text × Text)
add_addresses [] table = table
add_addresses (item ∷ rest) table =
    add_addresses rest (update table ((item.node, (item.ipv6_prefix, item.ipv6_host)) ∷ []))

add_configs : List TestConfig → Testsuite → Testsuite
unfolding add_addresses
add_configs [] ts = ts
add_configs (c ∷ rest) ts = add_configs rest (record ts {
  tc_configs = insert c.id c ts.tc_configs;
  agents = set_union ts.agents c.nodes;
  addressing_table = add_addresses (get_default_addressing_table c) ts.addressing_table;
})

-- Every test case wants a configuration that was imported.
add_testcases : List Testcase → Testsuite → Result Testsuite
add_testcases [] ts = ok ts
add_testcases (tc ∷ rest) ts = elim (contains tc.configuration_id ts.tc_configs) [
  | false ↦ raised assertion_error
  | true ↦
      add_testcases rest
        (record ts { test_descriptions_dict = insert tc.id tc ts.test_descriptions_dict })
]

-- `__init__`, from the objects that the import of the YAML files gives.
unfoldable pub init : List TestConfig → List Testcase → Result Testsuite
unfolding add_configs add_testcases
init imported_configs imported_TDs = add_testcases imported_TDs (add_configs imported_configs blank)

-- The object that a key names.
unfoldable pub testcase_at : Option Text → Testsuite → Option Testcase
testcase_at none ts = none
testcase_at (some k) ts = lookup k ts.test_descriptions_dict

unfoldable pub get_current_testcase : Testsuite → Option Testcase
unfolding testcase_at
get_current_testcase ts = testcase_at ts.current_tc ts

-- `get_testcase`: the current test case if no id is given, else the one of that id.
unfoldable pub get_testcase : Option Text → Testsuite → Option Text
get_testcase none ts = ts.current_tc
get_testcase (some id) ts = elim (contains id ts.test_descriptions_dict) [
  | true ↦ some id
  | false ↦ none
]

-- `self.get_testcase(testcase_id) or self.get_current_testcase()`
abbrev pub or_current : Option Text → Testsuite → Option Text
or_current none ts = ts.current_tc
or_current (some k) ts = some k

abbrev pub put : Text → Testcase → Testsuite → Testsuite
put k tc ts = record ts {
  test_descriptions_dict = modify_key k (λ _. tc) ts.test_descriptions_dict;
}

abbrev after_call : {A : Type 0} → Text → Testsuite → Result A × Testcase → Result A × Testsuite
after_call k ts (r, tc) = (r, put k tc ts)

-- A method of the test case that a key names; `None` has no such attribute.
unfoldable pub on_testcase : {A : Type 0} → Option Text → Action Testcase A → Action Testsuite A
on_testcase none m ts = (raised attribute_error, ts)
on_testcase (some k) m ts = elim (lookup k ts.test_descriptions_dict) [
  | none ↦ (raised attribute_error, ts)
  | some tc ↦ after_call k ts (m tc)
]

-- `self.current_tc.change_state(state)`
unfoldable pub set_current_testcase_state : Option TcState → Action Testsuite (Unit {0})
unfolding on_testcase
set_current_testcase_state state ts =
    on_testcase ts.current_tc (λ tc. (ok tt, Testcase.change_state state tc)) ts
