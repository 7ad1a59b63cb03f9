-- ===== src/Testsuite/Queries/Target.antt =====
-- The address that the step under way is sent to.
use ioppytest.Prelude.{
  ◌≡◌, refl, ◌≢◌, List, [], ◌∷◌, Option, none, some, Text, text_eq_refl, lookup-insert, ok,
}
use ioppytest.TestConfig.{TestConfig, Link}
use ioppytest.TestConfig.Target.{get_target_node_pair}
use ioppytest.Testsuite.State.{Testsuite, get_current_testcase, testcase_at}
use ioppytest.Testsuite.Stepping.{get_current_step}
use ioppytest.Testsuite.Queries.{
  get_current_step_target_address, target_address, get_current_step_node,
  get_current_testcase_configuration, get_node_address, update_node_address, shown_address,
}

address_after_update :
    (ts : Testsuite) (node : Text) (address : Text × Text)
    → get_node_address node (update_node_address node address ts) ≡ ok address
unfolding get_node_address update_node_address
address_after_update ts node address =
    rw (lookup-insert node node address ts.addressing_table, text_eq_refl node) refl

testcase_after_update :
    (k : Option Text) (ts : Testsuite) (node : Text) (address : Text × Text)
    → testcase_at k (update_node_address node address ts) ≡ testcase_at k ts
unfolding testcase_at update_node_address
testcase_after_update none ts node address = refl
testcase_after_update (some k) ts node address = refl

current_after_update :
    (ts : Testsuite) (node : Text) (address : Text × Text)
    → get_current_testcase (update_node_address node address ts) ≡ get_current_testcase ts
unfolding get_current_testcase update_node_address
current_after_update ts node address = testcase_after_update ts.current_tc ts node address

step_after_update :
    (ts : Testsuite) (node : Text) (address : Text × Text)
    → get_current_step (update_node_address node address ts) ≡ get_current_step ts
unfolding get_current_step
step_after_update ts node address = rw (current_after_update ts node address, get_current_step) refl

node_after_update :
    (ts : Testsuite) (node : Text) (address : Text × Text)
    → get_current_step_node (update_node_address node address ts) ≡ get_current_step_node ts
unfolding get_current_step_node
node_after_update ts node address =
    rw (step_after_update ts node address, get_current_step_node) refl

configuration_after_update :
    (ts : Testsuite) (node : Text) (address : Text × Text)
    → get_current_testcase_configuration (update_node_address node address ts)
      ≡ get_current_testcase_configuration ts
unfolding get_current_testcase_configuration
configuration_after_update ts node address =
    rw (current_after_update ts node address, get_current_testcase_configuration)
      (unfold update_node_address in refl)

-- In a configuration whose first link joins the node of the current step to another, the address
-- that was last given for the other node is the target address of the step.
pub target_address_updated :
    (ts : Testsuite) (c : TestConfig) (l : Link) (rest : List Link) (node other : Text)
    (address : Text × Text)
    → get_current_step_node ts ≡ some node
    → get_current_testcase_configuration ts ≡ some c
    → c.topology ≡ l ∷ rest
    → l.nodes ≡ node ∷ other ∷ []
    → node ≢ other
    → get_current_step_target_address (update_node_address other address ts)
      ≡ ok (some (shown_address address))
unfolding get_current_step_target_address target_address
target_address_updated ts c l rest node other address at cfg top link differ =
    rw
      (
        node_after_update ts other address,
        at,
        configuration_after_update ts other address,
        cfg,
        (get_target_node_pair c l rest node other top link differ).0,
        address_after_update ts other address,
      )
      refl
