-- ===== src/Coordinator/Notify.antt =====
-- The notifications of ioppytest/test_coordinator/amqp_connector.py: what the entries, exits and
-- transitions of the machine publish. A message has the fields that the code gives it; the merged
-- dictionaries have different keys.
pub mod Step
use ioppytest.Prelude.Calls.{◌>>=◌, or_raise}
use ioppytest.Prelude.{
  Bool, true, false, List, [], ◌∷◌, ◌++◌, map, Option, none, some, Text, codes, Dict, Result, ok,
  raised, attribute_error, type_error,
}
use ioppytest.Step.{StepType}
use ioppytest.Testcase.{Report}
use ioppytest.TestConfig.{TestConfig, Link, NodeDescription}
use ioppytest.Testsuite.{Testsuite, get_current_testcase}
use ioppytest.Testsuite.State.{ReportItem}
use ioppytest.Testsuite.Stepping.{get_current_step}
use ioppytest.Testsuite.Reports.{get_report, get_testcase_report}
use ioppytest.Testsuite.Queries.{
  get_current_testcase_configuration, get_current_step_target_address,
}
use ioppytest.Testsuite.Views.{
  StepView, StepDetails, step_to_dict, TestcaseView, testcase_to_dict, SessionView,
  get_testsuite_configuration, get_current_testcase_configuration_id,
}

pub record ConfigDetails : Type 0 where
  pub configuration_ref : Text
  pub nodes : List Text
  pub topology : List Link
  pub nodes_description : List NodeDescription

pub record ConfigView : Type 0 where
  pub configuration_id : Text
  pub details : Option ConfigDetails

config_details : Bool → TestConfig → Option ConfigDetails
config_details false c = none
config_details true c = some (record {
  configuration_ref = c.uri;
  nodes = c.nodes;
  topology = c.topology;
  nodes_description = c.nodes_description;
})

-- `TestConfig.to_dict`
unfoldable pub config_to_dict : Bool → TestConfig → ConfigView
unfolding config_details
config_to_dict verbose c = record { configuration_id = c.id; details = config_details verbose c }

pub data Notification : Type 0 where
  testing_tool_configured : SessionView → Notification
  testcase_finished testcase_started : TestcaseView → Notification
  testcase_verdict : Report → TestcaseView → Notification
  testcase_ready : ConfigView → TestcaseView → Notification
  step_stimuli_execute :
      StepView
      → TestcaseView
      → (target_address : Option Text) (description : List Text) → Notification
  step_verify_execute : StepView → TestcaseView → (description : List Text) → Notification
  agent_tun_start : (name ipv6_prefix ipv6_host routing_key : Text) → Notification
  testsuite_started : Notification
  testsuite_report : Option (List ReportItem) → Notification
  configuration_execute :
      (configuration_id : Option Text) (node : Text) (description : List Text)
      → TestcaseView
      → Notification

abbrev current_view : Bool → Testsuite → Result TestcaseView
current_view verbose ts =
    or_raise attribute_error (get_current_testcase ts) >>= λ tc. ok (testcase_to_dict verbose tc)

abbrev current_config : Bool → Testsuite → Result ConfigView
current_config verbose ts =
    or_raise attribute_error (get_current_testcase_configuration ts) >>= λ c.
    ok (config_to_dict verbose c)

unfoldable pub notify_testsuite_configured : Testsuite → Result (List Notification)
notify_testsuite_configured ts =
    get_testsuite_configuration ts >>= λ s. ok (testing_tool_configured s ∷ [])

unfoldable pub notify_testcase_finished : Testsuite → Result (List Notification)
notify_testcase_finished ts = current_view false ts >>= λ v. ok (testcase_finished v ∷ [])

unfoldable pub notify_testcase_started : Testsuite → Result (List Notification)
notify_testcase_started ts = current_view false ts >>= λ v. ok (testcase_started v ∷ [])

-- `msg_fields.update(None)`: a test case without a report.
unfoldable pub notify_testcase_verdict : Testsuite → Result (List Notification)
notify_testcase_verdict ts = do
  report ← or_raise type_error (get_testcase_report none ts)
  v ← current_view false ts
  ok (testcase_verdict report v ∷ [])

unfoldable pub notify_testcase_ready : Testsuite → Result (List Notification)
notify_testcase_ready ts = do
  c ← current_config true ts
  v ← current_view true ts
  ok (testcase_ready c v ∷ [])

-- An exception is logged, and the address is `None`.
unfoldable pub target_or_none : Result (Option Text) → Option Text
target_or_none (ok address) = address
target_or_none (raised e) = none

unfoldable pub step_description : Text → Text → List Text
step_description step_id step_info =
    (codes "Please execute step: " ++ step_id) ∷ (codes "Step description: " ++ step_info) ∷ []

-- By the type of the step: checks and features are not executed by anyone.
unfoldable pub execute_of :
    StepType → StepView → TestcaseView → Option Text → List Text → List Notification
execute_of StepType.stimuli s v target_node description =
    step_stimuli_execute s v target_node description ∷ []
execute_of StepType.verify s v target_node description = step_verify_execute s v description ∷ []
execute_of StepType.check s v target_node description = []
execute_of StepType.feature s v target_node description = []

execute_details : StepView → Option StepDetails → TestcaseView → Option Text → List Notification
unfolding execute_of step_description
execute_details s none v target_node = []
execute_details s (some d) v target_node =
    execute_of d.step_type s v target_node (step_description s.step_id d.step_info)

unfoldable pub notify_step_execute : Testsuite → Result (List Notification)
unfolding execute_details target_or_none
notify_step_execute ts = do
  step ← or_raise attribute_error (get_current_step ts)
  s ← step_to_dict true step
  _ ← current_config true ts
  v ← current_view false ts
  ok (execute_details s s.details v (target_or_none (get_current_step_target_address ts)))

-- `msg.routing_key.replace('*', node_name)`; the message's own key is a parameter.
unfoldable pub notify_tun_interfaces_start :
    (routing_key_for : Text → Text) → Dict (Text × Text) → List Notification
notify_tun_interfaces_start routing_key_for [] = []
notify_tun_interfaces_start routing_key_for ((node_name, (prefix, host)) ∷ rest) =
    agent_tun_start node_name prefix host (routing_key_for node_name)
    ∷ notify_tun_interfaces_start routing_key_for rest

unfoldable pub notify_testsuite_started : Testsuite → Result (List Notification)
notify_testsuite_started ts = ok (testsuite_started ∷ [])

unfoldable pub notify_testsuite_finished : Testsuite → Result (List Notification)
notify_testsuite_finished ts = ok (testsuite_report (get_report ts) ∷ [])

-- One message for each of the configuration's descriptions.
unfoldable pub configuration_messages :
    Option Text → TestcaseView → List NodeDescription → List Notification
configuration_messages config_id v [] = []
configuration_messages config_id v (desc ∷ rest) =
    configuration_execute config_id desc.node desc.message v
    ∷ configuration_messages config_id v rest

unfoldable pub notify_tescase_configuration : Testsuite → Result (List Notification)
notify_tescase_configuration ts = do
  v ← current_view false ts
  c ← or_raise attribute_error (get_current_testcase_configuration ts)
  ok (configuration_messages (get_current_testcase_configuration_id ts) v c.nodes_description)
