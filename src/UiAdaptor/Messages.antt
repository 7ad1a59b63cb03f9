-- ===== src/UiAdaptor/Messages.antt =====
-- The messages that pass through the adaptor. The classes are those of the package `messages`;
-- what is said of them is what the adaptor reads and writes.
use ioppytest.Prelude.{
  Bool, List, [], ◌∷◌, Option, none, some, Text, codes, set_union, Dict, lookup, keys,
}

-- The classes of messages of the testing tool that the tables of the adaptor name, and the others.
pub data Kind : Type 0 where
  testing_tool_ready testing_tool_configured testing_tool_terminate : Kind
  component_ready component_shutdown session_log session_configuration : Kind
  testsuite_start testsuite_started testsuite_report testsuite_get_testcases : Kind
  testsuite_get_testcases_reply : Kind
  testcase_start testcase_started testcase_ready testcase_finished testcase_skip : Kind
  testcase_verdict step_stimuli_execute step_stimuli_executed step_verify_execute : Kind
  step_verify_executed configuration_execute configuration_executed : Kind
  sniffing_get_capture sniffing_get_capture_reply routing_start_lossy_link : Kind
  packet_inject_raw packet_sniffed_raw dissection_auto_dissect : Kind
  agent_tun_start agent_tun_started : Kind
  ui_request_session_configuration ui_session_configuration_reply unlisted : Kind

-- An attribute is missing, or it is `None` or a text.
abbrev pub Attribute : Type 0
Attribute = Option (Option Text)

pub record TtMessage : Type 0 where
  pub kind : Kind
  pub testcase_id : Attribute
  pub step_id : Attribute
  pub node : Attribute

-- A value in a field of a message of the interface.
pub data Value : Type 0 where
  text : Text → Value
  flag : Bool → Value
  opaque : Value

-- A field is a dictionary; these are the keys that the adaptor writes.
pub record Field : Type 0 where
  pub name : Option Text
  pub type : Option Text
  pub label : Option Text
  pub value : Option Value

pub record UiMessage : Type 0 where
  pub routing_key : Text
  pub reply_to : Option Text
  pub correlation_id : Text
  pub title : Option Text
  pub level : Option Text
  pub tags : Dict Text
  pub fields : List Field

-- What a new message of the class gets from the package.
pub record Fresh : Type 0 where
  pub routing_key : Text
  pub reply_to : Option Text
  pub correlation_id : Text

pub record UiReply : Type 0 where
  pub correlation_id : Option Text
  pub fields : List (Dict Value)

-- The messages that a user's reply gives for the testing tool.
pub data TtReply : Type 0 where
  testsuite_start testsuite_abort testcase_restart : TtReply
  testcase_start testcase_skip : Option Text → TtReply
  testcase_select : Text → TtReply
  verify_executed : Bool → TtReply
  stimuli_executed : (node node_execution_mode : Text) → TtReply

abbrev pub paragraph : Text → Field
paragraph value = record {
  name = none;
  type = some (codes "p");
  label = none;
  value = some (Value.text value);
}

abbrev pub button : Text → Value → Field
button name value = record {
  name = some name;
  type = some (codes "button");
  label = none;
  value = some value;
}

abbrev pub radio : Text → Text → Value → Field
radio name label value = record {
  name = some name;
  type = some (codes "radio");
  label = some label;
  value = some value;
}

unfoldable pub get_field_keys_from_ui_request : List Field → List Text
get_field_keys_from_ui_request [] = []
get_field_keys_from_ui_request (f ∷ rest) =
    let later = get_field_keys_from_ui_request rest in
    elim f.name [ none ↦ later | some name ↦ name ∷ later ]

-- `l |= set(item.keys())`, from the names so far. A set has no order; here the names stand in that
-- of their first occurrence.
unfoldable pub collect_keys : List Text → List (Dict Value) → List Text
collect_keys l [] = l
collect_keys l (item ∷ rest) = collect_keys (set_union l (keys item)) rest

unfoldable pub get_field_keys_from_ui_reply : List (Dict Value) → List Text
unfolding collect_keys
get_field_keys_from_ui_reply fields = collect_keys [] fields

-- `None` if no field has the key.
unfoldable pub get_field_value_from_ui_reply : List (Dict Value) → Text → Option Value
get_field_value_from_ui_reply [] field = none
get_field_value_from_ui_reply (f ∷ rest) field =
    let later = get_field_value_from_ui_reply rest field in
    elim (lookup field f) [ none ↦ later | some v ↦ some v ]
