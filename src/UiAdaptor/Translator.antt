-- ===== src/UiAdaptor/Translator.antt =====
-- `GenericBidirectonalTranslator` and its `CoAPSessionMessageTranslator` of
-- ioppytest/ui_adaptor/message_translators.py: the state, the requests to the users, and what
-- their replies become.
pub mod Chained
use ioppytest.Prelude.Actions
use ioppytest.Prelude.Actions.{Action, ◌>>=◌, ◌>>◌}
use ioppytest.Prelude.{
  ℕ, Bool, true, false, List, [], ◌∷◌, ◌++◌, length, leb, Option, none, some, Text, codes, lower,
  ◌==◌, mem, Dict, if◌then◌else◌, Result, ok, raised, type_error, index_error, exception,
  assertion_error, attribute_error,
}
use ioppytest.UiAdaptor.Messages
use ioppytest.UiAdaptor.Messages.{
  Kind, Attribute, TtMessage, Value, Field, UiMessage, Fresh, UiReply, TtReply, paragraph, button,
  radio, get_field_keys_from_ui_request, get_field_keys_from_ui_reply,
  get_field_value_from_ui_reply,
}
use ioppytest.UiAdaptor.Pending.{
  Entry, Table, add_pending_response, pop_pending_response, is_pending_response,
}

pub record Translator : Type 0 where
  pub current_tc : Option Text
  pub current_step : Option Text
  pub pending_responses : Table
  pub session_history_messages : List TtMessage

-- `__init__`
unfoldable pub init : Translator
init = record {
  current_tc = none;
  current_step = none;
  pending_responses = [];
  session_history_messages = [];
}

-- `if message.testcase_id`: missing, `None` and empty leave the state.
unfoldable pub or_kept : Attribute → Option Text → Option Text
or_kept (some (some (c ∷ s))) kept = some (c ∷ s)
or_kept _ kept = kept

unfoldable pub is_saved : Kind → Bool
is_saved Kind.sniffing_get_capture_reply = true
is_saved Kind.testcase_verdict = true
is_saved Kind.testsuite_report = true
is_saved _ = false

unfoldable pub update_state : TtMessage → Translator → Translator
unfolding or_kept is_saved
update_state m t = record t {
  current_tc = or_kept m.testcase_id t.current_tc;
  current_step = or_kept m.step_id t.current_step;
  session_history_messages =
      if is_saved m.kind
      then t.session_history_messages ++ (m ∷ [])
      else t.session_history_messages;
}

-- The tags of a message that has none. An empty id of a test case is no id.
unfoldable pub tags_for : Option Text → Dict Text
tags_for (some (c ∷ s)) = (codes "testcase", c ∷ s) ∷ []
tags_for _ = (codes "logs", []) ∷ []

with_tags : Option Text → Dict Text → UiMessage → UiMessage
unfolding tags_for
with_tags current_tc [] m = record m { tags = tags_for current_tc }
with_tags current_tc (tag ∷ tags) m = m

unfoldable pub tag_message : UiMessage → Translator → UiMessage
unfolding with_tags
tag_message m t = with_tags t.current_tc m.tags m

-- `%s` of a text or `None`
unfoldable pub shown : Option Text → Text
shown none = codes "None"
shown (some s) = s

unfoldable pub value_of : Option Text → Value
value_of none = Value.opaque
value_of (some s) = Value.text s

unfoldable pub request : Fresh → Option Text → List Field → UiMessage
request fresh title fields = record {
  routing_key = fresh.routing_key;
  reply_to = fresh.reply_to;
  correlation_id = fresh.correlation_id;
  title = title;
  level = none;
  tags = [];
  fields = fields;
}

unfoldable pub ui_request_testcase_start : Fresh → Translator → UiMessage
unfolding request shown
ui_request_testcase_start fresh t =
    request fresh
      (some (codes "Do you want to start the TEST CASE <" ++ (shown t.current_tc ++ codes ">?")))
      (button (codes "tc_start") (Value.flag true)
        ∷ button (codes "tc_skip") (Value.flag true)
        ∷ [])

unfoldable pub ui_request_step_stimuli_executed : Fresh → Translator → UiMessage
unfolding request shown
ui_request_step_stimuli_executed fresh t = request fresh none (
    paragraph
      (codes "Confirm executing " ++ (shown t.current_step ++ codes " (see description below)"))
    ∷ button (codes "stimuli_executed") (Value.flag true)
    ∷ [])

unfoldable pub ui_request_step_verification : Fresh → Translator → UiMessage
unfolding request shown
ui_request_step_verification fresh t = request fresh none (
    paragraph (codes "Please verify " ++ (shown t.current_step ++ codes " (see description below)"))
    ∷ radio (codes "verify_executed") (codes "OK") (Value.flag true)
    ∷ radio (codes "verify_executed") (codes "Not OK") (Value.flag false)
    ∷ [])

unfoldable pub ui_request_testcase_restart : Fresh → Translator → UiMessage
unfolding request value_of
ui_request_testcase_restart fresh t = request fresh none (
    paragraph (codes "Would you like to run again the test case?")
    ∷ button (codes "restart_testcase") (value_of t.current_tc)
    ∷ [])

-- `tt_to_ui_message_translation`, and the lookup in it.
unfoldable pub get_ui_request_action_message : Fresh → TtMessage → Translator → Option UiMessage
unfolding ui_request_testcase_start ui_request_step_stimuli_executed ui_request_step_verification
    ui_request_testcase_restart
get_ui_request_action_message fresh m t = elim m.kind [
  | Kind.testcase_ready ↦ some (ui_request_testcase_start fresh t)
  | Kind.step_stimuli_execute ↦ some (ui_request_step_stimuli_executed fresh t)
  | Kind.step_verify_execute ↦ some (ui_request_step_verification fresh t)
  | Kind.testcase_verdict ↦ some (ui_request_testcase_restart fresh t)
  | _ ↦ none
]

-- The handlers of replies. `None` is a reply that gives no message.
unfoldable pub answered : Value → Result (Option TtReply)
answered (Value.flag b) = ok (some (TtReply.verify_executed b))
answered (Value.text s) =
    if lower s == codes "true"
    then ok (some (TtReply.verify_executed true))
    else if lower s == codes "false"
    then ok (some (TtReply.verify_executed false))
    else ok none
answered Value.opaque = ok none

unfoldable pub get_tt_message_step_verify_executed : Option Value → Result (Option TtReply)
unfolding answered
get_tt_message_step_verify_executed none = ok none
get_tt_message_step_verify_executed (some v) = answered v

unfoldable pub get_tt_message_testcase_restart_last_executed :
    Option Value → Result (Option TtReply)
get_tt_message_testcase_restart_last_executed (some (Value.text s)) =
    ok (some (TtReply.testcase_select s))
get_tt_message_testcase_restart_last_executed _ = ok none

unfoldable pub get_tt_message_testcase_skip : TtMessage → Result (Option TtReply)
get_tt_message_testcase_skip origin = elim origin.testcase_id [
  | none ↦ raised attribute_error
  | some id ↦ ok (some (TtReply.testcase_skip id))
]

abbrev pub coap_client : Text
coap_client = codes "coap_client"

abbrev pub user_assisted : Text
user_assisted = codes "user_assisted"

-- `ui_to_tt_message_translation`, and the call of the handler found there.
unfoldable pub handle_action :
    Text → Option Value → TtMessage → Translator → Result (Option TtReply)
unfolding get_tt_message_step_verify_executed get_tt_message_testcase_restart_last_executed
    get_tt_message_testcase_skip
handle_action action v origin t =
    if action == codes "ts_start"
    then ok (some TtReply.testsuite_start)
    else if action == codes "ts_abort"
    then ok (some TtReply.testsuite_abort)
    else if action == codes "tc_start"
    then ok (some (TtReply.testcase_start t.current_tc))
    else if action == codes "tc_restart"
    then ok (some TtReply.testcase_restart)
    else if action == codes "tc_skip"
    then get_tt_message_testcase_skip origin
    else if action == codes "restart_testcase"
    then get_tt_message_testcase_restart_last_executed v
    else if action == codes "verify_executed"
    then get_tt_message_step_verify_executed v
    else if action == codes "stimuli_executed"
    then ok (some (TtReply.stimuli_executed coap_client user_assisted))
    else ok none

-- The one name of the reply's fields must be one that was asked for.
act_on : List Text → UiReply → Entry → Translator → Result (Option TtReply)
unfolding handle_action
act_on [] reply entry t = raised index_error
act_on (action ∷ []) reply entry t =
    if mem action entry.requested_fields
    then handle_action action (get_field_value_from_ui_reply reply.fields action)
        entry.tt_request_originator t
    else raised assertion_error
act_on (action ∷ another ∷ rest) reply entry t = raised exception

act_on_entry : Option Entry → UiReply → Translator → Result (Option TtReply)
unfolding act_on
act_on_entry none reply t = raised type_error
act_on_entry (some entry) reply t = act_on (get_field_keys_from_ui_reply reply.fields) reply entry t

popped : Option Entry × Table → UiReply → Translator → Result (Option TtReply) × Translator
unfolding act_on_entry
popped (entry, table) reply t =
    let t' = record t { pending_responses = table } in (act_on_entry entry reply t', t')

translate_with_id : Option Text → UiReply → Action Translator (Option TtReply)
unfolding popped
translate_with_id none reply t = (raised attribute_error, t)
translate_with_id (some correlation_id) reply t =
    popped (pop_pending_response correlation_id t.pending_responses) reply t

unfoldable pub translate_ui_to_tt_message : UiReply → Action Translator (Option TtReply)
unfolding translate_with_id
translate_ui_to_tt_message reply t = translate_with_id reply.correlation_id reply t
