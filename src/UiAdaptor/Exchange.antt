-- ===== src/UiAdaptor/Exchange.antt =====
-- The processing of the adaptor of ioppytest/ui_adaptor/__main__.py: a message of the testing tool
-- becomes a display and maybe a request, a reply of a user becomes a message for the testing tool.
-- A queue is a list; the bound of 100 of the source's queues is left out, and so is the rendering
-- of a message by its class, which is a parameter: what it displays, if anything.
pub mod Once
pub mod Choices
pub mod Grows
use ioppytest.Prelude.Actions
use ioppytest.Prelude.Actions.{Action, ◌>>=◌, ◌>>◌}
use ioppytest.Prelude.{
  ℕ, Bool, true, false, List, [], ◌∷◌, ◌++◌, length, Option, none, some, Text, codes, if◌then◌else◌,
  Result, ok, raised,
}
use ioppytest.UiAdaptor.Messages.{
  Kind, TtMessage, Value, Field, UiMessage, Fresh, UiReply, TtReply, paragraph,
  get_field_keys_from_ui_request,
}
use ioppytest.UiAdaptor.Pending.{Entry, add_pending_response, is_pending_response}
use ioppytest.UiAdaptor.Translator
use ioppytest.UiAdaptor.Translator.{
  Translator, update_state, tag_message, get_ui_request_action_message, translate_ui_to_tt_message,
}
use ioppytest.UiAdaptor.Truncate.{truncate_if_text_too_long}
use ioppytest.UiAdaptor.Routing.{Users, update_ui_message_rkeys}

-- The translator, the users, and the queues that the processing fills.
pub record Adaptor : Type 0 where
  pub translator : Translator
  pub users : Users
  pub display_to_ui : List UiMessage
  pub request_to_ui : List UiMessage
  pub to_tt : List TtReply

-- `MESSAGES_NOT_TO_BE_ECHOED`
unfoldable pub is_echoed : Kind → Bool
is_echoed Kind.sniffing_get_capture_reply = false
is_echoed Kind.sniffing_get_capture = false
is_echoed Kind.testsuite_start = false
is_echoed Kind.testcase_started = false
is_echoed Kind.session_log = false
is_echoed Kind.component_ready = false
is_echoed Kind.ui_request_session_configuration = false
is_echoed Kind.ui_session_configuration_reply = false
is_echoed Kind.agent_tun_start = false
is_echoed Kind.testing_tool_configured = false
is_echoed Kind.testsuite_get_testcases = false
is_echoed _ = true

put_display : UiMessage → Action Adaptor (Unit {0})
put_display m = Actions.modify (λ a. record a { display_to_ui = a.display_to_ui ++ (m ∷ []) })

-- The rendering of a message, tagged and truncated.
tagged : Option UiMessage → Translator → Result (Option UiMessage)
tagged none t = ok none
tagged (some m) t = elim (truncate_if_text_too_long (tag_message m t)) [
  | raised e ↦ raised e
  | ok m' ↦ ok (some m')
]

unfoldable pub translate_tt_to_ui_message :
    (TtMessage → Translator → Option UiMessage) → TtMessage → Translator → Result (Option UiMessage)
unfolding tagged
translate_tt_to_ui_message render m t = tagged (render m t) t

-- A display for the user of the message's node.
display : TtMessage → Option UiMessage → Action Adaptor (Unit {0})
unfolding put_display
display m none a = (ok tt, a)
display m (some ui) a =
    (Actions.asks (λ s. update_ui_message_rkeys ui (some m) none s.users) >>= put_display) a

unfoldable pub echo :
    (TtMessage → Translator → Option UiMessage) → TtMessage → Action Adaptor (Unit {0})
unfolding display
echo render m a =
    if is_echoed m.kind
    then (Actions.asks (λ s. translate_tt_to_ui_message render m s.translator) >>= display m) a
    else (ok tt, a)

-- The request is queued, and an entry is pending under its correlation id.
unfoldable pub queue_request : TtMessage → UiMessage → Action Adaptor (Unit {0})
queue_request m ui a = (
  ok tt,
  record a {
    request_to_ui = a.request_to_ui ++ (ui ∷ []);
    translator = record a.translator {
      pending_responses =
          add_pending_response ui.correlation_id
            (record {
              requested_fields = get_field_keys_from_ui_request ui.fields;
              ui_request_message = ui;
              tt_request_originator = m;
            })
            a.translator.pending_responses;
    };
  },
)

ask : TtMessage → Option UiMessage → Action Adaptor (Unit {0})
ask m none a = (ok tt, a)
ask m (some ui) a =
    (Actions.asks (λ s. update_ui_message_rkeys (tag_message ui s.translator) (some m) none s.users)
        >>= queue_request m)
      a

unfoldable pub request_input : Fresh → TtMessage → Action Adaptor (Unit {0})
unfolding ask
request_input fresh m a = ask m (get_ui_request_action_message fresh m a.translator) a

unfoldable pub process_message_from_testing_tool :
    (TtMessage → Translator → Option UiMessage) → Fresh → TtMessage → Action Adaptor (Unit {0})
process_message_from_testing_tool render fresh m =
    Actions.modify (λ a. record a { translator = update_state m a.translator })
    >> (echo render m >> request_input fresh m)

-- The new message of the echo of a reply, from what the package gives.
unfoldable pub echo_of : Fresh → Text → UiMessage
echo_of fresh text = record {
  routing_key = fresh.routing_key;
  reply_to = fresh.reply_to;
  correlation_id = fresh.correlation_id;
  title = none;
  level = none;
  tags = [];
  fields = paragraph text ∷ [];
}

forward : Option TtReply → Action Adaptor (Unit {0})
forward none a = (ok tt, a)
forward (some reply) a = (ok tt, record a { to_tt = a.to_tt ++ (reply ∷ []) })

-- A method of the translator.
translated : {A : Type 0} → Adaptor → Result A × Translator → Result A × Adaptor
translated a (r, t) = (r, record a { translator = t })

-- What follows the echo of a reply.
unfoldable pub answer : UiReply → Action Adaptor (Unit {0})
unfolding translated forward
answer reply a =
    if is_pending_response reply.correlation_id a.translator.pending_responses
    then ((λ s. translated s (translate_ui_to_tt_message reply s.translator)) >>= forward) a
    else (ok tt, a)

-- `shown` is the text of the reply's fields.
unfoldable pub process_message_from_ui : Fresh → Text → UiReply → Action Adaptor (Unit {0})
unfolding put_display echo_of
process_message_from_ui fresh shown reply =
    put_display (echo_of fresh (codes "User replied to request: " ++ shown)) >> answer reply
