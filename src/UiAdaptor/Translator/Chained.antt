-- ===== src/UiAdaptor/Translator/Chained.antt =====
-- What the translation of a reply leaves, and the replies that the requests' own fields give.
use ioppytest.Prelude.{
  ◌≡◌, refl, true, [], ◌∷◌, Option, some, Text, lookup, remove, Dict, mem, set_union, set_add,
  text_eq_refl,
}
use ioppytest.UiAdaptor.Messages.{
  UiReply, UiMessage, Value, collect_keys, get_field_keys_from_ui_reply,
  get_field_value_from_ui_reply,
}
use ioppytest.UiAdaptor.Pending.{Entry, pop_pending_response}
use ioppytest.UiAdaptor.Translator.{
  Translator, translate_ui_to_tt_message, translate_with_id, popped, act_on_entry, act_on,
  handle_action, with_tags, tag_message,
}

-- The entry of the reply is gone, whatever the reply says.
pub translate-pending :
    (c : Text) (reply : UiReply) (t : Translator)
    → reply.correlation_id ≡ some c
    → (translate_ui_to_tt_message reply t).1.pending_responses ≡ remove c t.pending_responses
unfolding translate_ui_to_tt_message translate_with_id popped pop_pending_response
translate-pending c reply t e = rw e refl

-- A reply of one field.
abbrev pub one_field : Text → Text → Value → UiReply
one_field c name v = record { correlation_id = some c; fields = ((name, v) ∷ []) ∷ [] }

-- Tagging leaves the key, the correlation id and the fields.
pub record SameRequest (m m' : UiMessage) : Type 0 where
  pub routing_key : m'.routing_key ≡ m.routing_key
  pub correlation_id : m'.correlation_id ≡ m.correlation_id
  pub fields : m'.fields ≡ m.fields

with_tags-SameRequest :
    (tc : Option Text) (tags : Dict Text) (m : UiMessage) → SameRequest m (with_tags tc tags m)
unfolding with_tags
with_tags-SameRequest tc [] m = record { routing_key = refl; correlation_id = refl; fields = refl }
with_tags-SameRequest tc (tag ∷ tags) m = record {
  routing_key = refl;
  correlation_id = refl;
  fields = refl;
}

pub tag_message-SameRequest : (m : UiMessage) (t : Translator) → SameRequest m (tag_message m t)
unfolding tag_message
tag_message-SameRequest m t = with_tags-SameRequest t.current_tc m.tags m

at_itself : (name : Text) (v : Value) → lookup name ((name, v) ∷ []) ≡ some v
unfolding lookup
at_itself name v = rw (text_eq_refl name) refl

value_one :
    (name : Text) (v : Value) → get_field_value_from_ui_reply (((name, v) ∷ []) ∷ []) name ≡ some v
unfolding get_field_value_from_ui_reply
value_one name v = rw (one_entry, get_field_value_from_ui_reply) refl
  where
    one_entry : lookup name ((name, v) ∷ []) ≡ some v
    one_entry = at_itself name v

-- A reply of one field, to a request that is pending and asked for that field, gives what the
-- handler of the field gives.
pub translate_one :
    (c name : Text) (v : Value) (e : Entry) (t : Translator)
    → lookup c t.pending_responses ≡ some e
    → mem name e.requested_fields ≡ true
    → let t' = record t { pending_responses = remove c t.pending_responses } in
      translate_ui_to_tt_message (one_field c name v) t
      ≡ (handle_action name (some v) e.tt_request_originator t', t')
unfolding translate_ui_to_tt_message translate_with_id popped pop_pending_response act_on_entry
    act_on get_field_keys_from_ui_reply collect_keys set_union set_add mem
translate_one c name v e t at asked = rw at (rw (value_one name v) (rw asked refl))
