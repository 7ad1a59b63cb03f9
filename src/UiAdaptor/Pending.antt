-- ===== src/UiAdaptor/Pending.antt =====
-- The table of the requests that the users have not yet answered.
use ioppytest.Prelude.{
  Bool, false, List, Option, none, some, Text, Dict, lookup, insert, remove, contains,
}
use ioppytest.UiAdaptor.Messages.{UiMessage, TtMessage}

-- The names of the fields asked for, the request, and the message that it came from.
pub record Entry : Type 0 where
  pub requested_fields : List Text
  pub ui_request_message : UiMessage
  pub tt_request_originator : TtMessage

abbrev pub Table : Type 0
Table = Dict Entry

-- An entry of the same correlation id is overwritten.
unfoldable pub add_pending_response : Text → Entry → Table → Table
add_pending_response corr_id entry pending_responses = insert corr_id entry pending_responses

unfoldable pub pop_pending_response : Text → Table → Option Entry × Table
pop_pending_response correlation_id pending_responses =
    (lookup correlation_id pending_responses, remove correlation_id pending_responses)

-- A message without a correlation id is no answer.
unfoldable pub is_pending_response : Option Text → Table → Bool
is_pending_response none pending_responses = false
is_pending_response (some correlation_id) pending_responses =
    contains correlation_id pending_responses
