-- ===== src/UiAdaptor/Exchange/Choices.antt =====
-- A whole exchange: the testing tool's message becomes a request, and the user's choice among its
-- fields becomes the message that goes back.
use ioppytest.Prelude.{
  ◌≡◌, refl, sym, ap, ◌∙◌, subst, Bool, true, false, [], ◌∷◌, ◌++◌, Option, none, some, Text, codes,
  text_eq, text_eq_refl, has_code, lookup, contains, insert, remove, lookup-insert, mem, ok,
}
use ioppytest.UiAdaptor.Messages.{
  Kind, TtMessage, Value, UiMessage, Fresh, TtReply, get_field_keys_from_ui_request,
}
use ioppytest.UiAdaptor.Pending.{Table, Entry, is_pending_response, add_pending_response}
use ioppytest.UiAdaptor.Translator
use ioppytest.UiAdaptor.Translator.{
  Translator, tag_message, get_ui_request_action_message, handle_action, translate_ui_to_tt_message,
  coap_client, user_assisted,
}
use ioppytest.UiAdaptor.Translator.Chained.{one_field, translate_one, tag_message-SameRequest}
use ioppytest.UiAdaptor.Routing.{addressed, destination}
use ioppytest.UiAdaptor.Routing.Addressed.{for_all, for_user, update_ui_message_rkeys_lem}
use ioppytest.UiAdaptor.Exchange.{
  Adaptor, queue_request, ask, request_input, answer, forward, translated,
}

-- The choices that the request for a message leaves to the user: the name of the field, its value,
-- and the message that it means.
pub data Choice (m : TtMessage) (tc : Option Text) : Text → Value → TtReply → Type 0 where
  start :
      (v : Value)
      → m.kind ≡ Kind.testcase_ready
      → Choice m tc (codes "tc_start") v (TtReply.testcase_start tc)
  skip :
      (v : Value) (id : Option Text)
      → m.kind ≡ Kind.testcase_ready
      → m.testcase_id ≡ some id
      → Choice m tc (codes "tc_skip") v (TtReply.testcase_skip id)
  stimuli :
      (v : Value)
      → m.kind ≡ Kind.step_stimuli_execute
      → Choice m tc
          (codes "stimuli_executed")
          v
          (TtReply.stimuli_executed coap_client user_assisted)
  verify :
      (b : Bool)
      → m.kind ≡ Kind.step_verify_execute
      → Choice m tc (codes "verify_executed") (Value.flag b) (TtReply.verify_executed b)
  again :
      (id : Text)
      → m.kind ≡ Kind.testcase_verdict
      → Choice m tc (codes "restart_testcase") (Value.text id) (TtReply.testcase_select id)

-- The request of a message, as the translator builds it.
pub record Requests (fresh : Fresh) (name : Text) (o : Option UiMessage) : Type 0 where
  pub ui : UiMessage
  pub made : o ≡ some ui
  pub routing_key : ui.routing_key ≡ fresh.routing_key
  pub correlation_id : ui.correlation_id ≡ fresh.correlation_id
  pub asks : mem name (get_field_keys_from_ui_request ui.fields) ≡ true

made_for :
    (fresh : Fresh) (m : TtMessage) (t : Translator) (name : Text) (v : Value) (r : TtReply)
    → Choice m t.current_tc name v r
    → Requests fresh name (get_ui_request_action_message fresh m t)
unfolding get_ui_request_action_message Translator.ui_request_testcase_start
    Translator.ui_request_step_stimuli_executed Translator.ui_request_step_verification
    Translator.ui_request_testcase_restart get_field_keys_from_ui_request mem text_eq
    Translator.request
made_for fresh m t name v r (start _ k) = record {
  ui = Translator.ui_request_testcase_start fresh t;
  made = rw k refl;
  routing_key = refl;
  correlation_id = refl;
  asks = refl;
}
made_for fresh m t name v r (skip _ id k _) = record {
  ui = Translator.ui_request_testcase_start fresh t;
  made = rw k refl;
  routing_key = refl;
  correlation_id = refl;
  asks = refl;
}
made_for fresh m t name v r (stimuli _ k) = record {
  ui = Translator.ui_request_step_stimuli_executed fresh t;
  made = rw k refl;
  routing_key = refl;
  correlation_id = refl;
  asks = refl;
}
made_for fresh m t name v r (verify _ k) = record {
  ui = Translator.ui_request_step_verification fresh t;
  made = rw k refl;
  routing_key = refl;
  correlation_id = refl;
  asks = refl;
}
made_for fresh m t name v r (again _ k) = record {
  ui = Translator.ui_request_testcase_restart fresh t;
  made = rw k refl;
  routing_key = refl;
  correlation_id = refl;
  asks = refl;
}

handled :
    (m : TtMessage) (t : Translator) (name : Text) (v : Value) (r : TtReply)
    → Choice m t.current_tc name v r
    → handle_action name (some v) m t ≡ ok (some r)
unfolding handle_action Translator.get_tt_message_testcase_skip
    Translator.get_tt_message_step_verify_executed
    Translator.get_tt_message_testcase_restart_last_executed Translator.answered text_eq
handled m t name v r (start _ k) = refl
handled m t name v r (skip _ id k e) = rw e refl
handled m t name v r (stimuli _ k) = refl
handled m t name v r (verify b k) = refl
handled m t name v r (again id k) = refl

answer_lem :
    (c name : Text) (v : Value) (a : Adaptor) (t' : Translator) (r : TtReply)
    → contains c a.translator.pending_responses ≡ true
    → translate_ui_to_tt_message (one_field c name v) a.translator ≡ (ok (some r), t')
    → answer (one_field c name v) a
      ≡ (ok tt, record a { translator = t'; to_tt = a.to_tt ++ (r ∷ []) })
unfolding answer is_pending_response forward translated
answer_lem c name v a t' r p e = rw p (rw e refl)

found : (c d : Text) (e : Entry) (table : Table) → d ≡ c → lookup c (insert d e table) ≡ some e
found c d e table q = rw q (rw (lookup-insert c c e table, text_eq_refl c) refl)

contains_found :
    (c : Text) (table : Table) {e : Entry} → lookup c table ≡ some e → contains c table ≡ true
unfolding contains
contains_found c table h = rw h refl

abbrev entry : TtMessage → UiMessage → Entry
entry m ui = record {
  requested_fields = get_field_keys_from_ui_request ui.fields;
  ui_request_message = ui;
  tt_request_originator = m;
}

-- What a queued request gives, once it is answered by one of its fields.
answered_lem :
    (c name : Text) (v : Value) (m : TtMessage) (ui : UiMessage) (a : Adaptor) (r : TtReply)
    → Choice m a.translator.current_tc name v r
    → ui.correlation_id ≡ c
    → mem name (get_field_keys_from_ui_request ui.fields) ≡ true
    → let a' = (queue_request m ui a).1 in
      let p = answer (one_field c name v) a' in (p.0 ≡ ok tt) × (p.1.to_tt ≡ a.to_tt ++ (r ∷ []))
unfolding queue_request add_pending_response
answered_lem c name v m ui a r choice id asks =
    let a' = (queue_request m ui a).1 in
    let at = found c ui.correlation_id (entry m ui) a.translator.pending_responses id in
    let t' = record a'.translator {
      pending_responses = remove c a'.translator.pending_responses;
    } in
    let e =
      translate_one c name v (entry m ui) a'.translator at asks
      ∙ ap (λ h. (h, t')) (handled m t' name v r choice) in
    let q = answer_lem c name v a' t' r (contains_found c a'.translator.pending_responses at) e in
    (ap (λ p. p.0) q, ap (λ p. p.1.to_tt) q)

asked_lem :
    (fresh : Fresh) (last : Text) (m : TtMessage) (ui : UiMessage) (a : Adaptor)
    → get_ui_request_action_message fresh m a.translator ≡ some ui
    → ui.routing_key ≡ for_all last
    → has_code b'.' last ≡ false
    → has_code b'*' last ≡ false
    → request_input fresh m a
      ≡ queue_request m
          (addressed
            (for_user (destination (some m) none a.users) last)
            (tag_message ui a.translator))
          a
unfolding request_input ask
asked_lem fresh last m ui a made key dot star = rw made (
    rw
      (update_ui_message_rkeys_lem (tag_message ui a.translator) (some m) none a.users last
        ((tag_message-SameRequest ui a.translator).routing_key ∙ key) dot star)
      refl)

queued : (m : TtMessage) (ui : UiMessage) (a : Adaptor) → (queue_request m ui a).0 ≡ ok tt
unfolding queue_request
queued m ui a = refl

-- A message that wants an input of the user becomes a request, and the reply with any of the
-- choices that the request leaves becomes the one message for the testing tool that the choice
-- means. The key of a new request is one for all users.
pub exchange_lem :
    (fresh : Fresh) (last : Text) (m : TtMessage) (a : Adaptor) (name : Text) (v : Value)
    (r : TtReply)
    → fresh.routing_key ≡ for_all last
    → has_code b'.' last ≡ false
    → has_code b'*' last ≡ false
    → Choice m a.translator.current_tc name v r
    → let asked = request_input fresh m a in
      let replied = answer (one_field fresh.correlation_id name v) asked.1 in
      (asked.0 ≡ ok tt) × (replied.0 ≡ ok tt) × (replied.1.to_tt ≡ a.to_tt ++ (r ∷ []))
unfolding addressed
exchange_lem fresh last m a name v r key dot star choice =
    let q = made_for fresh m a.translator name v r choice in
    let same = tag_message-SameRequest q.ui a.translator in
    let ui =
      addressed (for_user (destination (some m) none a.users) last)
        (tag_message q.ui a.translator) in
    let done =
      answered_lem fresh.correlation_id name v m ui a r choice
        (same.correlation_id ∙ q.correlation_id)
        (ap (λ f. mem name (get_field_keys_from_ui_request f)) same.fields ∙ q.asks) in
    let e = asked_lem fresh last m q.ui a q.made (q.routing_key ∙ key) dot star in
    subst
      (λ asked.
        let replied = answer (one_field fresh.correlation_id name v) asked.1 in
        (asked.0 ≡ ok tt) × (replied.0 ≡ ok tt) × (replied.1.to_tt ≡ a.to_tt ++ (r ∷ [])))
      (sym e) (queued m ui a, done.0, done.1)
