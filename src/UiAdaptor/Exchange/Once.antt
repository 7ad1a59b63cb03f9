-- ===== src/UiAdaptor/Exchange/Once.antt =====
-- A request of the adaptor and the replies to it.
use ioppytest.Prelude.Actions
use ioppytest.Prelude.Actions.{◌>>=◌}
use ioppytest.Prelude.{
  ◌≡◌, refl, sym, ap, ◌∙◌, subst, inl, inr, true, false, Bool-cases, Option, none, some, Text,
  text_eq_refl, contains, remove, lookup-remove, Result, ok, raised, [], ◌∷◌, ◌++◌, codes,
}
use ioppytest.UiAdaptor.Messages.{UiReply, TtReply, Fresh}
use ioppytest.UiAdaptor.Pending.{Table, is_pending_response}
use ioppytest.UiAdaptor.Translator.{Translator, translate_ui_to_tt_message}
use ioppytest.UiAdaptor.Translator.Chained.{translate-pending}
use ioppytest.UiAdaptor.Exchange.{
  Adaptor, answer, forward, translated, process_message_from_ui, echo_of,
}

-- The table of the adaptor.
abbrev pub table : Adaptor → Table
table a = a.translator.pending_responses

forward-translator : (r : Option TtReply) (a : Adaptor) → (forward r a).1.translator ≡ a.translator
unfolding forward
forward-translator none a = refl
forward-translator (some r) a = refl

after_forward :
    (p : Result (Option TtReply) × Translator) (a : Adaptor)
    → (Actions.after forward (translated a p)).1.translator ≡ p.1
unfolding translated
after_forward (ok r, t) a = forward-translator r (record a { translator = t })
after_forward (raised e, t) a = refl

not_pending_lem :
    (reply : UiReply) (a : Adaptor)
    → is_pending_response reply.correlation_id (table a) ≡ false
    → answer reply a ≡ (ok tt, a)
unfolding answer
not_pending_lem reply a h = rw h refl

pending_lem :
    (reply : UiReply) (a : Adaptor)
    → is_pending_response reply.correlation_id (table a) ≡ true
    → (answer reply a).1.translator ≡ (translate_ui_to_tt_message reply a.translator).1
unfolding answer
pending_lem reply a h = rw h (after_forward (translate_ui_to_tt_message reply a.translator) a)

contains-remove : (c : Text) (t : Table) → contains c (remove c t) ≡ false
unfolding contains
contains-remove c t = rw (lookup-remove c c t, text_eq_refl c) refl

-- After a reply, nothing is pending under its correlation id.
no_more :
    (o : Option Text) (reply : UiReply) (a : Adaptor)
    → reply.correlation_id ≡ o
    → is_pending_response o (table (answer reply a).1) ≡ false
unfolding is_pending_response
no_more none reply a e = refl
no_more (some c) reply a e =
    elim (Bool-cases (is_pending_response reply.correlation_id (table a))) [
      | inl h ↦
          ap (contains c) (
            ap (λ t. t.pending_responses) (pending_lem reply a h)
            ∙ translate-pending c reply a.translator e)
          ∙ contains-remove c (table a)
      | inr h ↦
          let keep = ap (λ p. contains c (table p.1)) (not_pending_lem reply a h) in
          keep ∙ subst (λ x. is_pending_response x (table a) ≡ false) e h
    ]

answer_again :
    (reply again : UiReply) (a : Adaptor)
    → again.correlation_id ≡ reply.correlation_id
    → is_pending_response again.correlation_id (table (answer reply a).1) ≡ false
answer_again reply again a e =
    subst (λ o. is_pending_response o (table (answer reply a).1) ≡ false) (sym e)
      (no_more reply.correlation_id reply a refl)

-- A reply that is not waited for is only echoed.
echoed_lem :
    (fresh : Fresh) (shown : Text) (reply : UiReply) (a : Adaptor)
    → is_pending_response reply.correlation_id (table a) ≡ false
    → process_message_from_ui fresh shown reply a ≡ (
      ok tt,
      record a {
        display_to_ui =
            a.display_to_ui ++ (echo_of fresh (codes "User replied to request: " ++ shown) ∷ []);
      },
    )
unfolding process_message_from_ui
echoed_lem fresh shown reply a h = not_pending_lem reply _ h

-- A request is answered at most once: after the processing of a reply, whatever became of it, that
-- of another reply of the same correlation id does nothing but queue the echo of the reply, for
-- all users. It gives no message for the testing tool.
pub answer_once :
    (fresh fresh' : Fresh) (shown shown' : Text) (reply again : UiReply) (a : Adaptor)
    → again.correlation_id ≡ reply.correlation_id
    → let a' = (process_message_from_ui fresh shown reply a).1 in
      process_message_from_ui fresh' shown' again a' ≡ (
        ok tt,
        record a' {
          display_to_ui =
              a'.display_to_ui
              ++ (echo_of fresh' (codes "User replied to request: " ++ shown') ∷ []);
        },
      )
unfolding process_message_from_ui
answer_once fresh fresh' shown shown' reply again a e =
    let m = echo_of fresh (codes "User replied to request: " ++ shown) in
    echoed_lem fresh' shown' again (process_message_from_ui fresh shown reply a).1
      (answer_again reply again (record a { display_to_ui = a.display_to_ui ++ (m ∷ []) }) e)
