-- ===== src/UiAdaptor/Exchange/Grows.antt =====
-- What the processing of one message of ioppytest/ui_adaptor/__main__.py adds to the queues.
use ioppytest.Prelude.Actions
use ioppytest.Prelude.Actions.{◌>>=◌}
use ioppytest.Prelude.{
  ℕ, ◌+◌, ◌≤◌, arith, [], ◌∷◌, ◌++◌, length, length-append, Option, none, some, Text, codes, Result,
  ok, raised, Bool-cases, inl, inr,
}
use ioppytest.UiAdaptor.Messages.{TtMessage, UiMessage, Fresh, UiReply, TtReply}
use ioppytest.UiAdaptor.Pending.{is_pending_response}
use ioppytest.UiAdaptor.Translator.{
  Translator, get_ui_request_action_message, tag_message, update_state, translate_ui_to_tt_message,
}
use ioppytest.UiAdaptor.Routing.{update_ui_message_rkeys}
use ioppytest.UiAdaptor.Exchange.{
  Adaptor, echo, display, put_display, is_echoed, translate_tt_to_ui_message, request_input, ask,
  queue_request, process_message_from_testing_tool, process_message_from_ui, answer, forward,
  translated, echo_of,
}

-- At most so many more displays, requests and messages for the testing tool.
abbrev pub Grows : (displays requests replies : ℕ) → Adaptor → Adaptor → Type 0
Grows d r t a a' =
    (length a'.display_to_ui ≤ length a.display_to_ui + d)
    × (length a'.request_to_ui ≤ length a.request_to_ui + r)
    × (length a'.to_tt ≤ length a.to_tt + t)

no_more : (a : Adaptor) → Grows 0 0 0 a a
no_more a = (omega arith, omega arith, omega arith)

weaker : (d r t : ℕ) (a a' : Adaptor) → Grows 0 0 0 a a' → Grows d r t a a'
weaker d r t a a' (p, q, s) = (omega (arith, p), omega (arith, q), omega (arith, s))

put_display-Grows : (m : UiMessage) (a : Adaptor) → Grows 1 0 0 a (put_display m a).1
unfolding put_display
put_display-Grows m a =
    (omega (arith, length-append a.display_to_ui (m ∷ [])), omega arith, omega arith)

put_result-Grows :
    (r : Result UiMessage) (a : Adaptor) → Grows 1 0 0 a (Actions.after put_display (r, a)).1
put_result-Grows (ok m) a = put_display-Grows m a
put_result-Grows (raised e) a = weaker 1 0 0 a a (no_more a)

display-Grows :
    (m : TtMessage) (o : Option UiMessage) (a : Adaptor) → Grows 1 0 0 a (display m o a).1
unfolding display
display-Grows m none a = weaker 1 0 0 a a (no_more a)
display-Grows m (some ui) a = put_result-Grows (update_ui_message_rkeys ui (some m) none a.users) a

shown-Grows :
    (m : TtMessage) (r : Result (Option UiMessage)) (a : Adaptor)
    → Grows 1 0 0 a (Actions.after (display m) (r, a)).1
shown-Grows m (ok o) a = display-Grows m o a
shown-Grows m (raised e) a = weaker 1 0 0 a a (no_more a)

echo-Grows :
    (render : TtMessage → Translator → Option UiMessage) (m : TtMessage) (a : Adaptor)
    → Grows 1 0 0 a (echo render m a).1
unfolding echo
echo-Grows render m a = elim (Bool-cases (is_echoed m.kind)) [
  | inl h ↦ rw h (shown-Grows m (translate_tt_to_ui_message render m a.translator) a)
  | inr h ↦ rw h (weaker 1 0 0 a a (no_more a))
]

queue-Grows :
    (m : TtMessage) (r : Result UiMessage) (a : Adaptor)
    → Grows 0 1 0 a (Actions.after (queue_request m) (r, a)).1
unfolding queue_request
queue-Grows m (ok ui) a =
    (omega arith, omega (arith, length-append a.request_to_ui (ui ∷ [])), omega arith)
queue-Grows m (raised e) a = weaker 0 1 0 a a (no_more a)

ask-Grows : (m : TtMessage) (o : Option UiMessage) (a : Adaptor) → Grows 0 1 0 a (ask m o a).1
unfolding ask
ask-Grows m none a = weaker 0 1 0 a a (no_more a)
ask-Grows m (some ui) a =
    queue-Grows m (update_ui_message_rkeys (tag_message ui a.translator) (some m) none a.users) a

after_echo :
    (fresh : Fresh) (m : TtMessage) (a b : Adaptor) (r : Result (Unit {0}))
    → Grows 1 0 0 a b
    → Grows 1 1 0 a (Actions.after (λ _. request_input fresh m) (r, b)).1
unfolding request_input
after_echo fresh m a b (ok u) (p, q, s) =
    let (p', q', s') = ask-Grows m (get_ui_request_action_message fresh m b.translator) b in
    (omega (arith, p, p'), omega (arith, q, q'), omega (arith, s, s'))
after_echo fresh m a b (raised e) (p, q, s) = (omega (arith, p), omega (arith, q), omega (arith, s))

-- A message of the testing tool adds at most one display and one request.
pub from_tt-Grows :
    (render : TtMessage → Translator → Option UiMessage) (fresh : Fresh) (m : TtMessage)
    (a : Adaptor)
    → Grows 1 1 0 a (process_message_from_testing_tool render fresh m a).1
unfolding process_message_from_testing_tool
from_tt-Grows render fresh m a =
    let b : Adaptor = record a { translator = update_state m a.translator } in
    after_echo fresh m a (echo render m b).1 (echo render m b).0 (echo-Grows render m b)

forward-Grows : (o : Option TtReply) (a : Adaptor) → Grows 0 0 1 a (forward o a).1
unfolding forward
forward-Grows none a = weaker 0 0 1 a a (no_more a)
forward-Grows (some reply) a =
    (omega arith, omega arith, omega (arith, length-append a.to_tt (reply ∷ [])))

forwarded-Grows :
    (p : Result (Option TtReply) × Translator) (a : Adaptor)
    → Grows 0 0 1 a (Actions.after forward (translated a p)).1
unfolding translated
forwarded-Grows (ok o, t) a = forward-Grows o (record a { translator = t })
forwarded-Grows (raised e, t) a = (omega arith, omega arith, omega arith)

answer-Grows : (reply : UiReply) (a : Adaptor) → Grows 0 0 1 a (answer reply a).1
unfolding answer
answer-Grows reply a =
    elim (Bool-cases (is_pending_response reply.correlation_id a.translator.pending_responses)) [
      | inl h ↦ rw h (forwarded-Grows (translate_ui_to_tt_message reply a.translator) a)
      | inr h ↦ rw h (weaker 0 0 1 a a (no_more a))
    ]

-- A reply of a user adds one display, and at most one message for the testing tool.
pub from_ui-Grows :
    (fresh : Fresh) (shown : Text) (reply : UiReply) (a : Adaptor)
    → Grows 1 0 1 a (process_message_from_ui fresh shown reply a).1
unfolding process_message_from_ui put_display
from_ui-Grows fresh shown reply a =
    let b : Adaptor =
      (put_display (echo_of fresh (codes "User replied to request: " ++ shown)) a).1 in
    let (p, q, s) =
      put_display-Grows (echo_of fresh (codes "User replied to request: " ++ shown)) a in
    let (p', q', s') = answer-Grows reply b in
    (omega (arith, p, p'), omega (arith, q, q'), omega (arith, s, s'))
