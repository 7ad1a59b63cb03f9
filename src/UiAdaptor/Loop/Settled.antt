-- ===== src/UiAdaptor/Loop/Settled.antt =====
-- The sizes of the queues that the main loop of ioppytest/ui_adaptor/__main__.py fills and empties.
use ioppytest.Prelude.Actions
use ioppytest.Prelude.Actions.{Action, ◌>>=◌, ◌>>◌}
use ioppytest.Prelude.{
  ℕ, ◌+◌, ◌≤◌, ◌≡◌, refl, arith, List, [], ◌∷◌, length, Text, Result, ok, raised, ap,
}
use ioppytest.UiAdaptor.Messages.{TtMessage, UiMessage, UiReply}
use ioppytest.UiAdaptor.Routing.{users_to_notify}
use ioppytest.UiAdaptor.Exchange.{
  Adaptor, process_message_from_testing_tool, process_message_from_ui,
}
use ioppytest.UiAdaptor.Exchange.Grows.{Grows, from_tt-Grows, from_ui-Grows}
use ioppytest.UiAdaptor.Loop.{
  Loop, Making, on_adaptor, publish_displays, publish_request, take_request, publish_next_request,
  publish_chained, take_from_tt, process_next_from_tt, take_from_ui, process_next_from_ui, round,
  arrive, run,
}

-- At most so many displays, requests and messages for the testing tool are queued.
abbrev pub Sized : (displays requests replies : ℕ) → Loop → Type 0
Sized d r t l =
    (length l.adaptor.display_to_ui ≤ d)
    × (length l.adaptor.request_to_ui ≤ r)
    × (length l.adaptor.to_tt ≤ t)

-- What a part of a round ends with: these sizes, or, where it raises, those of the worst moment.
abbrev pub Ends : (displays requests replies : ℕ) → Result (Unit {0}) × Loop → Type 0
Ends d r t (ok u, l) = Sized d r t l
Ends d r t (raised e, l) = Sized 2 1 1 l

then_Ends :
    (d r t d' r' t' : ℕ) (f : Action Loop (Unit {0})) (p : Result (Unit {0}) × Loop)
    → ((l : Loop) → Sized d r t l → Ends d' r' t' (f l))
    → Ends d r t p
    → Ends d' r' t' (Actions.after (λ _. f) p)
then_Ends d r t d' r' t' f (ok u, l) h k = h l k
then_Ends d r t d' r' t' f (raised e, l) h k = k

-- A step of the adaptor that adds to the queues.
stepped :
    (d r t n m k : ℕ) (l : Loop) (p : Result (Unit {0}) × Adaptor)
    → (d + n ≤ 2)
    → (r + m ≤ 1)
    → (t + k ≤ 1)
    → Sized d r t l
    → Grows n m k l.adaptor p.1
    → Ends (d + n) (r + m) (t + k) (on_adaptor p l)
unfolding on_adaptor
stepped d r t n m k l (ok u, a) x y z (b, c, e) (f, g, h) =
    (omega (arith, b, f), omega (arith, c, g), omega (arith, e, h))
stepped d r t n m k l (raised q, a) x y z (b, c, e) (f, g, h) =
    (omega (arith, b, f), omega (arith, c, g), omega (arith, e, h))

displays_published : (l : Loop) → Sized 2 1 0 l → Ends 0 1 0 (publish_displays l)
unfolding publish_displays
displays_published l (p, q, s) = (omega arith, q, s)

request_published :
    (m : UiMessage) (users : Result (List Text)) (l : Loop)
    → Sized 0 0 0 l
    → Ends 0 0 0 (publish_request m users l)
unfolding publish_request
request_published m (ok users) l (p, q, s) = (p, q, s)
request_published m (raised e) l (p, q, s) = (omega (arith, p), omega (arith, q), omega (arith, s))

next_published :
    (queue : List UiMessage) (l : Loop)
    → l.adaptor.request_to_ui ≡ queue
    → Sized 0 1 0 l
    → Ends 0 0 0 (take_request queue l)
unfolding take_request
next_published [] l e (p, q, s) = (p, omega (arith, ap length e), s)
next_published (m ∷ rest) l e (p, q, s) =
    request_published m (users_to_notify m.routing_key l.adaptor.users)
      (record l { adaptor = record l.adaptor { request_to_ui = rest } })
      (p, omega (arith, ap length e, q), s)

module _ (making : Making) where
  tt_processed :
      (queue : List TtMessage) (l : Loop) → Sized 1 0 0 l → Ends 2 1 0 (take_from_tt making queue l)
  unfolding take_from_tt
  tt_processed [] l (p, q, s) = (omega (arith, p), omega (arith, q), s)
  tt_processed (m ∷ rest) l h =
      stepped 1 0 0 1 1 0 (record l { from_tt = rest })
        (process_message_from_testing_tool making.render (making.fresh m) m l.adaptor) (omega arith)
        (omega arith) (omega arith) h (from_tt-Grows making.render (making.fresh m) m l.adaptor)

  ui_processed :
      (queue : List UiReply) (l : Loop) → Sized 0 0 0 l → Ends 1 0 1 (take_from_ui making queue l)
  unfolding take_from_ui
  ui_processed [] l (p, q, s) = (omega (arith, p), q, omega (arith, s))
  ui_processed (m ∷ rest) l h =
      stepped 0 0 0 1 0 1 (record l { from_ui = rest })
        (process_message_from_ui (making.fresh_echo m) (making.shown m) m l.adaptor) (omega arith)
        (omega arith) (omega arith) h
        (from_ui-Grows (making.fresh_echo m) (making.shown m) m l.adaptor)

  chained_published : (l : Loop) → Sized 1 0 1 l → Ends 1 0 0 (publish_chained l)
  unfolding publish_chained
  chained_published l (p, q, s) = (p, q, omega arith)

  round-Ends : (l : Loop) → Sized 1 0 0 l → Ends 1 0 0 (round making l)
  unfolding round process_next_from_tt publish_next_request process_next_from_ui
  round-Ends l h =
      let a = process_next_from_tt making l in
      let b = Actions.after (λ _. publish_displays) a in
      let c = Actions.after (λ _. publish_next_request) b in
      let d = Actions.after (λ _. process_next_from_ui making) c in
      then_Ends 1 0 1 1 0 0 publish_chained d chained_published (
        then_Ends 0 0 0 1 0 1 (process_next_from_ui making) c (λ l. ui_processed l.from_ui l)
          (then_Ends 0 1 0 0 0 0 publish_next_request b
            (λ l. next_published l.adaptor.request_to_ui l refl)
            (then_Ends 2 1 0 0 1 0 publish_displays a displays_published
              (tt_processed l.from_tt l h))))

  -- Whatever arrives before each round of the loop, when at most one display and nothing else is
  -- queued at first, so it is after the last round, if every round returns; and where one raises,
  -- at most two displays, one request and one message for the testing tool are queued.
  pub run-Ends :
      (arrivals : List (List TtMessage × List UiReply)) (l : Loop)
      → Sized 1 0 0 l
      → Ends 1 0 0 (run making arrivals l)
  run-Ends [] l h = h
  run-Ends (arrived ∷ later) l h =
      then_Ends 1 0 0 1 0 0 (run making later) (round making (arrive making arrived l))
        (λ l. run-Ends later l) (round-Ends (arrive making arrived l) h)
