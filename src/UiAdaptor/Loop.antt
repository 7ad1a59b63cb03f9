-- ===== src/UiAdaptor/Loop.antt =====
-- The main loop of ioppytest/ui_adaptor/__main__.py: what the threads put into the queues of
-- received messages comes as an argument of each round. A queue is a list; that the bound of the
-- source's queues is not reached by the loop itself is shown in Settled. The search for new users,
-- every 500 rounds, and the log are left out, and publishing does not fail.
pub mod Settled
use ioppytest.Prelude.Actions
use ioppytest.Prelude.Actions.{Action, ◌>>=◌, ◌>>◌}
use ioppytest.Prelude.{List, [], ◌∷◌, ◌++◌, Option, none, some, Text, Result, ok, raised, map}
use ioppytest.UiAdaptor.Messages.{TtMessage, UiMessage, Fresh, UiReply, TtReply}
use ioppytest.UiAdaptor.Translator.{Translator}
use ioppytest.UiAdaptor.Routing.{users_to_notify}
use ioppytest.UiAdaptor.Exchange.{
  Adaptor, process_message_from_testing_tool, process_message_from_ui,
}

-- What the adaptor publishes: a display, the notice to a user that another's reply is awaited, a
-- request, and the message for the testing tool that a reply became.
pub data Published : Type 0 where
  display request : UiMessage → Published
  notice : (user : Text) → Published
  chained : TtReply → Published

-- The adaptor with the queues of received messages, and what was published, in order.
pub record Loop : Type 0 where
  pub adaptor : Adaptor
  pub from_tt : List TtMessage
  pub from_ui : List UiReply
  pub published : List Published

-- A step of the adaptor within the loop.
unfoldable pub on_adaptor : {A : Type 0} → Result A × Adaptor → Loop → Result A × Loop
on_adaptor (r, a) l = (r, record l { adaptor = a })

unfoldable pub publish_displays : Action Loop (Unit {0})
publish_displays l = (
  ok tt,
  record l {
    adaptor = record l.adaptor { display_to_ui = [] };
    published = l.published ++ map display l.adaptor.display_to_ui;
  },
)

-- `publish_ui_request`, of the request that is taken from the queue.
publish_request : UiMessage → Result (List Text) → Action Loop (Unit {0})
publish_request m (raised e) l = (raised e, l)
publish_request m (ok users) l =
    (ok tt, record l { published = l.published ++ (map notice users ++ (request m ∷ [])) })

take_request : List UiMessage → Action Loop (Unit {0})
unfolding publish_request
take_request [] l = (ok tt, l)
take_request (m ∷ rest) l =
    publish_request m (users_to_notify m.routing_key l.adaptor.users)
      (record l { adaptor = record l.adaptor { request_to_ui = rest } })

unfoldable pub publish_next_request : Action Loop (Unit {0})
unfolding take_request
publish_next_request l = take_request l.adaptor.request_to_ui l

unfoldable pub publish_chained : Action Loop (Unit {0})
publish_chained l = (
  ok tt,
  record l {
    adaptor = record l.adaptor { to_tt = [] };
    published = l.published ++ map chained l.adaptor.to_tt;
  },
)

-- The messages that the package makes, the text of a reply's fields, and the rendering of a message.
pub record Making : Type 0 where
  pub fresh : TtMessage → Fresh
  pub fresh_echo : UiReply → Fresh
  pub shown : UiReply → Text
  pub render : TtMessage → Translator → Option UiMessage

module _ (making : Making) where
  take_from_tt : List TtMessage → Action Loop (Unit {0})
  unfolding on_adaptor
  take_from_tt [] l = (ok tt, l)
  take_from_tt (m ∷ rest) l =
      on_adaptor (process_message_from_testing_tool making.render (making.fresh m) m l.adaptor)
        (record l { from_tt = rest })

  unfoldable pub process_next_from_tt : Action Loop (Unit {0})
  unfolding take_from_tt
  process_next_from_tt l = take_from_tt l.from_tt l

  take_from_ui : List UiReply → Action Loop (Unit {0})
  unfolding on_adaptor
  take_from_ui [] l = (ok tt, l)
  take_from_ui (m ∷ rest) l =
      on_adaptor (process_message_from_ui (making.fresh_echo m) (making.shown m) m l.adaptor)
        (record l { from_ui = rest })

  unfoldable pub process_next_from_ui : Action Loop (Unit {0})
  unfolding take_from_ui
  process_next_from_ui l = take_from_ui l.from_ui l

  -- The body of the loop.
  unfoldable pub round : Action Loop (Unit {0})
  round =
      process_next_from_tt >> publish_displays >> publish_next_request >> process_next_from_ui
      >> publish_chained

  -- What arrives before a round.
  abbrev pub arrive : List TtMessage × List UiReply → Loop → Loop
  arrive (tt_messages, replies) l = record l {
    from_tt = l.from_tt ++ tt_messages;
    from_ui = l.from_ui ++ replies;
  }

  -- The loop, until a round raises.
  abbrev pub run : List (List TtMessage × List UiReply) → Action Loop (Unit {0})
  run [] l = (ok tt, l)
  run (arrivals ∷ later) l = Actions.after (λ _. run later) (round (arrive arrivals l))
