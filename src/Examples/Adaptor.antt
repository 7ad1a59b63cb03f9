-- ===== src/Examples/Adaptor.antt =====
-- The start and the loop of the adaptor of the user interface, and its VPN, on small sessions.
use ioppytest.Prelude.{
  ◌≡◌, refl, arith, true, [], ◌∷◌, List, none, some, Text, codes, text_eq, mem, ok, has_code,
  starts_with,
}
use ioppytest.UiAdaptor.Messages.{UiMessage}
use ioppytest.UiAdaptor.Routing.{update_ui_message_rkeys}
use ioppytest.UiAdaptor.Loop.{Loop, Making, run}
use ioppytest.UiAdaptor.Loop.Settled.{Ends, run-Ends}
use ioppytest.UiAdaptor.Startup.{
  ConfigurationReply, start, ui_reply_topics, get_session_configuration_from_ui, keys_to_validate,
}
use ioppytest.UiAdaptor.Startup.Subscribed.{reply-Subscribed}
use ioppytest.UiAdaptor.Vpn
use ioppytest.UiAdaptor.Vpn.{Row, TunStarted, cmd_agent_example, sender}
use ioppytest.UiAdaptor.Vpn.Offered.{Offers, join, join-Offers}
use ioppytest.Examples.Ui.{users, adaptor, ready, fresh, reply, display}

abbrev making : Making
making = record {
  fresh = λ m. fresh;
  fresh_echo = λ r. fresh;
  shown = λ r. codes "ok";
  render = λ m t. some display;
}

abbrev at_rest : Loop
at_rest = record { adaptor = adaptor; from_tt = []; from_ui = []; published = [] }

-- A message of the testing tool and a reply arrive, and then nothing.
run-Ends_example : Ends 1 0 0 (run making ((ready ∷ [], reply ∷ []) ∷ ([], []) ∷ []) at_rest)
run-Ends_example =
    run-Ends making ((ready ∷ [], reply ∷ []) ∷ ([], []) ∷ []) at_rest
      (omega arith, omega arith, omega arith)

abbrev whole_reply : ConfigurationReply
whole_reply = record { ok_field = none; reply_keys = keys_to_validate }

abbrev question : UiMessage
question = record display {
  routing_key = codes "ui.user.all.request";
  reply_to = some (codes "ui.user.all.reply");
}

reply-Subscribed_example :
    (m : UiMessage) × (topic : Text) × (update_ui_message_rkeys question (some ready) none users
      ≡ ok m)
    × (m.reply_to ≡ some topic)
    × (mem topic (codes "ui.user.all.reply" ∷ codes "ui.user.alice.reply" ∷ []) ≡ true)
unfolding has_code starts_with start get_session_configuration_from_ui ui_reply_topics mem text_eq
reply-Subscribed_example =
    reply-Subscribed (ok tt) (ok tt) (codes "coap") (ok (some whole_reply)) (ok users) users
      (codes "ui.user.all.reply" ∷ codes "ui.user.alice.reply" ∷ []) question (some ready)
      (codes "ui.user.all.reply") refl ((refl, refl), tt) refl refl

abbrev things : List (Text × Text × Text)
things = (codes "thing1", codes "bbbb", codes "1") ∷ (codes "thing2", codes "bbbb", codes "2") ∷ []

abbrev started : TunStarted
started = record {
  name = some (codes "thing1");
  prefix = some (codes "bbbb");
  host = some (codes "1");
}

join-Offers_example :
    let agents = (join (λ rows. []) (λ t. []) ((7, started) ∷ []) (Vpn.init things 0)).vpn_agents in
    Offers (codes "thing1" ∷ []) agents (cmd_agent_example agents)
join-Offers_example = join-Offers (λ rows. []) (λ t. []) things 0 ((7, started) ∷ [])
