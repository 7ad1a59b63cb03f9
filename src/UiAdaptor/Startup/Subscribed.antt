-- ===== src/UiAdaptor/Startup/Subscribed.antt =====
-- The adaptor is subscribed to the replies to its requests: ioppytest/ui_adaptor/__main__.py.
use ioppytest.Prelude.{
  ℕ, zero, ◌≡◌, ◌⊎◌, inl, inr, subst, refl, sym, ap, ◌∙◌, arith, Bool, true, false, ◌||◌, List, [],
  ◌∷◌, ◌++◌, map, Option, none, some, Text, codes, ◌==◌, text_eq, text_eq_refl, text_eq_iff,
  has_code, starts_with, nat_eq_iff, replace, replace_from, mem, lookup, values, All, ok, Result,
  raised, Exn, if◌then◌else◌, Bool-cases,
}
use ioppytest.UiAdaptor.Messages.{Attribute, TtMessage, UiMessage}
use ioppytest.UiAdaptor.Routing.{
  Users, everyone, destination, user_of_node, node_of, get_user_id_from_node,
  update_ui_message_rkeys, addressed, reply_key,
}
use ioppytest.UiAdaptor.Routing.Addressed.{for_user, update_ui_message_rkeys_lem}
use ioppytest.UiAdaptor.Startup.{
  ui_reply_topics, reply_topic, ConfigurationReply, Outcome, Handler, start, start_session,
  start_with, session_raised, configured, bootstrapped, is_timeout, handler,
  get_session_configuration_from_ui,
}

-- A word without the first character of `old` is passed over, if no match of `old` starts in it.
replace_from-word :
    (c : ℕ) (old new w s : Text)
    → has_code c w ≡ false
    → replace_from (c ∷ old) new zero (w ++ s) ≡ w ++ replace_from (c ∷ old) new zero s
unfolding replace_from has_code starts_with
replace_from-word c old new [] s h = refl
replace_from-word c old new (e ∷ w) s h =
    ground (arith, nat_eq_iff c e, replace_from-word c old new w s)

-- A prefix without a character ends before it.
starts_with-append :
    (c : ℕ) (p w s : Text) → has_code c p ≡ false → starts_with p (w ++ (c ∷ s)) ≡ starts_with p w
unfolding starts_with has_code
starts_with-append c [] w s h = refl
starts_with-append c (d ∷ p) [] s h = ground (arith, nat_eq_iff c d, nat_eq_iff d c)
starts_with-append c (d ∷ p) (e ∷ w) s h = ground (arith, starts_with-append c p w s)

-- The name of a user in a key: one word, which is not taken for the end of the key.
abbrev pub IsName : Text → Type 0
IsName user = (has_code b'.' user ≡ false) × (starts_with (codes "request") user ≡ false)

reply_key_lem :
    (user : Text)
    → IsName user
    → replace (codes ".request") (codes ".reply") (for_user user (codes "request"))
      ≡ reply_topic user
unfolding replace replace_from starts_with has_code
reply_key_lem user (d, n) =
    let m : starts_with (codes "request") (user ++ codes ".request") ≡ false =
      starts_with-append b'.' (codes "request") user (codes "request") refl ∙ n in
    rw m (
      ap (λ t. codes "ui.user." ++ t)
        (replace_from-word b'.' (codes "request") (codes ".reply") user (codes ".request") d))

-- A user whose replies the adaptor is subscribed to.
record Heard (mapping : Users) (user : Text) : Type 0 where
  pub named : IsName user
  pub heard : mem (reply_topic user) (ui_reply_topics mapping) ≡ true

mem-value :
    (node : Text) (mapping : Users) {user : Text}
    → lookup node mapping ≡ some user
    → mem user (values mapping) ≡ true
unfolding lookup mem
mem-value node [] e = cc e
mem-value node ((k, v) ∷ mapping) {user} e =
    ground (arith, text_eq_refl user, mem-value node mapping {user = user})

head_or_tail : (a b : Bool) → (a || b) ≡ true → (a ≡ true) ⊎ (b ≡ true)
head_or_tail true b h = inl refl
head_or_tail false b h = inr h

mem-IsName :
    (user : Text) (users : List Text) → All IsName users → mem user users ≡ true → IsName user
unfolding mem
mem-IsName user [] h m = ground arith
mem-IsName user (v ∷ users) (n, h) m = elim (head_or_tail (user == v) (mem user users) m) [
  | inl e ↦ subst IsName (sym ((text_eq_iff user v).0 e)) n
  | inr e ↦ mem-IsName user users h e
]

or_later : (a : Bool) {b : Bool} → b ≡ true → (a || b) ≡ true
or_later true h = refl
or_later false h = h

mem-topic :
    (user : Text) (users : List Text)
    → mem user users ≡ true
    → mem (reply_topic user) (map reply_topic users) ≡ true
unfolding mem
mem-topic user [] m = m
mem-topic user (v ∷ users) m = elim (head_or_tail (user == v) (mem user users) m) [
  | inl e ↦
      let p =
        (text_eq_iff (reply_topic user) (reply_topic v)).1
          (ap reply_topic ((text_eq_iff user v).0 e)) in
      rw p refl
  | inr e ↦ or_later (reply_topic user == reply_topic v) (mem-topic user users e)
]

everyone-Heard : (mapping : Users) → Heard mapping everyone
unfolding ui_reply_topics mem text_eq has_code starts_with
everyone-Heard mapping = record { named = (refl, refl); heard = refl }

value-Heard :
    (mapping : Users) (user : Text)
    → All IsName (values mapping)
    → mem user (values mapping) ≡ true
    → Heard mapping user
unfolding ui_reply_topics mem
value-Heard mapping user h m = record {
  named = mem-IsName user (values mapping) h m;
  heard =
      or_later (reply_topic user == codes "ui.user.all.reply") (mem-topic user (values mapping) m);
}

looked_up-Heard :
    (node : Text) (mapping : Users) (o : Option Text)
    → All IsName (values mapping)
    → lookup node mapping ≡ o
    → Heard mapping (get_user_id_from_node node mapping)
unfolding get_user_id_from_node
looked_up-Heard node mapping none h e = rw (e, get_user_id_from_node) (everyone-Heard mapping)
looked_up-Heard node mapping (some user) h e =
    rw (e, get_user_id_from_node) (value-Heard mapping user h (mem-value node mapping e))

node-Heard :
    (a : Attribute) (mapping : Users)
    → All IsName (values mapping)
    → Heard mapping (user_of_node a mapping)
unfolding user_of_node
node-Heard none mapping h = everyone-Heard mapping
node-Heard (some none) mapping h = everyone-Heard mapping
node-Heard (some (some node)) mapping h = looked_up-Heard node mapping (lookup node mapping) h refl

-- A start that enters the loop has the topics of its mapping.
abbrev IsSubscribed : Outcome → Type 0
IsSubscribed (Outcome.runs mapping topics) = topics ≡ ui_reply_topics mapping
IsSubscribed _ = Unit

module _ (configure bootstrap : Result (Unit {0})) where
  bootstrapped-IsSubscribed :
      (r : Result (Unit {0})) (mapping : Users) → IsSubscribed (bootstrapped r mapping)
  unfolding bootstrapped
  bootstrapped-IsSubscribed (ok u) mapping = refl
  bootstrapped-IsSubscribed (raised e) mapping = tt

  raised-IsSubscribed :
      (h : Handler) (e : Exn) → IsSubscribed (session_raised configure bootstrap h e).outcome
  unfolding session_raised configured
  raised-IsSubscribed Handler.shows e = bootstrapped-IsSubscribed bootstrap []
  raised-IsSubscribed Handler.stops e = tt
  raised-IsSubscribed Handler.rethrows e = tt

  session-IsSubscribed :
      (session : Result Users) → IsSubscribed (start_session configure bootstrap session).outcome
  unfolding start_session configured
  session-IsSubscribed (ok users) = bootstrapped-IsSubscribed bootstrap users
  session-IsSubscribed (raised e) = raised-IsSubscribed (handler e) e

  exit-IsSubscribed :
      (b : Bool) (e : Exn) → IsSubscribed (if b then Outcome.exits else Outcome.fails e)
  exit-IsSubscribed true e = tt
  exit-IsSubscribed false e = tt

  with-IsSubscribed :
      (test_suite : Text) (r : Result ConfigurationReply) (session : Result Users)
      → IsSubscribed (start_with configure bootstrap test_suite r session).outcome
  unfolding start_with
  with-IsSubscribed test_suite (raised e) session = exit-IsSubscribed (is_timeout e) e
  with-IsSubscribed test_suite (ok c) session = elim (Bool-cases (test_suite == codes "wot")) [
    | inl b ↦ rw b (bootstrapped-IsSubscribed bootstrap [])
    | inr b ↦ rw b (session-IsSubscribed session)
  ]

-- When `main`, whatever it is answered, enters its loop, with a mapping of roles to users in which
-- no name has a dot or starts by `request`, then a request to all users that has a key for its reply
-- is addressed, by any message of the testing tool, so that the reply comes on one of the topics
-- that `main` subscribed to.
pub reply-Subscribed :
    (configure bootstrap : Result (Unit {0})) (test_suite : Text)
    (answer : Result (Option ConfigurationReply)) (session : Result Users) (mapping : Users)
    (topics : List Text) (m : UiMessage) (tt_message : Option TtMessage) (reply : Text)
    → (start configure bootstrap test_suite answer session).outcome ≡ Outcome.runs mapping topics
    → All IsName (values mapping)
    → m.routing_key ≡ codes "ui.user.all.request"
    → m.reply_to ≡ some reply
    → (m' : UiMessage) × (topic : Text) × (update_ui_message_rkeys m tt_message none mapping
        ≡ ok m')
      × (m'.reply_to ≡ some topic)
      × (mem topic topics ≡ true)
unfolding addressed destination has_code start
reply-Subscribed configure bootstrap test_suite answer session mapping topics m tt_message reply s h
      key r =
    let user = destination tt_message none mapping in
    let d = node-Heard (node_of tt_message) mapping h in
    let e : topics ≡ ui_reply_topics mapping = subst IsSubscribed s (
      with-IsSubscribed configure bootstrap test_suite (get_session_configuration_from_ui answer)
        session) in
    (
      addressed (for_user user (codes "request")) m,
      reply_topic user,
      update_ui_message_rkeys_lem m tt_message none mapping (codes "request") key refl refl,
      rw (r, reply_key) (ap some (reply_key_lem user d.named)),
      rw e d.heard,
    )
