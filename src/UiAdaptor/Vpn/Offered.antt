-- ===== src/UiAdaptor/Vpn/Offered.antt =====
-- Which agent the help of ioppytest/ui_adaptor/message_translators.py offers to a user who joins.
use ioppytest.Prelude.{
  ℕ, ◌≡◌, refl, sym, subst, ◌∙◌, arith, ◌⊎◌, inl, inr, true, false, ◌||◌, Bool-cases, List, [], ◌∷◌,
  Option, none, some, Text, ◌==◌, text_eq_iff, text_eq_refl, Dict, lookup, contains, insert,
  lookup-insert, mem, is_some, All,
}
use ioppytest.UiAdaptor.Vpn.{
  Agent, Vpn, Row, Clock, TunStarted, all_used, cmd_agent_example, run_command, unused_or, present,
  attributes, connect, default_agents, init, handle_new_agent_in_vpn,
}

-- No key stands twice.
abbrev NoRepeat : Dict Agent → Type 0
NoRepeat [] = Unit
NoRepeat ((name, a) ∷ agents) = (contains name agents ≡ false) × NoRepeat agents

-- An agent has a last connection exactly when it is one of the names.
abbrev Known : List Text → Text × Agent → Type 0
Known names (name, a) = is_some a.last_connection ≡ mem name names

contains-insert :
    (k j : Text) (a : Agent) (agents : Dict Agent)
    → contains j (insert k a agents) ≡ ((k == j) || contains j agents)
unfolding contains
contains-insert k j a agents =
    rw (lookup-insert k j a agents)
      (elim (Bool-cases (k == j)) [ inl h ↦ rw h refl | inr h ↦ rw h refl ])

NoRepeat-insert :
    (k : Text) (a : Agent) (agents : Dict Agent) → NoRepeat agents → NoRepeat (insert k a agents)
unfolding insert contains lookup
NoRepeat-insert k a [] h = (refl, tt)
NoRepeat-insert k a ((j, b) ∷ agents) (n, h) = elim (Bool-cases (j == k)) [
  | inl e ↦ rw e (n, h)
  | inr e ↦ rw e (
    contains-insert k j a agents ∙ ground (arith, text_eq_iff k j, text_eq_iff j k),
    NoRepeat-insert k a agents h,
  )
]

head_differs :
    (k j : Text) (b : Agent) (agents : Dict Agent)
    → contains k ((j, b) ∷ agents) ≡ false
    → (j == k) ≡ false
unfolding contains lookup
head_differs k j b agents n = ground arith

tail_without :
    (k j : Text) (b : Agent) (agents : Dict Agent)
    → contains k ((j, b) ∷ agents) ≡ false
    → contains k agents ≡ false
unfolding contains lookup
tail_without k j b agents n = ground arith

other-Known :
    (k : Text) (names : List Text) (agents : Dict Agent)
    → contains k agents ≡ false
    → All (Known names) agents
    → All (Known (k ∷ names)) agents
unfolding mem
other-Known k names [] n h = tt
other-Known k names ((j, b) ∷ agents) n (u, h) = (
  u ∙ rw (head_differs k j b agents n) refl,
  other-Known k names agents (tail_without k j b agents n) h,
)

connected-Known :
    (k : Text) (a : Agent) (names : List Text) (agents : Dict Agent)
    → is_some a.last_connection ≡ true
    → NoRepeat agents
    → All (Known names) agents
    → All (Known (k ∷ names)) (insert k a agents)
unfolding insert mem
connected-Known k a names [] s n h = (s ∙ rw (text_eq_refl k) refl, tt)
connected-Known k a names ((j, b) ∷ agents) s (n, m) (u, h) = elim (Bool-cases (j == k)) [
  | inl e ↦ rw e (
    s ∙ rw e refl,
    other-Known k names agents (subst (λ x. contains x agents ≡ false) ((text_eq_iff j k).0 e) n) h,
  )
  | inr e ↦ rw e (u ∙ rw e refl, connected-Known k a names agents s m h)
]

default-Known :
    (k : Text) (a : Agent) (agents : Dict Agent)
    → is_some a.last_connection ≡ false
    → All (Known []) agents
    → All (Known []) (insert k a agents)
unfolding insert mem
default-Known k a [] s h = (s, tt)
default-Known k a ((j, b) ∷ agents) s (u, h) = elim (Bool-cases (j == k)) [
  | inl e ↦ rw e (s, h)
  | inr e ↦ rw e (u, default-Known k a agents s h)
]

-- The agents are those of distinct names, and the connected ones are known.
record Tracked (names : List Text) (agents : Dict Agent) : Type 0 where
  pub distinct : NoRepeat agents
  pub known : All (Known names) agents

defaults-Tracked :
    (addresses : List (Text × Text × Text)) (agents : Dict Agent)
    → Tracked [] agents
    → Tracked [] (default_agents addresses agents)
unfolding default_agents
defaults-Tracked [] agents h = h
defaults-Tracked ((node, prefix, host) ∷ rest) agents h =
    let a : Agent = record { ipv6_prefix = prefix; ipv6_host = host; last_connection = none } in
    defaults-Tracked rest (insert node a agents) (record {
      distinct = NoRepeat-insert node a agents h.distinct;
      known = default-Known node a agents refl h.known;
    })

-- The name of an agent whose message is complete.
abbrev pub complete : Option (Text × Text × Text) → List Text → List Text
complete none names = names
complete (some (name, prefix, host)) names = name ∷ names

abbrev pub attributes_of : TunStarted → Option (Text × Text × Text)
attributes_of m = attributes (present m.name) (present m.prefix) (present m.host)

-- The agents that sent a complete message, the last one first.
abbrev pub connected : List (ℕ × TunStarted) → List Text → List Text
connected [] names = names
connected ((now, m) ∷ rest) names = connected rest (complete (attributes_of m) names)

connect-Tracked :
    (o : Option (Text × Text × Text)) (now : ℕ) (names : List Text) (vpn : Vpn)
    → Tracked names vpn.vpn_agents
    → Tracked (complete o names) (connect o now vpn).vpn_agents
unfolding connect
connect-Tracked none now names vpn h = h
connect-Tracked (some (name, prefix, host)) now names vpn h =
    let a : Agent = record { ipv6_prefix = prefix; ipv6_host = host; last_connection = some now } in
    record {
      distinct = NoRepeat-insert name a vpn.vpn_agents h.distinct;
      known = connected-Known name a names vpn.vpn_agents refl h.distinct h.known;
    }

module _ (tabulate : List Row → Text) (clock : Clock) where
  abbrev pub join : List (ℕ × TunStarted) → Vpn → Vpn
  join [] vpn = vpn
  join ((now, m) ∷ rest) vpn = join rest (handle_new_agent_in_vpn tabulate clock m now vpn).1

  join-Tracked :
      (messages : List (ℕ × TunStarted)) (names : List Text) (vpn : Vpn)
      → Tracked names vpn.vpn_agents
      → Tracked (connected messages names) (join messages vpn).vpn_agents
  unfolding handle_new_agent_in_vpn
  join-Tracked [] names vpn h = h
  join-Tracked ((now, m) ∷ rest) names vpn h =
      join-Tracked rest (complete (attributes_of m) names)
        (handle_new_agent_in_vpn tabulate clock m now vpn).1
        (connect-Tracked (attributes_of m) now names vpn h)

-- The command of an agent of the table that is not among the names, or all are.
abbrev pub Offers : List Text → Dict Agent → Text → Type 0
Offers names agents command =
    ((name : Text) × (a : Agent) × (lookup name agents ≡ some a)
      × (a.last_connection ≡ none)
      × (mem name names ≡ false)
      × (command ≡ run_command name a))
    ⊎ (All (λ e. mem e.0 names ≡ true) agents × (command ≡ all_used))

lookup_later :
    (name j : Text) (a b : Agent) (agents : Dict Agent)
    → contains j agents ≡ false
    → lookup name agents ≡ some a
    → lookup name ((j, b) ∷ agents) ≡ some a
unfolding contains lookup
lookup_later name j a b agents n e = ground (arith, text_eq_iff j name)

later-Offers :
    (names : List Text) (j : Text) (b : Agent) (agents : Dict Agent) (command : Text)
    → contains j agents ≡ false
    → mem j names ≡ true
    → Offers names agents command
    → Offers names ((j, b) ∷ agents) command
later-Offers names j b agents command n u (inl (name, a, l, w, m, c)) =
    inl (name, a, lookup_later name j a b agents n l, w, m, c)
later-Offers names j b agents command n u (inr (h, c)) = inr ((u, h), c)

head-Offers :
    (names : List Text) (j : Text) (b : Agent) (agents : Dict Agent) (command : Text) (o : Option ℕ)
    → b.last_connection ≡ o
    → contains j agents ≡ false
    → is_some o ≡ mem j names
    → Offers names agents command
    → Offers names ((j, b) ∷ agents) (unused_or o (run_command j b) command)
unfolding unused_or lookup
head-Offers names j b agents command none e n u h =
    inl (j, b, rw (text_eq_refl j) refl, e, sym u, refl)
head-Offers names j b agents command (some t) e n u h =
    later-Offers names j b agents command n (sym u) h

cmd-Offers :
    (names : List Text) (agents : Dict Agent)
    → NoRepeat agents
    → All (Known names) agents
    → Offers names agents (cmd_agent_example agents)
unfolding cmd_agent_example
cmd-Offers names [] n h = inr (tt, refl)
cmd-Offers names ((j, b) ∷ agents) (n, m) (u, h) =
    head-Offers names j b agents (cmd_agent_example agents) b.last_connection refl n u
      (cmd-Offers names agents m h)

-- Of the default agents, after any messages that agents started their tunnels: the help for a user
-- who joins gives the command of an agent of the table that never sent a complete message, or says
-- that the VPN is full, and then every agent of the table has sent one.
pub join-Offers :
    (tabulate : List Row → Text) (clock : Clock) (addresses : List (Text × Text × Text)) (now : ℕ)
    (messages : List (ℕ × TunStarted))
    → let agents = (join tabulate clock messages (init addresses now)).vpn_agents in
      Offers (connected messages []) agents (cmd_agent_example agents)
unfolding init
join-Offers tabulate clock addresses now messages =
    let h =
      join-Tracked tabulate clock messages [] (init addresses now)
        (defaults-Tracked addresses [] (record { distinct = tt; known = tt })) in
    cmd-Offers (connected messages [])
      (join tabulate clock messages (init addresses now)).vpn_agents h.distinct h.known
