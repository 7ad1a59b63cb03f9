-- ===== src/UiAdaptor/Vpn/Counted.antt =====
-- The statistics of the packets of ioppytest/ui_adaptor/message_translators.py.
use ioppytest.Prelude.{
  ℕ, ◌+◌, ◌≡◌, refl, ap, arith, Bool, true, false, List, [], ◌∷◌, some, Text, ◌==◌, text_eq_iff,
  lookup, lookup-insert, if◌then◌else◌, Result, ok, raised, Bool-cases, inl, inr, ltb, Dict,
}
use ioppytest.UiAdaptor.Vpn.{
  Vpn, handle_new_packet_from_agent, counted, count_packet, or_zero, sender, seconds_since,
  period_for_stats_updates,
}

-- One for a packet of the agent.
abbrev pub from_agent : Text → Result Text → ℕ
from_agent agent (raised e) = 0
from_agent agent (ok name) = if name == agent then 1 else 0

-- The packets of an agent among those that arrived, each with its time.
abbrev pub packets_from : Text → List (ℕ × Text) → ℕ
packets_from agent [] = 0
packets_from agent ((now, routing_key) ∷ rest) =
    from_agent agent (sender routing_key) + packets_from agent rest

abbrev pub receive : (List (Text × Text) → Text) → List (ℕ × Text) → Vpn → Vpn
receive tabulate [] vpn = vpn
receive tabulate ((now, routing_key) ∷ rest) vpn =
    receive tabulate rest (handle_new_packet_from_agent tabulate now routing_key vpn).1

abbrev pub count_of : Text → Vpn → ℕ
count_of agent vpn = or_zero (lookup agent vpn.counters_packet_from_agents)

count_one :
    (name agent : Text) (counters : Dict ℕ)
    → or_zero (lookup agent (count_packet name counters))
      ≡ or_zero (lookup agent counters) + (if name == agent then 1 else 0)
unfolding count_packet
count_one name agent counters =
    rw (lookup-insert name agent (or_zero (lookup name counters) + 1) counters) (
      by_test (name == agent)
        (λ e. ap (λ n. or_zero (lookup n counters)) ((text_eq_iff name agent).0 e)))
  where
    by_test :
        (b : Bool)
        → (b ≡ true → or_zero (lookup name counters) ≡ or_zero (lookup agent counters))
        → or_zero (if b then some (or_zero (lookup name counters) + 1) else lookup agent counters)
          ≡ or_zero (lookup agent counters) + (if b then 1 else 0)
    by_test true h = omega (arith, h refl)
    by_test false h = omega arith

one_packet :
    (tabulate : List (Text × Text) → Text) (now : ℕ) (r : Result Text) (agent : Text) (vpn : Vpn)
    → count_of agent (counted tabulate now r vpn).1 ≡ count_of agent vpn + from_agent agent r
unfolding counted
one_packet tabulate now (raised e) agent vpn = omega arith
one_packet tabulate now (ok name) agent vpn =
    elim (Bool-cases (ltb period_for_stats_updates (seconds_since vpn.stats_update_datetime now))) [
      | inl h ↦ rw h (count_one name agent vpn.counters_packet_from_agents)
      | inr h ↦ rw h (count_one name agent vpn.counters_packet_from_agents)
    ]

-- After any packets, whether or not their keys name an agent and whether or not the statistics were
-- shown in between, the count of each agent has grown by the number of its packets.
pub receive-count :
    (tabulate : List (Text × Text) → Text) (packets : List (ℕ × Text)) (agent : Text) (vpn : Vpn)
    → count_of agent (receive tabulate packets vpn)
      ≡ count_of agent vpn + packets_from agent packets
unfolding handle_new_packet_from_agent
receive-count tabulate [] agent vpn = omega arith
receive-count tabulate ((now, routing_key) ∷ rest) agent vpn = omega (
  arith,
  receive-count tabulate rest agent (handle_new_packet_from_agent tabulate now routing_key vpn).1,
  one_packet tabulate now (sender routing_key) agent vpn,
)
