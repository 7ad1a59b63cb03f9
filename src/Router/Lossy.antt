-- ===== src/Router/Lossy.antt =====
-- A lossy link: the next packets, as many as were asked for, are dropped.
use mathlib.Core.List.{append-nil, append_assoc}
use ioppytest.Prelude.{
  ℕ, zero, suc, ◌+◌, ◌-◌, ◌<◌, ◌≡◌, refl, ◌∙◌, List, [], ◌∷◌, Option, none, some, Text, ◌++◌, Dict,
  lookup, map, length, drop, drop-nil, arith,
}
use ioppytest.Router.{
  Router, Injection, Message, packet_sniffed_raw, injection, on_packet, on_request, serve,
}

-- A sniffed packet: its routing key and its fields.
abbrev pub Packet : Type 0
Packet = Text × Option Text × Option Text × Option Text

abbrev pub sniffed : Packet → Message
sniffed p = packet_sniffed_raw p.0 p.1 p.2 p.3

abbrev to_all : Injection → Option (List Text) → List (Text × Injection)
to_all m none = []
to_all m (some destinations) = map (λ dst_rkey. (dst_rkey, m)) destinations

abbrev forwarded_by : Text → Option Injection → Dict (List Text) → List (Text × Injection)
forwarded_by routing_key none table = []
forwarded_by routing_key (some m) table = to_all m (lookup routing_key table)

-- What a routed packet sends: a copy to each destination of its key, in their order.
abbrev pub forwarded : Dict (List Text) → Packet → List (Text × Injection)
forwarded table p = forwarded_by p.0 (injection p.1 p.2 p.3) table

abbrev pub forwarded_all : Dict (List Text) → List Packet → List (Text × Injection)
forwarded_all table [] = []
forwarded_all table (p ∷ ps) = forwarded table p ++ forwarded_all table ps

-- What serving packets does to the router.
pub record Serves (ps : List Packet) (r r' : Router) : Type 0 where
  pub table : r'.routing_table ≡ r.routing_table
  pub count : r'.message_count ≡ r.message_count + length ps
  pub pending :
      r'.pending_number_of_packets_to_drop ≡ r.pending_number_of_packets_to_drop - length ps
  pub sent :
      r'.published
      ≡ r.published ++ forwarded_all r.routing_table (drop r.pending_number_of_packets_to_drop ps)

-- One packet: dropped while some are pending, else forwarded.
record ServesOne (sending : List (Text × Injection)) (r r' : Router) : Type 0 where
  table : r'.routing_table ≡ r.routing_table
  count : r'.message_count ≡ r.message_count + 1
  pending : r'.pending_number_of_packets_to_drop ≡ r.pending_number_of_packets_to_drop - 1
  sent_none : 0 < r.pending_number_of_packets_to_drop → r'.published ≡ r.published
  sent : r.pending_number_of_packets_to_drop ≡ 0 → r'.published ≡ r.published ++ sending

on_packet-ServesOne :
    (routing_key : Text) (m : Option Injection) (r : Router)
    → ServesOne (forwarded_by routing_key m r.routing_table) r (on_packet routing_key m r)
unfolding on_packet
on_packet-ServesOne routing_key none r = ground (arith, append-nil r.published)
on_packet-ServesOne routing_key (some m) r = ground (arith, append-nil r.published)

on_request-ServesOne :
    (p : Packet) (r : Router) → ServesOne (forwarded r.routing_table p) r (on_request (sniffed p) r)
unfolding on_request
on_request-ServesOne p r = on_packet-ServesOne p.0 (injection p.1 p.2 p.3) r

sent_cons :
    (n : ℕ) (p : Packet) (ps : List Packet) (r r' r'' : Router)
    → r.pending_number_of_packets_to_drop ≡ n
    → ServesOne (forwarded r.routing_table p) r r'
    → Serves ps r' r''
    → r''.published ≡ r.published ++ forwarded_all r.routing_table (drop n (p ∷ ps))
sent_cons zero p ps r r' r'' e one h =
    let none_left : r'.pending_number_of_packets_to_drop ≡ 0 = omega (arith, one.pending) in
    h.sent
    ∙ rw (none_left, one.table, one.sent e)
        (append_assoc r.published (forwarded r.routing_table p) (forwarded_all r.routing_table ps))
sent_cons (suc n) p ps r r' r'' e one h =
    let left : r'.pending_number_of_packets_to_drop ≡ n = omega (arith, one.pending) in
    h.sent ∙ rw (left, one.table, one.sent_none (omega arith)) refl

-- Of a run of packets the first ones, as many as are pending, are dropped, and each of the others
-- is forwarded to all the destinations of its key, in order; all are counted.
pub serve-Serves : (ps : List Packet) (r : Router) → Serves ps r (serve (map sniffed ps) r)
unfolding serve
serve-Serves [] r = record {
  table = refl;
  count = omega arith;
  pending = omega arith;
  sent =
      rw (drop-nil {A = Packet} r.pending_number_of_packets_to_drop, append-nil r.published) refl;
}
serve-Serves (p ∷ ps) r =
    let r' = on_request (sniffed p) r in
    let one = on_request-ServesOne p r in
    let h = serve-Serves ps r' in
    record {
      table = h.table ∙ one.table;
      count = omega (arith, h.count, one.count);
      pending = omega (arith, h.pending, one.pending);
      sent = sent_cons r.pending_number_of_packets_to_drop p ps r r' _ refl one h;
    }
