-- ===== src/Router.antt =====
-- ioppytest/packet_router/__main__.py: the routing table that a test configuration gives, and the
-- callback that routes, drops, or ignores a message of the event bus.
pub mod Table
pub mod Lossy
pub mod Entries
pub mod Routes
use ioppytest.Prelude.{
  ℕ, ◌+◌, ◌-◌, List, [], ◌∷◌, ◌++◌, map, Option, none, some, Text, Dict, lookup, ltb, if◌then◌else◌,
  Result, ok, raised, assertion_error,
}

-- What `Message.load_from_pika` makes of a message, by its class. The fields of a sniffed packet
-- are absent in a message of the wrong format.
pub data Message : Type 0 where
  undecodable : Message
  packet_sniffed_raw :
      (routing_key : Text) (packet timestamp interface_name : Option Text) → Message
  start_lossy_link : (number_of_packets_to_drop : ℕ) → Message
  other : Message

-- `MsgPacketInjectRaw`
pub record Injection : Type 0 where
  pub packet : Text
  pub timestamp : Text
  pub interface_name : Text

-- The state of `PacketRouter` that the callback uses, and all that it published, in order.
pub record Router : Type 0 where
  pub routing_table : Dict (List Text)
  pub message_count : ℕ
  pub pending_number_of_packets_to_drop : ℕ
  pub published : List (Text × Injection)

-- `__init__`: an empty table is refused.
unfoldable pub init : Dict (List Text) → Result Router
init [] = raised assertion_error
init (entry ∷ rest) = ok (record {
  routing_table = entry ∷ rest;
  message_count = 0;
  pending_number_of_packets_to_drop = 0;
  published = [];
})

unfoldable pub injection : Option Text → Option Text → Option Text → Option Injection
injection (some packet) (some timestamp) (some interface_name) =
    some (record { packet = packet; timestamp = timestamp; interface_name = interface_name })
injection _ _ _ = none

publish : List Text → Injection → Router → Router
publish destinations m r = record r {
  published = r.published ++ map (λ dst_rkey. (dst_rkey, m)) destinations;
}

-- A packet that is not dropped: it goes to every destination of its key. Without a route nothing
-- is sent, be the message an echo to an agent or unknown.
route : Text → Option Injection → Router → Router
unfolding publish
route src_rkey none r = r
route src_rkey (some m) r = elim (lookup src_rkey r.routing_table) [
  | some list_dst_rkey ↦ publish list_dst_rkey m r
  | none ↦ r
]

unfoldable pub on_packet : Text → Option Injection → Router → Router
unfolding route
on_packet routing_key m r =
    let counted = record r { message_count = r.message_count + 1 } in
    if ltb 0 r.pending_number_of_packets_to_drop
    then record counted {
      pending_number_of_packets_to_drop = r.pending_number_of_packets_to_drop - 1;
    }
    else route routing_key m counted

unfoldable pub on_request : Message → Router → Router
unfolding injection
on_request undecodable r = r
on_request (packet_sniffed_raw routing_key packet timestamp interface_name) r =
    on_packet routing_key (injection packet timestamp interface_name) r
on_request (start_lossy_link n) r = record r { pending_number_of_packets_to_drop = n }
on_request other r = r

-- The messages of the queue, one after the other.
unfoldable pub serve : List Message → Router → Router
serve [] r = r
serve (m ∷ rest) r = serve rest (on_request m r)
