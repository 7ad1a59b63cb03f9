-- ===== src/UiAdaptor/Packets.antt =====
-- `_get_ui_packet_raw` of ioppytest/ui_adaptor/message_translators.py: a packet, displayed byte by
-- byte. The date of a timestamp, as the library writes it, is a parameter.
pub mod Bytes
use Prim.Native.Nat.{◌/◌, ◌%◌}
use ioppytest.Prelude.{
  ℕ, zero, suc, ◌+◌, Bool, true, false, List, [], ◌∷◌, ◌++◌, Option, none, some, Text, codes, ltb,
  nat_eq, split, contains_text, if◌then◌else◌,
}
use ioppytest.UiAdaptor.Messages.{Field, paragraph}

-- A digit of `format(int_value, '02x')`
unfoldable pub hex_digit : ℕ → ℕ
hex_digit n = if ltb n 10 then 48 + n else 87 + n

-- The two digits of a byte.
unfoldable pub hex : ℕ → Text
hex n = hex_digit (n / 16) ∷ hex_digit (n % 16) ∷ []

-- What follows a byte, and the count for the next one. At the count 7 it is counted twice.
unfoldable pub gap : ℕ → Text × ℕ
gap count =
    if nat_eq count 7
    then (codes " \t ", 9)
    else if nat_eq count 15
    then (codes " \n", 0)
    else (codes " ", count + 1)

-- `network_bytes_aligned`, from a count on.
unfoldable pub aligned : ℕ → List ℕ → Text
aligned count [] = []
aligned count (n ∷ rest) =
    let (space, next) = gap count in let later = aligned next rest in hex n ++ (space ++ later)

second : List Text → Text
second (a ∷ b ∷ rest) = b
second _ = codes "unknown_agent"

unfoldable pub agent_name : Text → Text
unfolding second
agent_name routing_key = second (split b'.' routing_key)

-- Without either word the name `dir` is that of a function of Python.
unfoldable pub direction : Text → Text → Text
direction routing_key agent =
    if contains_text (codes "fromAgent") routing_key
    then agent ++ codes " -> TESTING TOOL"
    else if contains_text (codes "toAgent") routing_key
    then codes "TESTING TOOL -> " ++ agent
    else codes "<built-in function dir>"

pub record RawPacket : Type 0 where
  pub routing_key : Text
  -- `None` and zero are none.
  pub timestamp : Option ℕ
  pub interface_name : Text
  pub payload : List ℕ

module _ (date : ℕ → Text) where
  timestamp_field : Option ℕ → List Field
  timestamp_field none = []
  timestamp_field (some t) = paragraph (codes "timestamp:" ++ date t) ∷ []

  -- Packets of the testing tool's own agent are not displayed.
  unfoldable pub get_ui_packet_raw : RawPacket → Option (List Field)
  unfolding timestamp_field
  get_ui_packet_raw m =
      let agent = agent_name m.routing_key in
      if contains_text (codes "agent_TT") agent
      then none
      else some (
          paragraph (codes "data packet: " ++ direction m.routing_key agent)
          ∷ (timestamp_field m.timestamp
              ++ (paragraph (codes "interface:" ++ m.interface_name)
                  ∷ paragraph (codes "\n" ++ aligned 0 m.payload)
                  ∷ [])))
