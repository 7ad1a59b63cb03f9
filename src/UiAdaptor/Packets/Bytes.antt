-- ===== src/UiAdaptor/Packets/Bytes.antt =====
-- The bytes of a packet are read back from its display.
use Prim.Native.Nat.{◌/◌, ◌%◌}
use ioppytest.Prelude.{
  ℕ, ◌+◌, ◌*◌, ◌-◌, ◌<◌, ◌≡◌, refl, Bool, false, List, [], ◌∷◌, ◌++◌, Text, ltb, All, if◌then◌else◌,
  arith,
}
use ioppytest.UiAdaptor.Packets.{hex_digit, hex, gap, aligned}

-- The value of a digit.
abbrev pub digit : ℕ → ℕ
digit c = if ltb c 58 then c - 48 else c - 87

-- Blanks, tabs and ends of lines.
abbrev pub is_blank : ℕ → Bool
is_blank c = ltb c 33

-- A reader of such a display: it drops the blanks and takes the digits in pairs.
abbrev pub digits_in : Text → Text
digits_in [] = []
digits_in (c ∷ s) = if is_blank c then digits_in s else c ∷ digits_in s

abbrev pub pairs : Text → List ℕ
pairs (a ∷ b ∷ s) = (digit a * 16 + digit b) ∷ pairs s
pairs _ = []

abbrev pub read_bytes : Text → List ℕ
read_bytes s = pairs (digits_in s)

digit_read : (n : ℕ) → n < 16 → digit (hex_digit n) ≡ n
unfolding hex_digit
digit_read n h = ground arith

not_blank : (n : ℕ) → is_blank (hex_digit n) ≡ false
unfolding hex_digit
not_blank n = ground arith

split_byte : (n : ℕ) → n < 256 → (n / 16) * 16 + n % 16 ≡ n
split_byte n h = omega arith

high : (n : ℕ) → n < 256 → n / 16 < 16
high n h = omega arith

low : (n : ℕ) → n % 16 < 16
low n = omega arith

gap_blank : (count : ℕ) (s : Text) → digits_in ((gap count).0 ++ s) ≡ digits_in s
unfolding gap
gap_blank count s = ground arith

-- The bytes of a packet are read back, whatever the count that the display begins with.
pub read_bytes-aligned :
    (count : ℕ) (payload : List ℕ)
    → All (λ n. n < 256) payload
    → read_bytes (aligned count payload) ≡ payload
unfolding aligned hex
read_bytes-aligned count [] h = refl
read_bytes-aligned count (n ∷ rest) (h, k) =
    let later = read_bytes-aligned (gap count).1 rest k in
    rw
      (
        not_blank (n / 16),
        not_blank (n % 16),
        gap_blank count (aligned (gap count).1 rest),
        digit_read (n / 16) (high n h),
        digit_read (n % 16) (low n),
        split_byte n h,
        later,
      )
      refl
