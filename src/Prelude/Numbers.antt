-- ===== src/Prelude/Numbers.antt =====
-- `str` of an integer that is not negative.
use Prim.Native.Nat.{ℕ, zero, suc, ◌+◌, ◌/◌, ◌%◌}
use mathlib.Core.List.{◌∷◌, []}
use ioppytest.Prelude.Strings.{Text}

-- The decimal digits of a number; the number is fuel enough.
digits : ℕ → ℕ → Text → Text
digits zero n later = later
digits (suc fuel) n later = elim (n / 10) [
  | zero ↦ (48 + n % 10) ∷ later
  | suc m ↦ digits fuel (suc m) ((48 + n % 10) ∷ later)
]

unfoldable pub decimal : ℕ → Text
unfolding digits
decimal n = digits (suc n) n []
