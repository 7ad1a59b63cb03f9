-- ===== src/Prelude/Calls.antt =====
-- Chains of calls that read and may raise: `do` blocks over `Result`.
use mathlib.Core.Bool.{Bool, true, false}
use mathlib.Core.Option.{Option, none, some}
use ioppytest.Prelude.Raises.{Exn, assertion_error, Result, ok, raised}

infixl 5 ◌>>=◌ ◌>>◌
abbrev pub ◌>>=◌ {ℓ κ} : {A : Type ℓ} {B : Type κ} → Result A → (A → Result B) → Result B
ok a >>= f = f a
raised e >>= f = raised e

abbrev pub ◌>>◌ {ℓ κ} : {A : Type ℓ} {B : Type κ} → Result A → Result B → Result B
m >> k = m >>= λ _. k

-- `assert b`
abbrev pub assert : Bool → Result (Unit {0})
assert true = ok tt
assert false = raised assertion_error

-- The value, or the exception that its absence causes.
abbrev pub or_raise {ℓ} : {A : Type ℓ} → Exn → Option A → Result A
or_raise e none = raised e
or_raise e (some a) = ok a

-- A condition whose failure raises.
abbrev pub require : Exn → Bool → Result (Unit {0})
require e true = ok tt
require e false = raised e
