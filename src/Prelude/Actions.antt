-- ===== src/Prelude/Actions.antt =====
-- Methods of an object with state `S`: what a call wrote before it raised stays written.
use mathlib.Core.Bool.{Bool, true, false}
use mathlib.Core.Option.{Option, none, some}
use ioppytest.Prelude.Raises.{Exn, assertion_error, Result, ok, raised}

abbrev pub Action : Type 0 → Type 0 → Type 0
Action S A = S → Result A × S

-- What follows a call, on what it returned or raised and the state that it left.
abbrev pub after : {S A B : Type 0} → (A → Action S B) → Result A × S → Result B × S
after f (ok a, s) = f a s
after f (raised e, s) = (raised e, s)

infixl 5 ◌>>=◌ ◌>>◌
abbrev pub ◌>>=◌ : {S A B : Type 0} → Action S A → (A → Action S B) → Action S B
◌>>=◌ m f s = after f (m s)

abbrev pub ◌>>◌ : {S A B : Type 0} → Action S A → Action S B → Action S B
m >> k = m >>= λ _. k

module _ {S A : Type 0} where
  abbrev pub pure : A → Action S A
  pure a s = (ok a, s)

  abbrev pub raise : Exn → Action S A
  raise e s = (raised e, s)

  abbrev pub gets : (S → A) → Action S A
  gets f s = (ok (f s), s)

  -- A call that only reads.
  abbrev pub asks : (S → Result A) → Action S A
  asks f s = (f s, s)

  abbrev pub or_raise : Exn → Option A → Action S A
  or_raise e none s = (raised e, s)
  or_raise e (some a) s = (ok a, s)

module _ {S : Type 0} where
  abbrev pub modify : (S → S) → Action S (Unit {0})
  modify f s = (ok tt, f s)

  -- `assert b`
  abbrev pub assert : Bool → Action S (Unit {0})
  assert true s = (ok tt, s)
  assert false s = (raised assertion_error, s)
