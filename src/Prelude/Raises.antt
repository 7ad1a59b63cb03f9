-- ===== src/Prelude/Raises.antt =====
-- Python calls: a call returns a value or raises an exception.
use mathlib.Core.Path.{◌≡◌, refl}
use mathlib.Core.Logic.{◌⊎◌, inl, inr}

-- The exceptions that the code raises or provokes, by class.
pub data Exn : Type 0 where
  assertion_error attribute_error type_error name_error key_error index_error : Exn
  value_error exception session_error ui_response_error machine_error system_exit : Exn
  stop_iteration file_not_found test_suite_error coordinator_error synch_call_timeout : Exn

pub data Result {ℓ} (A : Type ℓ) : Type ℓ where
  ok : A → Result A
  raised : Exn → Result A

pub Result-cases {ℓ} :
    {A : Type ℓ} (r : Result A) → ((a : A) × (r ≡ ok a)) ⊎ ((e : Exn) × (r ≡ raised e))
Result-cases (ok a) = inl (a, refl)
Result-cases (raised e) = inr (e, refl)
