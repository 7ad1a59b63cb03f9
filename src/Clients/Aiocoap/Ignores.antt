-- ===== src/Clients/Aiocoap/Ignores.antt =====
-- What the functions of automation/coap_client_aiocoap/automated_iut.py make of keyword arguments
-- that are not their parameters.
use ioppytest.Prelude.Calls.{◌>>=◌}
use ioppytest.Prelude.{
  ◌≡◌, refl, ap, ◌∙◌, arith, false, List, [], ◌∷◌, Option, Text, ◌==◌, Dict, lookup, insert,
  lookup-insert,
}
use ioppytest.Clients.{Value, Param, bind, is_param}
use ioppytest.Clients.Aiocoap.Table.{Func}
use ioppytest.Clients.Aiocoap.{call, body, params_of}

first_differs :
    (k p : Text) (default : Option Value) (params : List Param)
    → is_param k ((p, default) ∷ params) ≡ false
    → (k == p) ≡ false
unfolding is_param
first_differs k p default params h = ground arith

later_differ :
    (k p : Text) (default : Option Value) (params : List Param)
    → is_param k ((p, default) ∷ params) ≡ false
    → is_param k params ≡ false
unfolding is_param
later_differ k p default params h = ground arith

lookup_other :
    (k p : Text) (v : Value) (args : Dict Value)
    → (k == p) ≡ false
    → lookup p (insert k v args) ≡ lookup p args
lookup_other k p v args h = lookup-insert k p v args ∙ rw h refl

bind-insert :
    (k : Text) (v : Value) (params : List Param) (args : Dict Value)
    → is_param k params ≡ false
    → bind params (insert k v args) ≡ bind params args
bind-insert k v [] args h = refl
bind-insert k v ((p, default) ∷ params) args h =
    rw (lookup_other k p v args (first_differs k p default params h))
      (rw (bind-insert k v params args (later_differ k p default params h)) refl)

-- A keyword argument that a function has no parameter for changes nothing of what the
-- function launches or raises.
pub call-ignores :
    (func : Func) (args : Dict Value) (k : Text) (v : Value)
    → is_param k (params_of func) ≡ false
    → call (func, insert k v args) ≡ call (func, args)
unfolding call
call-ignores func args k v h =
    ap (λ m. m >>= λ values. body func values) (bind-insert k v (params_of func) args h)
