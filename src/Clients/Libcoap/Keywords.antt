-- ===== src/Clients/Libcoap/Keywords.antt =====
-- The calls of the functions of automation/coap_client_libcoap/automated_iut.py by keyword.
use ioppytest.Prelude.{arith, subst, sym}
use ioppytest.Prelude.Calls.{◌>>=◌}
use ioppytest.Prelude.{
  Bool, true, false, List, [], ◌∷◌, ◌++◌, some, Text, codes, Dict, lookup, refl, ◌≡◌, Result, ok,
  raised,
}
use ioppytest.Clients.{Value, no_value, flag, number, text, bytes, str, Launch, Param, bind}
use ioppytest.Clients.Libcoap.Table.{Func, get, put, post, delete, observe}
use ioppytest.Clients.Libcoap.{observe_command, body, url_params, params_of}
use ioppytest.Clients.Libcoap.Reading.{
  Request, read_command, arg, format_of, payload_of, file_of, asked,
}
use ioppytest.Clients.Libcoap.{call, body, launch_for, options_of}
use ioppytest.Clients.{all_params}
use ioppytest.Clients.Libcoap.Commands.{get-Asks, put-Asks, post-Asks, delete-Asks, observe-Asks}

unfoldable pub is_number : Value → Bool
is_number (number n) = true
is_number _ = false

-- The time that a call is given is a number.
unfoldable pub is_timed : Func → Dict Value → Bool
is_timed observe args = is_number (arg (codes "duration") (number 15) args)
is_timed _ args = true

-- A command is launched, which is read as a given request.
abbrev pub Reads : Request → Result Launch → Type 0
Reads r (raised e) = ⊥
Reads r (ok l) = read_command l.cmd ≡ some r

then_ok :
    {A B C : Type 0} (m : Result A) (f : A → B) (g : B → C)
    → ((m >>= λ a. ok (f a)) >>= λ b. ok (g b)) ≡ (m >>= λ a. ok (g (f a)))
then_ok (ok a) f g = refl
then_ok (raised e) f g = refl

bind_url :
    (u r : Value) (params : List Param) (args : Dict Value)
    → lookup (codes "base_url") args ≡ some u
    → lookup (codes "resource") args ≡ some r
    → bind (url_params ++ params) args ≡ (bind params args >>= λ vs. ok (u ∷ r ∷ vs))
bind_url u r params args h k =
    rw h (rw k (then_ok (bind params args) (λ vs. r ∷ vs) (λ vs. u ∷ vs)))

observe_launch :
    (v : Value) (cmd : List Value) (r : Request)
    → is_number v ≡ true
    → read_command cmd ≡ some r
    → Reads r (launch_for v cmd)
unfolding is_number
observe_launch (number n) cmd r h k = k
observe_launch no_value cmd r h k = ground arith
observe_launch (flag b) cmd r h k = ground arith
observe_launch (text s) cmd r h k = ground arith
observe_launch (bytes s) cmd r h k = ground arith

-- A call whose keyword arguments are bound comes to the body of the function.
call_bound :
    (func : Func) (args : Dict Value) (tkn : Text) (u r : Value) (vs : List Value)
    → all_params args (params_of func) ≡ true
    → lookup (codes "base_url") args ≡ some u
    → lookup (codes "resource") args ≡ some r
    → bind (options_of func) args ≡ ok vs
    → call (func, args) tkn ≡ body func tkn (u ∷ r ∷ vs)
unfolding call params_of
call_bound func args tkn u r vs p h k e =
    rw p (rw (bind_url u r (options_of func) args h k) (rw e refl))

-- The values that the options have.
abbrev flag_arg : Text → Bool → Dict Value → Value
flag_arg name b args = arg name (flag b) args

abbrev size_arg : Dict Value → Value
size_arg args = arg (codes "block_size") (number 64) args

abbrev values_of : Func → Dict Value → List Value
values_of get args =
    flag_arg (codes "confirmable") true args
    ∷ flag_arg (codes "use_token") true args
    ∷ arg (codes "accept_option") no_value args
    ∷ flag_arg (codes "use_block_option") false args
    ∷ size_arg args
    ∷ []
values_of put args =
    format_of args
    ∷ flag_arg (codes "confirmable") true args
    ∷ flag_arg (codes "use_token") true args
    ∷ flag_arg (codes "use_if_none_match") false args
    ∷ flag_arg (codes "use_block_option") false args
    ∷ size_arg args
    ∷ payload_of args
    ∷ file_of args
    ∷ []
values_of post args =
    format_of args
    ∷ flag_arg (codes "confirmable") true args
    ∷ flag_arg (codes "use_token") true args
    ∷ flag_arg (codes "use_block_option") false args
    ∷ size_arg args
    ∷ payload_of args
    ∷ file_of args
    ∷ []
values_of delete args =
    flag_arg (codes "confirmable") true args ∷ flag_arg (codes "use_token") true args ∷ []
values_of observe args =
    flag_arg (codes "confirmable") true args
    ∷ flag_arg (codes "use_token") true args
    ∷ arg (codes "duration") (number 15) args
    ∷ []

options_bound :
    (func : Func) (args : Dict Value) → bind (options_of func) args ≡ ok (values_of func args)
unfolding options_of
options_bound get args = refl
options_bound put args = refl
options_bound post args = refl
options_bound delete args = refl
options_bound observe args = refl

body-Reads :
    (func : Func) (args : Dict Value) (tkn : Text) (u r : Value)
    → is_timed func args ≡ true
    → Reads (asked func (str u ++ str r) tkn args) (body func tkn (u ∷ r ∷ values_of func args))
unfolding body is_timed
body-Reads get args tkn u r t = get-Asks tkn u r args
body-Reads put args tkn u r t = put-Asks tkn u r args
body-Reads post args tkn u r t = post-Asks tkn u r args
body-Reads delete args tkn u r t = delete-Asks tkn u r args
body-Reads observe args tkn u r t =
    observe_launch (arg (codes "duration") (number 15) args)
      (observe_command tkn u r (flag_arg (codes "confirmable") true args)
        (flag_arg (codes "use_token") true args) (arg (codes "duration") (number 15) args))
      (asked observe (str u ++ str r) tkn args) t (observe-Asks tkn u r args)

-- The call of a function on keyword arguments that fit its parameters.
pub call-Reads :
    (func : Func) (args : Dict Value) (tkn : Text) (u r : Value)
    → all_params args (params_of func) ≡ true
    → is_timed func args ≡ true
    → lookup (codes "base_url") args ≡ some u
    → lookup (codes "resource") args ≡ some r
    → Reads (asked func (str u ++ str r) tkn args) (call (func, args) tkn)
call-Reads func args tkn u r p t h k =
    subst (λ x. Reads (asked func (str u ++ str r) tkn args) x)
      (sym (call_bound func args tkn u r (values_of func args) p h k (options_bound func args)))
      (body-Reads func args tkn u r t)
