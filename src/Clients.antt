-- ===== src/Clients.antt =====
-- automation/coap_client_*/automated_iut.py: the automated CoAP clients. Libcoap and Aiocoap are
-- the clients that make a command line from the keyword arguments that their table has for a
-- stimuli; Mapped are those that pass the name of a test case to a program. This module is what
-- they share: the values of Python that the tables hold, the binding of keyword arguments, and the
-- process that a command starts.
pub mod Payload
pub mod Libcoap
pub mod Aiocoap
pub mod Mapped
pub mod Rounds
use Prim.Native.Nat.{◌/◌, ◌%◌}
use ioppytest.Prelude.Calls
use ioppytest.Prelude.Calls.{◌>>=◌, ◌>>◌}
use ioppytest.Prelude.{
  ℕ, zero, suc, ◌+◌, ◌≡◌, refl, ap, Bool, true, false, not, ◌&&◌, List, [], ◌∷◌, ◌++◌, Option, none,
  some, Text, codes, text_eq, text_eq_iff, text_eq_refl, nat_eq, ◌==◌, ◌||◌, if◌then◌else◌, decimal,
  Dict, lookup, insert, lookup-insert, Result, ok, raised, Exn, type_error, arith,
}

-- A value that an argument has.
pub data Value : Type 0 where
  no_value : Value
  flag : Bool → Value
  number : ℕ → Value
  text bytes : Text → Value

abbrev pub is_empty : Text → Bool
is_empty [] = true
is_empty (c ∷ s) = false

-- `if v`
abbrev pub truthy : Value → Bool
truthy no_value = false
truthy (flag b) = b
truthy (number n) = not (nat_eq n 0)
truthy (text s) = not (is_empty s)
truthy (bytes s) = not (is_empty s)

-- `str(v)`; the bytes are those of hexadecimal digits.
abbrev pub str : Value → Text
str no_value = codes "None"
str (flag true) = codes "True"
str (flag false) = codes "False"
str (number n) = decimal n
str (text s) = s
str (bytes s) = codes "b'" ++ (s ++ codes "'")

-- A parameter of a function, with its default.
abbrev pub Param : Type 0
Param = Text × Option Value

abbrev pub given : Option Value → Value → Value
given none v = v
given (some w) v = w

abbrev pub bind_one : Option Value → Option Value → Result Value
bind_one none none = raised type_error
bind_one none (some v) = ok v
bind_one (some default) v = ok (given v default)

-- The arguments by position, from those by keyword.
abbrev pub bind : List Param → Dict Value → Result (List Value)
bind [] kwargs = ok []
bind ((name, default) ∷ params) kwargs =
    bind_one default (lookup name kwargs) >>= λ v. bind params kwargs >>= λ vs. ok (v ∷ vs)

unfoldable pub is_param : Text → List Param → Bool
is_param name [] = false
is_param name ((p, default) ∷ params) = name == p || is_param name params

-- Without `**kwargs`, every keyword is that of a parameter.
unfoldable pub all_params : Dict Value → List Param → Bool
unfolding is_param
all_params [] params = true
all_params ((name, v) ∷ kwargs) params = is_param name params && all_params kwargs params

-- What the process of a command comes to.
pub data Process : Type 0 where
  succeeded called_process_error timeout_expired : Process
  not_started : Exn → Process

-- A command and the time that it is given.
pub record Launch : Type 0 where
  pub cmd : List Value
  pub timeout : ℕ

-- `launch_short_automated_iut_process`, after the command is checked to be a list.
abbrev pub launch_short_automated_iut_process : Process → Result Bool
launch_short_automated_iut_process succeeded = ok true
launch_short_automated_iut_process called_process_error = ok false
launch_short_automated_iut_process timeout_expired = ok false
launch_short_automated_iut_process (not_started e) = raised e

abbrev pub stimuli_handler_tout : ℕ
stimuli_handler_tout = 15

-- The options of the environment that the clients read.
pub record Environment : Type 0 where
  pub coap_server_host : Text
  pub coap_server_port : Text
  pub coap_client_host : Text

-- `'coap://[%s]:%s' % (host, port)`
abbrev pub base_url_of : Text → Text → Text
base_url_of host port = codes "coap://[" ++ (host ++ (codes "]:" ++ (port ++ [])))

abbrev pub when : Bool → List Value → List Value
when true l = l
when false l = []

-- `if url: ... elif addr: ...`: the target that a request gives, or the one kept.
abbrev pub target : Option Text → Option Text → Text → Text → Text
target (some (c ∷ s)) addr port base_url = c ∷ s
target _ (some (c ∷ s)) port base_url = base_url_of (c ∷ s) port
target _ _ port base_url = base_url

-- `str` of an exception with the message and the step as its two arguments, neither with a quote.
abbrev pub not_implemented_shown : Text → Text
not_implemented_shown step =
    codes "('Received request to execute unimplemented stimuli %s', '" ++ (step ++ codes "')")

-- An argument that is set among keyword arguments is bound with them.
pub all_params-insert :
    (k : Text) (v : Value) (kwargs : Dict Value) (params : List Param)
    → is_param k params ≡ true
    → all_params kwargs params ≡ true
    → all_params (insert k v kwargs) params ≡ true
unfolding all_params insert
all_params-insert k v [] params p h = rw p refl
all_params-insert k v ((j, w) ∷ kwargs) params p h =
    ground (arith, text_eq_iff j k, all_params-insert k v kwargs params p)

-- `['..._%02d' % tc for tc in range(start, start + count)]`
unfoldable pub numbered : Text → ℕ → ℕ → List Text
numbered prefix start zero = []
numbered prefix start (suc count) =
    (prefix ++ ((48 + start / 10) ∷ (48 + start % 10) ∷ [])) ∷ numbered prefix (suc start) count
