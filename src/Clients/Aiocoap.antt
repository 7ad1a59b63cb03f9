-- ===== src/Clients/Aiocoap.antt =====
-- automation/coap_client_aiocoap/automated_iut.py: the functions that make the command of a
-- request, which ignore the keyword arguments that they have no parameter for, and the class
-- `AutomatedAiocoapClient`. The options of the environment and what comes of a process are
-- parameters.
pub mod Table
pub mod Ignores
use ioppytest.Prelude.Calls.{◌>>=◌}
use ioppytest.Prelude.{
  Bool, true, false, not, List, [], ◌∷◌, ◌++◌, Option, none, some, Text, codes, lookup, insert,
  Result, ok, raised, type_error,
}
use ioppytest.AutomatedIut.{Stimuli, Methods}
use ioppytest.Clients.{
  Value, Param, Process, Launch, Environment, no_value, flag, number, text, truthy, str, bind,
  launch_short_automated_iut_process, stimuli_handler_tout, base_url_of, when, target,
  not_implemented_shown,
}
use Table.{Func, Entry, get, put, post, delete, observe, stimuli_to_aiocoap_cli_call}

abbrev param : Text → Value → Param
param name default = (name, some default)

abbrev confirmable_param : Param
confirmable_param = param (codes "confirmable") (flag true)

abbrev content_params : List Param
content_params =
    param (codes "content_format") (text (codes "text/plain"))
    ∷ confirmable_param
    ∷ param (codes "payload") (text (codes "'my interop test payload'"))
    ∷ []

-- The parameters of the functions, with their defaults.
unfoldable pub params_of : Func → List Param
params_of func = (codes "base_url", none) ∷ (codes "resource", none) ∷ options_of func
  where
    options_of : Func → List Param
    options_of get = confirmable_param ∷ param (codes "accept_option") no_value ∷ []
    options_of put = content_params
    options_of post = content_params
    options_of delete = confirmable_param ∷ []
    options_of observe = confirmable_param ∷ param (codes "duration") (number 15) ∷ []

-- `[BASE_CMD..., '{url}{resource_path}'.format(...)]`
abbrev base_cmd : Value → Value → List Value
base_cmd u r = text (codes "aiocoap-client") ∷ text (str u ++ str r) ∷ []

abbrev non : Value → List Value
non confirmable = when (not (truthy confirmable)) (text (codes "--non") ∷ [])

-- `if accept_option is not None`: the option and its value are one argument.
abbrev accept_args : Value → List Value
accept_args no_value = []
accept_args v = text (codes "--accept " ++ str v) ∷ []

unfoldable pub get_command : (u r confirmable accept : Value) → List Value
get_command u r confirmable accept =
    base_cmd u r
    ++ (text (codes "-m") ∷ text (codes "GET") ∷ [] ++ (accept_args accept ++ non confirmable))

-- `put` and `post`, which differ in the method.
unfoldable pub content_command : Text → (u r format confirmable payload : Value) → List Value
content_command method u r format confirmable payload =
    base_cmd u r
    ++ (text (codes "-m")
        ∷ text method
        ∷ text (codes "--content-format")
        ∷ text (str format)
        ∷ text (codes "--payload")
        ∷ text (str payload)
        ∷ non confirmable)

unfoldable pub delete_command : (u r confirmable : Value) → List Value
delete_command u r confirmable =
    base_cmd u r ++ (text (codes "-m") ∷ text (codes "DELETE") ∷ non confirmable)

unfoldable pub observe_command : (u r confirmable : Value) → List Value
observe_command u r confirmable = base_cmd u r ++ (text (codes "--observe") ∷ non confirmable)

abbrev launch : List Value → Result Launch
launch cmd = ok (record { cmd = cmd; timeout = stimuli_handler_tout })

-- `timeout=duration`
abbrev launch_for : Value → List Value → Result Launch
launch_for (number duration) cmd = ok (record { cmd = cmd; timeout = duration })
launch_for _ cmd = raised type_error

-- The functions on their arguments by position.
unfoldable pub body : Func → List Value → Result Launch
unfolding get_command content_command delete_command observe_command
body get (u ∷ r ∷ c ∷ a ∷ []) = launch (get_command u r c a)
body put (u ∷ r ∷ f ∷ c ∷ p ∷ []) = launch (content_command (codes "PUT") u r f c p)
body post (u ∷ r ∷ f ∷ c ∷ p ∷ []) = launch (content_command (codes "POST") u r f c p)
body delete (u ∷ r ∷ c ∷ []) = launch (delete_command u r c)
body observe (u ∷ r ∷ c ∷ d ∷ []) = launch_for d (observe_command u r c)
body _ _ = raised type_error

-- `func(**args)`, up to the launch: `**kwargs` takes what is not a parameter.
unfoldable pub call : Entry → Result Launch
unfolding body params_of
call (func, args) = bind (params_of func) args >>= λ values. body func values

-- `base_url`, and the commands that were launched, in order.
pub record Client : Type 0 where
  pub base_url : Text
  pub launched : List Launch

-- `__init__`, after that of the class above.
unfoldable pub init : Environment → Option Text → Client
init env target_base_url = record {
  base_url =
      target target_base_url none env.coap_server_port
        (base_url_of env.coap_server_host env.coap_server_port);
  launched = [];
}

stimuli_of : Result Bool → Stimuli
stimuli_of (ok _) = Stimuli.executed
stimuli_of (raised e) = Stimuli.failed e

module _ (env : Environment) (process : Launch → Process) where
  run_call : Result Launch → Client → Stimuli × Client
  unfolding stimuli_of
  run_call (raised e) client = (Stimuli.failed e, client)
  run_call (ok l) client = (
    stimuli_of (launch_short_automated_iut_process (process l)),
    record client { launched = client.launched ++ (l ∷ []) },
  )

  run_entry : Text → Option Entry → Client → Stimuli × Client
  unfolding run_call call
  run_entry step none client = (Stimuli.not_implemented (not_implemented_shown step), client)
  run_entry step (some (func, args)) client =
      run_call (call (func, insert (codes "base_url") (text client.base_url) args)) client

  -- `_execute_stimuli`
  unfoldable pub execute_stimuli : Text → Option Text → Option Text → Client → Stimuli × Client
  unfolding run_entry
  execute_stimuli step addr url client =
      run_entry step
        (lookup step
          (stimuli_to_aiocoap_cli_call (base_url_of env.coap_server_host env.coap_server_port)))
        (record client { base_url = target url addr env.coap_server_port client.base_url })

  -- The methods of the class, of a client in a given state.
  unfoldable pub methods : (Text → Bool) → Client → Methods
  methods test_l3_reachability client = record {
    execute_stimuli = λ step addr. (execute_stimuli step addr none client).0;
    execute_verify = λ step. ok tt;
    execute_configuration = λ testcase_id node. ok (some env.coap_client_host);
    test_l3_reachability = test_l3_reachability;
  }
