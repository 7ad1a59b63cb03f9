-- ===== src/Clients/Libcoap.antt =====
-- automation/coap_client_libcoap/automated_iut.py: the functions that make the command of a
-- request, and the class `AutomatedLibcoapClient`. A token, which the operating system draws, the
-- options of the environment and what comes of a process are parameters.
pub mod Table
mod Reading
pub mod Meaning
pub mod Commands
pub mod Keywords
pub mod Executes
pub mod Target
use ioppytest.Prelude.Calls.{◌>>=◌, ◌>>◌}
use ioppytest.Prelude.Calls
use Prim.Native.Nat.{◌/◌, ◌%◌}
use ioppytest.Prelude.{
  ℕ, zero, suc, ◌+◌, Bool, true, false, not, List, [], ◌∷◌, ◌++◌, Option, none, some, Text, codes,
  Dict, lookup, insert, if◌then◌else◌, Result, ok, raised, type_error,
}
use ioppytest.AutomatedIut
use ioppytest.AutomatedIut.{AutomatedIut, Stimuli, Methods}
use ioppytest.Clients.{
  Value, Param, Process, Launch, Environment, no_value, flag, number, text, bytes, truthy, str,
  bind, numbered, all_params, launch_short_automated_iut_process, stimuli_handler_tout, base_url_of,
  when, target, not_implemented_shown,
}
use Table.{
  Func, Entry, block_value, get, put, post, delete, observe, stimuli_to_libcoap_cli_call,
  aux_stimuli_to_libcoap_cli_call,
}

abbrev pub url_params : List Param
url_params = (codes "base_url", none) ∷ (codes "resource", none) ∷ []

abbrev param : Text → Value → Param
param name default = (name, some default)

abbrev confirmable_param : Param
confirmable_param = param (codes "confirmable") (flag true)

abbrev use_token_param : Param
use_token_param = param (codes "use_token") (flag true)

abbrev use_block_param : Param
use_block_param = param (codes "use_block_option") (flag false)

abbrev block_size_param : Param
block_size_param = param (codes "block_size") (number 64)

abbrev payload_param : Param
payload_param = param (codes "payload") (text (codes "my interop test payload"))

abbrev content_format_param : Param
content_format_param = param (codes "content_format") (text (codes "text/plain"))

abbrev filepath_param : Param
filepath_param = param (codes "filepath_payload") no_value

-- The parameters of the functions after the two of the URL, with their defaults.
unfoldable pub options_of : Func → List Param
options_of get =
    confirmable_param
    ∷ use_token_param
    ∷ param (codes "accept_option") no_value
    ∷ use_block_param
    ∷ block_size_param
    ∷ []
options_of put =
    content_format_param
    ∷ confirmable_param
    ∷ use_token_param
    ∷ param (codes "use_if_none_match") (flag false)
    ∷ use_block_param
    ∷ block_size_param
    ∷ payload_param
    ∷ filepath_param
    ∷ []
options_of post =
    content_format_param ∷ confirmable_param ∷ use_token_param ∷ use_block_param ∷ block_size_param
    ∷ payload_param ∷ filepath_param ∷ []
options_of delete = confirmable_param ∷ use_token_param ∷ []
options_of observe = confirmable_param ∷ use_token_param ∷ param (codes "duration") (number 15) ∷ []

unfoldable pub params_of : Func → List Param
params_of func = url_params ++ options_of func

-- `[BASE_CMD..., '{url}{resource_path}'.format(...)]`
abbrev base_cmd : Value → Value → List Value
base_cmd base_url resource = text (codes "coap-client") ∷ text (str base_url ++ str resource) ∷ []

-- The options that stand on a condition.
abbrev pub non : Bool → List Value
non confirmable = when (not confirmable) (text (codes "-N") ∷ [])

abbrev pub option : Text → Value → List Value
option name v = text name ∷ v ∷ []

abbrev pub token : Bool → Value → List Value
token use_token tkn = when use_token (option (codes "-T") tkn)

abbrev pub block : Bool → Value → List Value
block use_block size = when use_block (option (codes "-b") (block_value size))

-- `-f` with the file, or else `-e` with the payload.
abbrev pub content : Bool → Value → Value → List Value
content true file payload = option (codes "-f") file
content false file payload = option (codes "-e") payload

-- `get`, `put`, `post`, `delete` and `observe`: the command that each launches. Only `get` leaves
-- the token as the bytes that it is.
unfoldable pub get_command :
    Text → (u r confirmable use_token accept use_block size : Value) → List Value
get_command tkn u r confirmable use_token accept use_block size =
    base_cmd u r
    ++ (option (codes "-m") (text (codes "GET"))
        ++ (when (truthy accept) (option (codes "-A") accept)
            ++ (non (truthy confirmable)
                ++ (token (truthy use_token) (bytes tkn) ++ block (truthy use_block) size))))

unfoldable pub put_command :
    Text
    → (u r format confirmable use_token if_none_match use_block size payload file : Value)
    → List Value
put_command tkn u r format confirmable use_token if_none_match use_block size payload file =
    base_cmd u r
    ++ (option (codes "-m") (text (codes "PUT"))
        ++ (option (codes "-t") (text (str format))
            ++ (content (truthy file) (text (str file)) (text (str payload))
                ++ (non (truthy confirmable)
                    ++ (token (truthy use_token) (text (str (bytes tkn)))
                        ++ (when (truthy if_none_match) (option (codes "-O") (text (codes "5")))
                            ++ block (truthy use_block) size))))))

unfoldable pub post_command :
    Text → (u r format confirmable use_token use_block size payload file : Value) → List Value
post_command tkn u r format confirmable use_token use_block size payload file =
    base_cmd u r
    ++ (option (codes "-m") (text (codes "POST"))
        ++ (option (codes "-t") (text (str format))
            ++ (content (truthy file) file payload
                ++ (non (truthy confirmable)
                    ++ (token (truthy use_token) (text (str (bytes tkn)))
                        ++ block (truthy use_block) size)))))

unfoldable pub delete_command : Text → (u r confirmable use_token : Value) → List Value
delete_command tkn u r confirmable use_token =
    base_cmd u r
    ++ (option (codes "-m") (text (codes "DELETE"))
        ++ (non (truthy confirmable) ++ token (truthy use_token) (text (str (bytes tkn)))))

unfoldable pub observe_command : Text → (u r confirmable use_token duration : Value) → List Value
observe_command tkn u r confirmable use_token duration =
    base_cmd u r
    ++ (option (codes "-s") (text (str duration))
        ++ (non (truthy confirmable) ++ token (truthy use_token) (text (str (bytes tkn)))))

abbrev pub launch : List Value → Result Launch
launch cmd = ok (record { cmd = cmd; timeout = stimuli_handler_tout })

-- `timeout=duration`
abbrev pub launch_for : Value → List Value → Result Launch
launch_for (number duration) cmd = ok (record { cmd = cmd; timeout = duration })
launch_for _ cmd = raised type_error

-- The functions on their arguments by position.
unfoldable pub body : Func → Text → List Value → Result Launch
unfolding get_command put_command post_command delete_command observe_command
body get tkn (u ∷ r ∷ c ∷ t ∷ a ∷ b ∷ s ∷ []) = launch (get_command tkn u r c t a b s)
body put tkn (u ∷ r ∷ f ∷ c ∷ t ∷ i ∷ b ∷ s ∷ p ∷ file ∷ []) =
    launch (put_command tkn u r f c t i b s p file)
body post tkn (u ∷ r ∷ f ∷ c ∷ t ∷ b ∷ s ∷ p ∷ file ∷ []) =
    launch (post_command tkn u r f c t b s p file)
body delete tkn (u ∷ r ∷ c ∷ t ∷ []) = launch (delete_command tkn u r c t)
body observe tkn (u ∷ r ∷ c ∷ t ∷ d ∷ []) = launch_for d (observe_command tkn u r c t d)
body _ tkn _ = raised type_error

-- `func(**args)`, up to the launch.
unfoldable pub call : Entry → Text → Result Launch
unfolding body params_of all_params
call (func, args) tkn =
    Calls.require type_error (all_params args (params_of func))
    >> bind (params_of func) args
    >>= λ values. body func tkn values

-- `mode_aux`, `base_url`, and the commands that were launched, in order.
pub record Client : Type 0 where
  pub mode_aux : Bool
  pub base_url : Text
  pub launched : List Launch

-- `__init__`, after that of the class above.
unfoldable pub init : Environment → Bool → Option Text → Client
init env mode_aux target_base_url = record {
  mode_aux = mode_aux;
  base_url =
      target target_base_url none env.coap_server_port
        (base_url_of env.coap_server_host env.coap_server_port);
  launched = [];
}

abbrev pub table_of : Environment → Bool → Dict Entry
table_of env mode_aux =
    let base_url = base_url_of env.coap_server_host env.coap_server_port in
    if mode_aux
    then aux_stimuli_to_libcoap_cli_call base_url
    else stimuli_to_libcoap_cli_call base_url

unfoldable pub stimuli_of : Result Bool → Stimuli
stimuli_of (ok _) = Stimuli.executed
stimuli_of (raised e) = Stimuli.failed e

module _ (env : Environment) (process : Launch → Process) (tkn : Text) where
  run_call : Result Launch → Client → Stimuli × Client
  unfolding stimuli_of
  run_call (raised e) client = (Stimuli.failed e, client)
  run_call (ok l) client = (
    stimuli_of (launch_short_automated_iut_process (process l)),
    record client { launched = client.launched ++ (l ∷ []) },
  )

  run_entry : Text → Option Entry → Client → Stimuli × Client
  unfolding run_call call
  run_entry step none client = (Stimuli.not_implemented (not_implemented_shown step), client)
  run_entry step (some (func, args)) client =
      run_call (call (func, insert (codes "base_url") (text client.base_url) args) tkn) client

  -- `_execute_stimuli`. The arguments of the table are objects that it shares with every call;
  -- each call writes their `base_url` before it uses them.
  unfoldable pub execute_stimuli : Text → Option Text → Option Text → Client → Stimuli × Client
  unfolding run_entry
  execute_stimuli step addr url client =
      run_entry step (lookup step (table_of env client.mode_aux))
        (record client { base_url = target url addr env.coap_server_port client.base_url })

  -- The methods of the class, of a client in a given state. The verify steps and the configuration
  -- are only logged.
  unfoldable pub methods : (Text → Bool) → Client → Methods
  methods test_l3_reachability client = record {
    execute_stimuli = λ step addr. (execute_stimuli step addr none client).0;
    execute_verify = λ step. ok tt;
    execute_configuration = λ testcase_id node. ok (some env.coap_client_host);
    test_l3_reachability = test_l3_reachability;
  }

unfoldable pub implemented_testcases_list : List Text
unfolding numbered
implemented_testcases_list =
    numbered (codes "TD_COAP_CORE_") 1 31
    ++ (numbered (codes "TD_COAP_OBS_") 1 10
        ++ (numbered (codes "TD_COAP_LINK_") 1 9 ++ numbered (codes "TD_COAP_BLOCK_") 2 4))

-- The automated IUT that the class makes of its attributes, with the methods of a client.
unfoldable pub automated_iut : Methods → AutomatedIut
unfolding implemented_testcases_list
automated_iut methods =
    AutomatedIut.init (codes "coap_client") (codes "automated_iut-coap_client-libcoap")
      (some implemented_testcases_list) methods
