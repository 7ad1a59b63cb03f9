-- ===== src/Clients/Libcoap/Executes.antt =====
-- `_execute_stimuli` of automation/coap_client_libcoap/automated_iut.py: what is launched.
use ioppytest.Prelude.{arith, is_some, insert, lookup-insert, contains}
use ioppytest.Prelude.{
  Bool, true, false, ◌&&◌, [], ◌∷◌, ◌++◌, Option, none, some, Text, codes, text_eq, Dict, lookup,
  refl, ◌≡◌, ◌∙◌, ap, Result, ok, raised,
}
use ioppytest.Clients.{Value, number, text, str, given, Launch}
use ioppytest.Clients.Libcoap.Table.{Func, get, put, post, delete, observe}
use ioppytest.Clients.Libcoap.{params_of}
use ioppytest.Clients.Libcoap.Reading.{Request, read_command, asked}
use ioppytest.Clients.Libcoap.Meaning.{Matches, meant, wanted, asks_block, asked-Matches}
use ioppytest.Clients.Libcoap.{call, table_of, options_of}
use ioppytest.Clients.{
  all_params, is_param, Environment, Process, target, launch_short_automated_iut_process,
  not_implemented_shown, base_url_of, all_params-insert,
}
use ioppytest.Clients.Libcoap.Table.{
  Entry, stimuli_to_libcoap_cli_call, aux_stimuli_to_libcoap_cli_call,
}
use ioppytest.AutomatedIut.{Stimuli}
use ioppytest.Clients.Libcoap.Keywords.{Reads, is_timed, is_number, call-Reads}
use ioppytest.Clients.Libcoap.{Client, run_call, run_entry, execute_stimuli, stimuli_of}

-- What an entry of a table has: keyword arguments that fit the parameters, a number for a duration,
-- and a resource.
fits : Entry → Bool
unfolding is_timed
fits (func, args) =
    all_params args (params_of func) && (is_timed func args && contains (codes "resource") args)

all_fit : Dict Entry → Bool
unfolding fits
all_fit [] = true
all_fit ((step, e) ∷ d) = fits e && all_fit d

entry_fits :
    (step : Text) (d : Dict Entry) (e : Entry)
    → all_fit d ≡ true
    → lookup step d ≡ some e
    → fits e ≡ true
unfolding all_fit lookup
entry_fits step [] e h k = cc k
entry_fits step ((j, f) ∷ d) e h k = ground (arith, entry_fits step d e)

stimuli_fit : (base_url : Text) → all_fit (stimuli_to_libcoap_cli_call base_url) ≡ true
unfolding all_fit fits all_params is_param params_of options_of is_timed is_number contains lookup
    text_eq
stimuli_fit base_url = refl

aux_stimuli_fit : (base_url : Text) → all_fit (aux_stimuli_to_libcoap_cli_call base_url) ≡ true
unfolding all_fit fits all_params is_param params_of options_of is_timed is_number contains lookup
    text_eq
aux_stimuli_fit base_url = refl

table_fits : (env : Environment) (mode_aux : Bool) → all_fit (table_of env mode_aux) ≡ true
table_fits env true = aux_stimuli_fit (base_url_of env.coap_server_host env.coap_server_port)
table_fits env false = stimuli_fit (base_url_of env.coap_server_host env.coap_server_port)

-- Setting the `base_url` of an entry.
abbrev with_url : Text → Dict Value → Dict Value
with_url base_url args = insert (codes "base_url") (text base_url) args

timed_with_url :
    (base_url : Text) (func : Func) (args : Dict Value)
    → is_timed func (with_url base_url args) ≡ is_timed func args
unfolding is_timed text_eq
timed_with_url base_url get args = refl
timed_with_url base_url put args = refl
timed_with_url base_url post args = refl
timed_with_url base_url delete args = refl
timed_with_url base_url observe args =
    ap (λ o. is_number (given o (number 15)))
      (lookup-insert (codes "base_url") (codes "duration") (text base_url) args)

url_is_param : (func : Func) → is_param (codes "base_url") (params_of func) ≡ true
unfolding is_param params_of text_eq
url_is_param func = refl

Option-cases : {A : Type 0} (o : Option A) → is_some o ≡ true → (a : A) × (o ≡ some a)
Option-cases none h = ground arith
Option-cases (some a) h = (a, refl)

-- What an entry that fits launches, at any target.
entry-Reads :
    (func : Func) (args : Dict Value) (tkn base_url : Text)
    → fits (func, args) ≡ true
    → (r : Value) × (lookup (codes "resource") args ≡ some r)
      × Reads
          (asked func (base_url ++ str r) tkn (with_url base_url args))
          (call (func, with_url base_url args) tkn)
unfolding fits contains text_eq
entry-Reads func args tkn base_url h =
    let p : all_params args (params_of func) ≡ true = ground arith in
    let t : is_timed func args ≡ true = ground arith in
    let c : is_some (lookup (codes "resource") args) ≡ true = ground arith in
    let (r, e) = Option-cases (lookup (codes "resource") args) c in
    (
      r,
      e,
      call-Reads func (with_url base_url args) tkn (text base_url) r
          (all_params-insert (codes "base_url") (text base_url) args (params_of func)
            (url_is_param func) p)
          (timed_with_url base_url func args ∙ t)
          (lookup-insert (codes "base_url") (codes "base_url") (text base_url) args)
          (lookup-insert (codes "base_url") (codes "resource") (text base_url) args ∙ e),
    )

-- What comes of a request for a step whose entry is given, of a client whose target is set.
abbrev pub Does :
    (Launch → Process) → Text → Text → Option Entry → Client → Stimuli × Client → Type 0
Does process tkn step none client result =
    result ≡ (Stimuli.not_implemented (not_implemented_shown step), client)
Does process tkn step (some (func, args)) client result =
    (r : Value) × (l : Launch) × (q : Request) × (lookup (codes "resource") args ≡ some r)
    × (read_command l.cmd ≡ some q)
    × Matches (asks_block func (with_url client.base_url args)) (meant q)
        (wanted func (client.base_url ++ str r) (with_url client.base_url args))
    × (result ≡ (
      stimuli_of (launch_short_automated_iut_process (process l)),
      record client { launched = client.launched ++ (l ∷ []) },
    ))

module _ (env : Environment) (process : Launch → Process) (tkn step : Text) where
  launched-Does :
      (func : Func) (args : Dict Value) (client : Client) (r : Value) (m : Result Launch)
      → lookup (codes "resource") args ≡ some r
      → Reads (asked func (client.base_url ++ str r) tkn (with_url client.base_url args)) m
      → Does process tkn step (some (func, args)) client (run_call env process tkn m client)
  unfolding run_call
  launched-Does func args client r (ok l) e h =
      let args' = with_url client.base_url args in
      (
        r,
        l,
        asked func (client.base_url ++ str r) tkn args',
        e,
        h,
        asked-Matches func (client.base_url ++ str r) tkn args',
        refl,
      )
  launched-Does func args client r (raised x) e h = absurd h

  entry-Does :
      (o : Option Entry) (client : Client)
      → ((e : Entry) → o ≡ some e → fits e ≡ true)
      → Does process tkn step o client (run_entry env process tkn step o client)
  unfolding run_entry
  entry-Does none client h = refl
  entry-Does (some (func, args)) client h =
      let (r, e, m) = entry-Reads func args tkn client.base_url (h (func, args) refl) in
      launched-Does func args client r (call (func, with_url client.base_url args) tkn) e m

  -- A request for a step, in any state of the client, sets the target. Without an entry for the
  -- step in the table of its mode, the client launches nothing and the stimuli is not implemented.
  -- With one, it launches exactly one more command. By the documented syntax this command means
  -- the request that the entry asks for, at the target and the entry's resource, with a token
  -- exactly when one is asked for; where the entry asks for a block, all but the block is as asked
  -- for. The stimuli is executed unless the process does not start.
  pub execute_stimuli_lem :
      (addr url : Option Text) (client : Client)
      → Does process tkn step
          (lookup step (table_of env client.mode_aux))
          (record client { base_url = target url addr env.coap_server_port client.base_url })
          (execute_stimuli env process tkn step addr url client)
  unfolding execute_stimuli
  execute_stimuli_lem addr url client =
      entry-Does (lookup step (table_of env client.mode_aux))
        (record client { base_url = target url addr env.coap_server_port client.base_url })
        (λ e h. entry_fits step (table_of env client.mode_aux) e (table_fits env client.mode_aux) h)
