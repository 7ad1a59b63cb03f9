-- ===== src/Clients/Libcoap/Reading.antt =====
-- How the program `coap-client` reads the options of a command, as the head of
-- automation/coap_client_libcoap/automated_iut.py documents them: a value for each option, which
-- Clients.Libcoap.Meaning interprets. Then the values that each function puts there.
use ioppytest.Prelude.{
  Bool, true, false, not, List, [], ◌∷◌, Option, none, some, Text, codes, ◌==◌, if◌then◌else◌, Dict,
  lookup,
}
use ioppytest.Clients.{Value, no_value, flag, number, text, bytes, truthy, str, given}
use ioppytest.Clients.Libcoap.Table.{Func, block_value, get, put, post, delete, observe}

-- A CoAP request, as the command line states it.
pub record Request : Type 0 where
  pub url : Text
  pub method : Value
  pub confirmable : Bool
  pub accept : Option Value
  pub format : Option Value
  pub payload : Option Value
  pub file : Option Value
  pub token_option : Option Value
  pub block_option : Option Value
  pub if_none_match : Option Value
  pub seconds : Option Value

abbrev pub start : Text → Request
start url = record {
  url = url;
  method = text (codes "GET");
  confirmable = true;
  accept = none;
  format = none;
  payload = none;
  file = none;
  token_option = none;
  block_option = none;
  if_none_match = none;
  seconds = none;
}

unfoldable pub set_option : Text → Value → Request → Request
set_option o v r =
    if o == codes "-m"
    then record r { method = v }
    else if o == codes "-A"
    then record r { accept = some v }
    else if o == codes "-t"
    then record r { format = some v }
    else if o == codes "-e"
    then record r { payload = some v }
    else if o == codes "-f"
    then record r { file = some v }
    else if o == codes "-T"
    then record r { token_option = some v }
    else if o == codes "-b"
    then record r { block_option = some v }
    else if o == codes "-O"
    then record r { if_none_match = some v }
    else if o == codes "-s"
    then record r { seconds = some v }
    else r

-- `-N` stands alone, another option before its value.
unfoldable pub read : Option Text → List Value → Request → Request
unfolding set_option
read pending [] r = r
read (some o) (v ∷ l) r = read none l (set_option o v r)
read none (text o ∷ l) r =
    let alone = read none l (record r { confirmable = false }) in
    let before = read (some o) l r in if o == codes "-N" then alone else before
read none (_ ∷ l) r = read none l r

unfoldable pub read_command : List Value → Option Request
unfolding read
read_command (program ∷ text url ∷ options) = some (read none options (start url))
read_command _ = none

-- What the keyword arguments say of a parameter.
abbrev pub arg : Text → Value → Dict Value → Value
arg name default args = given (lookup name args) default

-- An option that is present on a condition; else what was read before.
abbrev pub or_old : Bool → Value → Option Value → Option Value
or_old true v old = some v
or_old false v old = old

abbrev pub use_token_of : Dict Value → Bool
use_token_of args = truthy (arg (codes "use_token") (flag true) args)

abbrev pub confirmable_of : Dict Value → Bool
confirmable_of args = truthy (arg (codes "confirmable") (flag true) args)

abbrev pub format_of : Dict Value → Value
format_of args = arg (codes "content_format") (text (codes "text/plain")) args

abbrev pub payload_of : Dict Value → Value
payload_of args = arg (codes "payload") (text (codes "my interop test payload")) args

abbrev pub file_of : Dict Value → Value
file_of args = arg (codes "filepath_payload") no_value args

abbrev pub block_of : Dict Value → Option Value
block_of args =
    or_old (truthy (arg (codes "use_block_option") (flag false) args))
      (block_value (arg (codes "block_size") (number 64) args)) none

-- A request without a body, to a resource.
abbrev pub plain : Text → Value → Dict Value → Request
plain url tkn args = record (start url) {
  confirmable = confirmable_of args;
  token_option = or_old (use_token_of args) tkn none;
}

-- A request with a body: the file, or else the payload.
abbrev pub with_body : Text → Text → Value → Value → Value → Value → Dict Value → Request
with_body url method format file payload tkn args = record (plain url tkn args) {
  method = text method;
  format = some format;
  file = or_old (truthy (file_of args)) file none;
  payload = or_old (not (truthy (file_of args))) payload none;
  block_option = block_of args;
}

-- What a function states on the command line, value by value.
unfoldable pub asked : Func → Text → Text → Dict Value → Request
asked get url tkn args = record (plain url (bytes tkn) args) {
  accept =
      or_old (truthy (arg (codes "accept_option") no_value args))
        (arg (codes "accept_option") no_value args) none;
  block_option = block_of args;
}
asked put url tkn args =
    record (with_body url (codes "PUT") (text (str (format_of args))) (text (str (file_of args)))
      (text (str (payload_of args))) (text (str (bytes tkn))) args) {
        if_none_match =
            or_old (truthy (arg (codes "use_if_none_match") (flag false) args)) (text (codes "5"))
              none;
      }
asked post url tkn args =
    with_body url (codes "POST") (text (str (format_of args))) (file_of args) (payload_of args)
      (text (str (bytes tkn))) args
asked delete url tkn args = record (plain url (text (str (bytes tkn))) args) {
  method = text (codes "DELETE");
}
asked observe url tkn args = record (plain url (text (str (bytes tkn))) args) {
  seconds = some (text (str (arg (codes "duration") (number 15) args)));
}
