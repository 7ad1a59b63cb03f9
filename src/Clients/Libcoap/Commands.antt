-- ===== src/Clients/Libcoap/Commands.antt =====
-- What the program reads of each command of automation/coap_client_libcoap/automated_iut.py.
use ioppytest.Prelude.{
  Bool, true, false, not, List, [], ◌∷◌, ◌++◌, none, some, Text, codes, text_eq, Dict, refl, ◌≡◌,
  ◌∙◌, ap,
}
use ioppytest.Clients.{Value, no_value, flag, number, text, bytes, truthy, str, when}
use ioppytest.Clients.Libcoap.Table.{block_value, get, put, post, delete, observe}
use ioppytest.Clients.Libcoap.{
  get_command, put_command, post_command, delete_command, observe_command, non, token, block,
  option, content,
}
use ioppytest.Clients.Libcoap.Reading.{
  Request, start, set_option, read, read_command, arg, or_old, use_token_of, confirmable_of,
  format_of, payload_of, file_of, asked,
}

-- Each part of a command is read as what it stands for, whatever follows.
module _ (l : List Value) (r : Request) where
  read-non :
      (b : Bool)
      → read none (when (not b) (text (codes "-N") ∷ []) ++ l) (record r { confirmable = true })
        ≡ read none l (record r { confirmable = b })
  unfolding read text_eq
  read-non true = refl
  read-non false = refl

  read-accept :
      (b : Bool) (v : Value)
      → read none (when b (option (codes "-A") v) ++ l) r
        ≡ read none l (record r { accept = or_old b v r.accept })
  unfolding read set_option text_eq
  read-accept true v = refl
  read-accept false v = refl

  read-token :
      (b : Bool) (v : Value)
      → read none (token b v ++ l) r
        ≡ read none l (record r { token_option = or_old b v r.token_option })
  unfolding read set_option text_eq
  read-token true v = refl
  read-token false v = refl

  read-if_none_match :
      (b : Bool) (v : Value)
      → read none (when b (option (codes "-O") v) ++ l) r
        ≡ read none l (record r { if_none_match = or_old b v r.if_none_match })
  unfolding read set_option text_eq
  read-if_none_match true v = refl
  read-if_none_match false v = refl

  read-content :
      (b : Bool) (file payload : Value)
      → read none (content b file payload ++ l) r
        ≡ read none l
            (record r { file = or_old b file r.file; payload = or_old (not b) payload r.payload })
  unfolding read set_option text_eq
  read-content true file payload = refl
  read-content false file payload = refl

-- The last part of a command.
read-block :
    (b : Bool) (size : Value) (r : Request)
    → read none (block b size) r
      ≡ record r { block_option = or_old b (block_value size) r.block_option }
unfolding read set_option text_eq
read-block true size r = refl
read-block false size r = refl

read-last_token :
    (b : Bool) (v : Value) (r : Request)
    → read none (token b v) r ≡ record r { token_option = or_old b v r.token_option }
unfolding read set_option text_eq
read-last_token true v r = refl
read-last_token false v r = refl

-- How most commands end: `-N` and the token, or these and the block.
module _ (c t : Bool) (v : Value) (r : Request) where
  read-plain :
      read none (non c ++ token t v) (record r { confirmable = true })
      ≡ record r { confirmable = c; token_option = or_old t v r.token_option }
  read-plain = read-non (token t v) r c ∙ read-last_token t v (record r { confirmable = c })

  read-tail :
      (b : Bool) (s : Value)
      → read none (non c ++ (token t v ++ block b s)) (record r { confirmable = true }) ≡ record r {
        confirmable = c;
        token_option = or_old t v r.token_option;
        block_option = or_old b (block_value s) r.block_option;
      }
  read-tail b s =
      let r' : Request = record r { confirmable = c } in
      read-non (token t v ++ block b s) r c
      ∙ read-token (block b s) r' t v
      ∙ read-block b s (record r' { token_option = or_old t v r.token_option })

-- Each command is read as what its arguments state.
module _ (tkn : Text) (u r : Value) (args : Dict Value) where
  abbrev url : Text
  url = str u ++ str r

  pub get-Asks :
      read_command (
        get_command tkn u r
          (arg (codes "confirmable") (flag true) args)
          (arg (codes "use_token") (flag true) args)
          (arg (codes "accept_option") no_value args)
          (arg (codes "use_block_option") (flag false) args)
          (arg (codes "block_size") (number 64) args))
      ≡ some (asked get url tkn args)
  unfolding get_command read_command asked set_option read text_eq
  get-Asks =
      let accept = arg (codes "accept_option") no_value args in
      let use_block = truthy (arg (codes "use_block_option") (flag false) args) in
      let size = arg (codes "block_size") (number 64) args in
      let later = token (use_token_of args) (bytes tkn) ++ block use_block size in
      ap some (
        read-accept (non (confirmable_of args) ++ later) (start url) (truthy accept) accept
        ∙ read-tail (confirmable_of args) (use_token_of args) (bytes tkn)
            (record (start url) { accept = or_old (truthy accept) accept none }) use_block size)

  pub put-Asks :
      read_command (
        put_command tkn u r
          (format_of args)
          (arg (codes "confirmable") (flag true) args)
          (arg (codes "use_token") (flag true) args)
          (arg (codes "use_if_none_match") (flag false) args)
          (arg (codes "use_block_option") (flag false) args)
          (arg (codes "block_size") (number 64) args)
          (payload_of args)
          (file_of args))
      ≡ some (asked put url tkn args)
  unfolding put_command read_command asked set_option read text_eq
  put-Asks =
      let file = truthy (file_of args) in
      let one = truthy (arg (codes "use_if_none_match") (flag false) args) in
      let use_block = truthy (arg (codes "use_block_option") (flag false) args) in
      let size = arg (codes "block_size") (number 64) args in
      let last = when one (option (codes "-O") (text (codes "5"))) ++ block use_block size in
      let tk = text (str (bytes tkn)) in
      let later = non (confirmable_of args) ++ (token (use_token_of args) tk ++ last) in
      let r0 : Request = record (start url) {
        method = text (codes "PUT");
        format = some (text (str (format_of args)));
      } in
      let r1 : Request = record r0 {
        file = or_old file (text (str (file_of args))) none;
        payload = or_old (not file) (text (str (payload_of args))) none;
      } in
      let r2 : Request = record r1 { confirmable = confirmable_of args } in
      let r3 : Request = record r2 { token_option = or_old (use_token_of args) tk none } in
      ap some (
        read-content later r0 file (text (str (file_of args))) (text (str (payload_of args)))
        ∙ read-non (token (use_token_of args) tk ++ last) r1 (confirmable_of args)
        ∙ read-token last r2 (use_token_of args) tk
        ∙ read-if_none_match (block use_block size) r3 one (text (codes "5"))
        ∙ read-block use_block size
            (record r3 { if_none_match = or_old one (text (codes "5")) none }))

  pub post-Asks :
      read_command (
        post_command tkn u r
          (format_of args)
          (arg (codes "confirmable") (flag true) args)
          (arg (codes "use_token") (flag true) args)
          (arg (codes "use_block_option") (flag false) args)
          (arg (codes "block_size") (number 64) args)
          (payload_of args)
          (file_of args))
      ≡ some (asked post url tkn args)
  unfolding post_command read_command asked set_option read text_eq
  post-Asks =
      let file = truthy (file_of args) in
      let use_block = truthy (arg (codes "use_block_option") (flag false) args) in
      let size = arg (codes "block_size") (number 64) args in
      let tk = text (str (bytes tkn)) in
      let later =
        non (confirmable_of args) ++ (token (use_token_of args) tk ++ block use_block size) in
      let r0 : Request = record (start url) {
        method = text (codes "POST");
        format = some (text (str (format_of args)));
      } in
      let r1 : Request = record r0 {
        file = or_old file (file_of args) none;
        payload = or_old (not file) (payload_of args) none;
      } in
      ap some (
        read-content later r0 file (file_of args) (payload_of args)
        ∙ read-tail (confirmable_of args) (use_token_of args) tk r1 use_block size)

  pub delete-Asks :
      read_command (
        delete_command tkn u r
          (arg (codes "confirmable") (flag true) args)
          (arg (codes "use_token") (flag true) args))
      ≡ some (asked delete url tkn args)
  unfolding delete_command read_command asked set_option read text_eq
  delete-Asks = ap some (
      read-plain (confirmable_of args) (use_token_of args) (text (str (bytes tkn)))
        (record (start url) { method = text (codes "DELETE") }))

  pub observe-Asks :
      read_command (
        observe_command tkn u r
          (arg (codes "confirmable") (flag true) args)
          (arg (codes "use_token") (flag true) args)
          (arg (codes "duration") (number 15) args))
      ≡ some (asked observe url tkn args)
  unfolding observe_command read_command asked set_option read text_eq
  observe-Asks = ap some (
      read-plain (confirmable_of args) (use_token_of args) (text (str (bytes tkn)))
        (record (start url) {
          seconds = some (text (str (arg (codes "duration") (number 15) args)));
        }))
