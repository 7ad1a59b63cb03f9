-- ===== src/Clients/Libcoap/Meaning.antt =====
-- What the request of a command means by the syntax that the head of
-- automation/coap_client_libcoap/automated_iut.py documents, and the request that the keyword
-- arguments of a function ask for. A token is random, so that only its presence counts.
use ioppytest.Prelude.{
  Bool, true, false, not, List, [], ◌∷◌, Option, none, some, is_some, Text, codes, ◌==◌, Dict, refl,
  ◌≡◌, split_text, text_eq,
}
use ioppytest.Clients.{Value, no_value, flag, number, text, bytes, truthy, str}
use ioppytest.Clients.Libcoap.Table.{Func, block_value, get, put, post, delete, observe}
use ioppytest.Clients.Libcoap.Reading.{
  Request, arg, or_old, use_token_of, confirmable_of, format_of, payload_of, file_of, asked,
}

pub record Meant : Type 0 where
  pub url : Text
  pub method : Text
  pub confirmable : Bool
  pub accept : Option Text
  pub format : Option Text
  pub payload : Option Text
  pub file : Option Text
  pub has_token : Bool
  pub first_block : Option (Text × Text)
  pub if_none_match : Bool
  pub seconds : Option Text

two_of : List Text → Option (Text × Text)
two_of (a ∷ b ∷ []) = some (a, b)
two_of _ = none

-- `-b 3,256`: the number of the block, a comma and the size. Anything else is not read.
block_read : Option Value → Option (Text × Text)
unfolding two_of
block_read (some (text t)) = two_of (split_text (codes ",") t)
block_read _ = none

-- `-O 5`: the option of that number is If-None-Match.
is_if_none_match : Option Value → Bool
is_if_none_match (some (text t)) = t == codes "5"
is_if_none_match _ = false

shown : Option Value → Option Text
shown none = none
shown (some v) = some (str v)

unfoldable pub meant : Request → Meant
unfolding block_read is_if_none_match shown
meant r = record {
  url = r.url;
  method = str r.method;
  confirmable = r.confirmable;
  accept = shown r.accept;
  format = shown r.format;
  payload = shown r.payload;
  file = shown r.file;
  has_token = is_some r.token_option;
  first_block = block_read r.block_option;
  if_none_match = is_if_none_match r.if_none_match;
  seconds = shown r.seconds;
}

abbrev pub when_set : {A : Type 0} → Bool → A → Option A
when_set true a = some a
when_set false a = none

-- The parts that every function has.
abbrev pub common : Text → Text → Dict Value → Meant
common method url args = record {
  url = url;
  method = method;
  confirmable = confirmable_of args;
  accept = none;
  format = none;
  payload = none;
  file = none;
  has_token = use_token_of args;
  first_block = none;
  if_none_match = false;
  seconds = none;
}

abbrev pub uses_block : Dict Value → Bool
uses_block args = truthy (arg (codes "use_block_option") (flag false) args)

-- The first block of the size that is asked for.
abbrev pub block_wanted : Dict Value → Option (Text × Text)
block_wanted args =
    when_set (uses_block args) (codes "0", str (arg (codes "block_size") (number 64) args))

-- The payload in the file, or else in the text.
abbrev pub with_content : Text → Text → Dict Value → Meant
with_content method url args = record (common method url args) {
  format = some (str (format_of args));
  file = when_set (truthy (file_of args)) (str (file_of args));
  payload = when_set (not (truthy (file_of args))) (str (payload_of args));
  first_block = block_wanted args;
}

-- The request that a function is called for.
unfoldable pub wanted : Func → Text → Dict Value → Meant
wanted get url args =
    let accept = arg (codes "accept_option") no_value args in
    record (common (codes "GET") url args) {
      accept = when_set (truthy accept) (str accept);
      first_block = block_wanted args;
    }
wanted put url args = record (with_content (codes "PUT") url args) {
  if_none_match = truthy (arg (codes "use_if_none_match") (flag false) args);
}
wanted post url args = with_content (codes "POST") url args
wanted delete url args = common (codes "DELETE") url args
wanted observe url args = record (common (codes "GET") url args) {
  seconds = some (str (arg (codes "duration") (number 15) args));
}

unfoldable pub asks_block : Func → Dict Value → Bool
asks_block get args = uses_block args
asks_block put args = uses_block args
asks_block post args = uses_block args
asks_block _ args = false

-- The same request; where a block is asked for, all but the block.
abbrev pub Matches : Bool → Meant → Meant → Type 0
Matches true q a = record q { first_block = none } ≡ record a { first_block = none }
Matches false q a = q ≡ a

first_block-Matches :
    (b : Bool) (v : Value) (y : Text × Text) (q : Meant)
    → Matches b
        (record q { first_block = block_read (or_old b v none) })
        (record q { first_block = when_set b y })
unfolding block_read
first_block-Matches true v y q = refl
first_block-Matches false v y q = refl

token_lem : (b : Bool) (v : Value) → is_some (or_old b v none) ≡ b
token_lem true v = refl
token_lem false v = refl

shown_lem : (b : Bool) (v : Value) → shown (or_old b v none) ≡ when_set b (str v)
unfolding shown
shown_lem true v = refl
shown_lem false v = refl

if_none_match_lem : (b : Bool) → is_if_none_match (or_old b (text (codes "5")) none) ≡ b
unfolding is_if_none_match text_eq
if_none_match_lem true = refl
if_none_match_lem false = refl

-- What was read, as what is asked for.
pub asked-Matches :
    (func : Func) (url tkn : Text) (args : Dict Value)
    → Matches (asks_block func args) (meant (asked func url tkn args)) (wanted func url args)
unfolding meant asked wanted asks_block
asked-Matches get url tkn args =
    let accept = arg (codes "accept_option") no_value args in
    let size = str (arg (codes "block_size") (number 64) args) in
    rw (shown_lem (truthy accept) accept, token_lem (use_token_of args) (bytes tkn))
      (first_block-Matches (uses_block args)
        (block_value (arg (codes "block_size") (number 64) args)) (codes "0", size)
        (wanted get url args))
asked-Matches put url tkn args =
    let size = str (arg (codes "block_size") (number 64) args) in
    let file = truthy (file_of args) in
    rw
      (
        shown_lem file (text (str (file_of args))),
        shown_lem (not file) (text (str (payload_of args))),
        token_lem (use_token_of args) (text (str (bytes tkn))),
        if_none_match_lem (truthy (arg (codes "use_if_none_match") (flag false) args)),
      )
      (first_block-Matches (uses_block args)
        (block_value (arg (codes "block_size") (number 64) args)) (codes "0", size)
        (wanted put url args))
asked-Matches post url tkn args =
    let size = str (arg (codes "block_size") (number 64) args) in
    let file = truthy (file_of args) in
    rw
      (
        shown_lem file (file_of args),
        shown_lem (not file) (payload_of args),
        token_lem (use_token_of args) (text (str (bytes tkn))),
      )
      (first_block-Matches (uses_block args)
        (block_value (arg (codes "block_size") (number 64) args)) (codes "0", size)
        (wanted post url args))
asked-Matches delete url tkn args = rw (token_lem (use_token_of args) (text (str (bytes tkn)))) refl
asked-Matches observe url tkn args =
    rw (token_lem (use_token_of args) (text (str (bytes tkn)))) refl
