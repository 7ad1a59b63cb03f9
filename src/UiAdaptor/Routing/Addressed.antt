-- ===== src/UiAdaptor/Routing/Addressed.antt =====
-- A message that is addressed to a user is read back as that user's.
use mathlib.Core.List.{append_assoc}
use ioppytest.Prelude.{
  ℕ, ◌≡◌, refl, ap, Bool, true, false, ◌||◌, [], ◌∷◌, ◌++◌, Option, Text, codes, has_code,
  contains_text, starts_with, replace, replace_from, replace_from-no_match, prepend, split,
  split-word, split-one, ok, text_eq, arith,
}
use ioppytest.UiAdaptor.Messages.{TtMessage, UiMessage}
use ioppytest.UiAdaptor.Routing.{
  Users, destination, update_ui_message_rkeys, get_user_id_from_rkey, user_of_terms, addressed,
}

-- The key of a message for all users.
abbrev pub for_all : Text → Text
for_all last = codes "ui.user.all." ++ last

abbrev pub for_user : Text → Text → Text
for_user user last = codes "ui.user." ++ (user ++ (codes "." ++ last))

has_code-append : (c : ℕ) (s t : Text) → has_code c (s ++ t) ≡ (has_code c s || has_code c t)
unfolding has_code
has_code-append c [] t = refl
has_code-append c (d ∷ s) t = ground (arith, has_code-append c s t)

replaced :
    (user last : Text)
    → has_code b'.' last ≡ false
    → replace (codes ".all.") (codes "." ++ (user ++ codes ".")) (for_all last) ≡ for_user user last
unfolding replace replace_from starts_with
replaced user last h =
    rw (replace_from-no_match b'.' (codes "all.") (codes "." ++ (user ++ codes ".")) last h)
      (ap (λ t. codes "ui.user." ++ t) (append_assoc user (codes ".") last))

user_of_for_user :
    (user last : Text)
    → has_code b'.' user ≡ false
    → has_code b'.' last ≡ false
    → get_user_id_from_rkey (for_user user last) ≡ ok user
unfolding get_user_id_from_rkey user_of_terms split prepend text_eq
user_of_for_user user last h k = rw (split-word b'.' user last h, split-one b'.' last k) refl

all_in : (last : Text) → contains_text (codes ".all.") (for_all last) ≡ true
unfolding contains_text starts_with
all_in last = refl

no_star : (last : Text) → has_code b'*' last ≡ false → has_code b'*' (for_all last) ≡ false
unfolding has_code
no_star last h = h

or_true : (a : Bool) → (a || true) ≡ true
or_true true = refl
or_true false = refl

pub update_ui_message_rkeys_lem :
    (m : UiMessage) (tt_message : Option TtMessage) (user_id : Option Text) (mapping : Users)
    (last : Text)
    → m.routing_key ≡ for_all last
    → has_code b'.' last ≡ false
    → has_code b'*' last ≡ false
    → update_ui_message_rkeys m tt_message user_id mapping
      ≡ ok (addressed (for_user (destination tt_message user_id mapping) last) m)
unfolding update_ui_message_rkeys
update_ui_message_rkeys_lem m tt_message user_id mapping last key h star = rw key (
    rw
      (
        all_in last,
        or_true (contains_text (codes ".*.") (for_all last)),
        no_star last star,
        replaced (destination tt_message user_id mapping) last h,
      )
      refl)

-- A message for all users that is addressed to one, or for the user of the node that it is about,
-- has the key of that user and of no other: the user is read back from it. What it says is as it
-- was.
pub update_ui_message_rkeys-user :
    (m : UiMessage) (tt_message : Option TtMessage) (user_id : Option Text) (mapping : Users)
    (last : Text)
    → m.routing_key ≡ for_all last
    → has_code b'.' last ≡ false
    → has_code b'*' last ≡ false
    → has_code b'.' (destination tt_message user_id mapping) ≡ false
    → (m' : UiMessage) × (update_ui_message_rkeys m tt_message user_id mapping ≡ ok m')
      × (get_user_id_from_rkey m'.routing_key ≡ ok (destination tt_message user_id mapping))
      × (m'.correlation_id ≡ m.correlation_id)
      × (m'.fields ≡ m.fields)
unfolding addressed
update_ui_message_rkeys-user m tt_message user_id mapping last key h star user =
    let d = destination tt_message user_id mapping in
    (
      addressed (for_user d last) m,
      update_ui_message_rkeys_lem m tt_message user_id mapping last key h star,
      user_of_for_user d last user h,
      refl,
      refl,
    )
