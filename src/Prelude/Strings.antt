-- ===== src/Prelude/Strings.antt =====
-- A Python `str` as the list of its code points, and the operations of `str` that the code calls.
use Prim.Native.Nat.{ℕ, zero, suc, ◌+◌, ◌-◌}
use Prim.Native.Char.{code}
use Prim.Native.String.{String}
use mathlib.Core.Path.{ap, ◌≡◌, refl}
use mathlib.Core.Logic.{◌↔◌}
use mathlib.Core.Bool.{Bool, true, false, ◌&&◌, ◌||◌}
use mathlib.Core.List.{List, [], ◌∷◌, ◌++◌, map}
use native.Mathlib.Omega.{arith}
use ioppytest.Prelude.Tests.{leb, ltb, nat_eq, nat_eq_iff, if◌then◌else◌}

abbrev pub Text : Type 0
Text = List ℕ

abbrev pub codes : String → Text
codes String.[] = []
codes (String.◌∷◌ c s) = code c ∷ codes s

abbrev size : Text → ℕ
size [] = 0
size (c ∷ s) = suc (size s)

unfoldable pub text_eq : Text → Text → Bool
text_eq [] [] = true
text_eq [] (d ∷ t) = false
text_eq (c ∷ s) [] = false
text_eq (c ∷ s) (d ∷ t) = nat_eq c d && text_eq s t

infix 50 ◌==◌
abbrev pub ◌==◌ : Text → Text → Bool
s == t = text_eq s t

pub text_eq_iff : (s t : Text) → (text_eq s t ≡ true) ↔ (s ≡ t)
unfolding text_eq
text_eq_iff [] [] = ground arith
text_eq_iff [] (d ∷ t) = ground arith
text_eq_iff (c ∷ s) [] = ground arith
text_eq_iff (c ∷ s) (d ∷ t) = ground (arith, text_eq_iff s t)

pub text_eq_refl : (s : Text) → text_eq s s ≡ true
text_eq_refl s = (text_eq_iff s s).1 refl

-- `str.upper`, on the ASCII letters.
upper_code : ℕ → ℕ
upper_code c = if leb b'a' c && leb c b'z' then c - 32 else c

unfoldable pub upper : Text → Text
unfolding upper_code
upper = map upper_code

-- `str.lower`, on the ASCII letters.
lower_code : ℕ → ℕ
lower_code c = if leb b'A' c && leb c b'Z' then c + 32 else c

unfoldable pub lower : Text → Text
unfolding lower_code
lower = map lower_code

-- `c in chars`
unfoldable pub has_code : ℕ → Text → Bool
has_code c [] = false
has_code c (d ∷ t) = nat_eq c d || has_code c t

-- `s.lstrip(chars)`: drops from the left every character that is one of `chars`.
unfoldable pub lstrip : Text → Text → Text
unfolding has_code
lstrip chars [] = []
lstrip chars (c ∷ s) = if has_code c chars then lstrip chars s else c ∷ s

unfoldable pub every_in : Text → Text → Bool
unfolding has_code
every_in [] chars = true
every_in (c ∷ s) chars = has_code c chars && every_in s chars

-- `s.startswith(prefix)`
unfoldable pub starts_with : Text → Text → Bool
starts_with [] s = true
starts_with (c ∷ p) [] = false
starts_with (c ∷ p) (d ∷ s) = nat_eq c d && starts_with p s

-- `part in s`
unfoldable pub contains_text : Text → Text → Bool
unfolding starts_with
contains_text part [] = starts_with part []
contains_text part (c ∷ s) = starts_with part (c ∷ s) || contains_text part s

-- `s.replace(old, new)` for an `old` that is not empty, after the first `skip` characters of `s`,
-- which belong to a match.
unfoldable pub replace_from : Text → Text → ℕ → Text → Text
unfolding starts_with
replace_from old new skip [] = []
replace_from old new (suc skip) (c ∷ s) = replace_from old new skip s
replace_from old new zero (c ∷ s) = elim (starts_with old (c ∷ s)) [
  | true ↦ new ++ replace_from old new (size old - 1) s
  | false ↦ c ∷ replace_from old new zero s
]

unfoldable pub replace : Text → Text → Text → Text
unfolding replace_from
replace old new s = replace_from old new zero s

-- `s.split(d)`, for a `d` of one character
unfoldable pub prepend : ℕ → List Text → List Text
prepend c [] = (c ∷ []) ∷ []
prepend c (w ∷ ws) = (c ∷ w) ∷ ws

unfoldable pub split : ℕ → Text → List Text
unfolding prepend
split d [] = [] ∷ []
split d (c ∷ s) = let rest = split d s in if nat_eq c d then [] ∷ rest else prepend c rest

-- A word without the separator, before one and alone.
pub split-word :
    (d : ℕ) (w s : Text) → has_code d w ≡ false → split d (w ++ (d ∷ s)) ≡ w ∷ split d s
unfolding split prepend has_code
split-word d [] s h = ground (arith, nat_eq_iff d d)
split-word d (c ∷ w) s h = ground (arith, nat_eq_iff c d, nat_eq_iff d c, split-word d w s)

pub split-one : (d : ℕ) (w : Text) → has_code d w ≡ false → split d w ≡ w ∷ []
unfolding split prepend has_code
split-one d [] h = refl
split-one d (c ∷ w) h = ground (arith, nat_eq_iff c d, nat_eq_iff d c, split-one d w)

-- Text without the first character of `old` has no match of it.
pub replace_from-no_match :
    (c : ℕ) (old new s : Text) → has_code c s ≡ false → replace_from (c ∷ old) new zero s ≡ s
unfolding replace_from has_code starts_with
replace_from-no_match c old new [] h = refl
replace_from-no_match c old new (e ∷ s) h =
    ground (arith, nat_eq_iff c e, replace_from-no_match c old new s)

pub replace-no_match :
    (c : ℕ) (old new s : Text) → has_code c s ≡ false → replace (c ∷ old) new s ≡ s
unfolding replace
replace-no_match = replace_from-no_match

-- `s.split(sep)`, for a `sep` that is not empty
split_from : Text → ℕ → Text → List Text
unfolding starts_with prepend
split_from sep skip [] = [] ∷ []
split_from sep (suc skip) (c ∷ s) = split_from sep skip s
split_from sep zero (c ∷ s) = elim (starts_with sep (c ∷ s)) [
  | true ↦ [] ∷ split_from sep (size sep - 1) s
  | false ↦ prepend c (split_from sep zero s)
]

unfoldable pub split_text : Text → Text → List Text
unfolding split_from
split_text sep s = split_from sep zero s

-- Text without the separator's first character is one part; after a separator the next starts.
heads_differ : (c e : ℕ) (s : Text) → has_code c (e ∷ s) ≡ false → nat_eq c e ≡ false
unfolding has_code
heads_differ c e s h = ground arith

tail_free : (c e : ℕ) (s : Text) → has_code c (e ∷ s) ≡ false → has_code c s ≡ false
unfolding has_code
tail_free c e s h = ground arith

split_from-prepend :
    (c : ℕ) (sep s : Text) (e : ℕ)
    → nat_eq c e ≡ false
    → split_from (c ∷ sep) zero (e ∷ s) ≡ prepend e (split_from (c ∷ sep) zero s)
unfolding split_from
split_from-prepend c sep s e n =
    let m : starts_with (c ∷ sep) (e ∷ s) ≡ false = unfold starts_with in rw n refl in
    rw (m, split_from) refl

split_from-clean :
    (c : ℕ) (sep s : Text) → has_code c s ≡ false → split_from (c ∷ sep) zero s ≡ s ∷ []
unfolding prepend
split_from-clean c sep [] h = unfold split_from in refl
split_from-clean c sep (e ∷ s) h =
    rw (split_from-prepend c sep s e (heads_differ c e s h))
      (rw (split_from-clean c sep s (tail_free c e s h)) refl)

abbrev prepend_empty : List Text → List Text
prepend_empty l = [] ∷ l

two_parts :
    (p h : Text)
    → has_code 58 p ≡ false
    → has_code 58 h ≡ false
    → split_from (58 ∷ 58 ∷ []) zero (p ++ (58 ∷ 58 ∷ h)) ≡ p ∷ h ∷ []
unfolding prepend split_from starts_with
two_parts [] h n m = ap prepend_empty (split_from-clean 58 (58 ∷ []) h m)
two_parts (e ∷ p) h n m =
    rw (split_from-prepend 58 (58 ∷ []) (p ++ (58 ∷ 58 ∷ h)) e (heads_differ 58 e p n))
      (rw (two_parts p h (tail_free 58 e p n) m) refl)

pub split_text-two :
    (p h : Text)
    → has_code 58 p ≡ false
    → has_code 58 h ≡ false
    → split_text (58 ∷ 58 ∷ []) (p ++ (58 ∷ 58 ∷ h)) ≡ p ∷ h ∷ []
unfolding split_text
split_text-two = two_parts

-- The text from the first of some characters on, and the text before it.
unfoldable pub drop_until : Text → Text → Text
unfolding has_code
drop_until chars [] = []
drop_until chars (c ∷ s) = if has_code c chars then c ∷ s else drop_until chars s

unfoldable pub take_until : Text → Text → Text
unfolding has_code
take_until chars [] = []
take_until chars (c ∷ s) =
    let rest = take_until chars s in if has_code c chars then [] else c ∷ rest

after_scheme : List Text → Text
after_scheme (scheme ∷ rest ∷ _) = drop_until (codes "/?#") rest
after_scheme (s ∷ []) = s
after_scheme [] = []

-- `urlparse(s).path`, of a URL with an authority or of a path alone. The authority ends before the
-- path, and no `://` comes later.
unfoldable pub url_path : Text → Text
unfolding split_text drop_until take_until after_scheme
url_path s = take_until (codes "?#") (after_scheme (split_text (codes "://") s))

-- What `lstrip` drops, and where it stops.
pub lstrip-append :
    (chars p : Text) (c : ℕ) (s : Text)
    → every_in p chars ≡ true
    → has_code c chars ≡ false
    → lstrip chars (p ++ (c ∷ s)) ≡ c ∷ s
unfolding lstrip every_in
lstrip-append chars [] c s h n = rw n refl
lstrip-append chars (d ∷ p) c s h n = ground (arith, lstrip-append chars p c s)

-- `s < t` and `s <= t`: lexicographic, by code points.
unfoldable pub text_le : Text → Text → Bool
text_le [] t = true
text_le (c ∷ s) [] = false
text_le (c ∷ s) (d ∷ t) = ltb c d || (nat_eq c d && text_le s t)
