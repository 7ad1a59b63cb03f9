-- ===== src/Prelude/Lists.antt =====
-- Lists by position, and the tests on lists of texts that Python writes `in`, `any`, `sorted`.
use Prim.Native.Nat.{ℕ, zero, suc, ◌+◌, ◌<◌}
use mathlib.Core.Path.{◌≡◌, refl, ap, sym, ◌∙◌}
use mathlib.Core.Bool.{Bool, true, false, not, ◌&&◌, ◌||◌}
use mathlib.Core.List.{List, [], ◌∷◌, ◌++◌, map}
use mathlib.Core.Option.{Option, none, some}
use native.Mathlib.Nat.{suc-add}
use native.Mathlib.Omega.{arith}
use ioppytest.Prelude.Tests.{if◌then◌else◌}
use ioppytest.Prelude.Strings.{Text, ◌==◌, text_eq_iff, text_le}

module _ {ℓ} {A : Type ℓ} where
  abbrev pub length : List A → ℕ
  length [] = 0
  length (x ∷ xs) = suc (length xs)

  abbrev pub get_elem? : List A → ℕ → Option A
  get_elem? [] i = none
  get_elem? (x ∷ xs) zero = some x
  get_elem? (x ∷ xs) (suc i) = get_elem? xs i

  -- The element at a position is changed; a position out of range changes nothing.
  abbrev pub modify_at : List A → ℕ → (A → A) → List A
  modify_at [] i f = []
  modify_at (x ∷ xs) zero f = f x ∷ xs
  modify_at (x ∷ xs) (suc i) f = x ∷ modify_at xs i f

  abbrev pub drop : ℕ → List A → List A
  drop zero xs = xs
  drop (suc n) [] = []
  drop (suc n) (x ∷ xs) = drop n xs

  abbrev pub all : (A → Bool) → List A → Bool
  all p [] = true
  all p (x ∷ xs) = p x && all p xs

  abbrev pub All {κ} : (A → Type κ) → List A → Type κ
  All P [] = Unit
  All P (x ∷ xs) = P x × All P xs

  -- The first element that passes the test.
  abbrev pub find? : (A → Bool) → List A → Option A
  find? p [] = none
  find? p (x ∷ xs) = if p x then some x else find? p xs

  abbrev pub filter_by : (A → Bool) → List A → List A
  filter_by p [] = []
  filter_by p (x ∷ xs) = let rest = filter_by p xs in if p x then x ∷ rest else rest

  pub length-modify_at : (xs : List A) (i : ℕ) (f : A → A) → length (modify_at xs i f) ≡ length xs
  length-modify_at [] i f = refl
  length-modify_at (x ∷ xs) zero f = refl
  length-modify_at (x ∷ xs) (suc i) f = ap suc (length-modify_at xs i f)

  pub length-append : (xs ys : List A) → length (xs ++ ys) ≡ length xs + length ys
  length-append [] ys = omega arith
  length-append (x ∷ xs) ys = omega (arith, length-append xs ys)

pub length-map {ℓ κ} :
    {A : Type ℓ} {B : Type κ} (f : A → B) (xs : List A) → length (map f xs) ≡ length xs
length-map f [] = refl
length-map f (x ∷ xs) = ap suc (length-map f xs)

-- `x in xs`
unfoldable pub mem : Text → List Text → Bool
mem x [] = false
mem x (y ∷ ys) = x == y || mem x ys

-- `set.add`
unfoldable pub set_add : Text → List Text → List Text
unfolding mem
set_add x xs = if mem x xs then xs else xs ++ (x ∷ [])

-- `a |= b`
unfoldable pub set_union : List Text → List Text → List Text
unfolding set_add
set_union xs [] = xs
set_union xs (y ∷ ys) = set_union (set_add y xs) ys

-- `set(xs) - set(ys)`, for a list `xs` without repetition, in the order of `xs`.
unfoldable pub set_difference : List Text → List Text → List Text
unfolding mem
set_difference [] ys = []
set_difference (x ∷ xs) ys = let rest = set_difference xs ys in if mem x ys then rest else x ∷ rest

-- `sorted`
insert_sorted : Text → List Text → List Text
insert_sorted x [] = x ∷ []
insert_sorted x (y ∷ ys) = if text_le x y then x ∷ y ∷ ys else y ∷ insert_sorted x ys

unfoldable pub sorted : List Text → List Text
unfolding insert_sorted
sorted [] = []
sorted (x ∷ xs) = insert_sorted x (sorted xs)

pub get_elem?-drop {ℓ} :
    {A : Type ℓ} (n : ℕ) (xs : List A) (m : ℕ) → get_elem? (drop n xs) m ≡ get_elem? xs (n + m)
get_elem?-drop zero xs m = ap (get_elem? xs) (omega arith)
get_elem?-drop (suc n) [] m = refl
get_elem?-drop (suc n) (x ∷ xs) m =
    get_elem?-drop n xs m ∙ sym (ap (get_elem? (x ∷ xs)) (suc-add n m))

pub get_elem?-modify_at_self {ℓ} :
    {A : Type ℓ} (xs : List A) (i : ℕ) (f : A → A) {x : A}
    → get_elem? xs i ≡ some x
    → get_elem? (modify_at xs i f) i ≡ some (f x)
get_elem?-modify_at_self [] i f h = cc h
get_elem?-modify_at_self (y ∷ xs) zero f {x} h = let e : y ≡ x = cc h in ap (λ z. some (f z)) e
get_elem?-modify_at_self (y ∷ xs) (suc i) f h = get_elem?-modify_at_self xs i f h

-- A change before a position does not reach what lies behind it.
pub drop-modify_at {ℓ} :
    {A : Type ℓ} (xs : List A) (i : ℕ) (f : A → A)
    → drop (suc i) (modify_at xs i f) ≡ drop (suc i) xs
drop-modify_at [] i f = refl
drop-modify_at (x ∷ xs) zero f = refl
drop-modify_at (x ∷ xs) (suc i) f = drop-modify_at xs i f

pub drop-nil {ℓ} : {A : Type ℓ} (n : ℕ) → drop {A = A} n [] ≡ []
drop-nil zero = refl
drop-nil (suc n) = refl

pub drop-drop {ℓ} : {A : Type ℓ} (m n : ℕ) (xs : List A) → drop m (drop n xs) ≡ drop (n + m) xs
drop-drop m zero xs = ap (λ k. drop k xs) (omega arith)
drop-drop m (suc n) [] = drop-nil m ∙ sym (drop-nil (suc n + m))
drop-drop m (suc n) (x ∷ xs) = drop-drop m n xs ∙ sym (ap (λ k. drop k (x ∷ xs)) (suc-add n m))

pub nil_of_length {ℓ} : {A : Type ℓ} (xs : List A) → length xs ≡ 0 → xs ≡ []
nil_of_length [] h = refl
nil_of_length (x ∷ xs) h = absurd (omega arith)

pub length-drop-suc {ℓ} :
    {A : Type ℓ} (m : ℕ) (xs : List A) {x : A}
    → get_elem? xs m ≡ some x
    → length (drop (suc m) xs) < length xs
length-drop-suc m [] h = cc h
length-drop-suc zero (x ∷ xs) h = omega arith
length-drop-suc (suc m) (x ∷ xs) h = omega (arith, length-drop-suc m xs h)

mem-insert_sorted :
    (j x : Text) (ys : List Text) → mem j (insert_sorted x ys) ≡ (j == x || mem j ys)
unfolding mem insert_sorted
mem-insert_sorted j x [] = refl
mem-insert_sorted j x (y ∷ ys) = ground (arith, mem-insert_sorted j x ys)

-- Sorting keeps the members.
pub mem-sorted : (j : Text) (xs : List Text) → mem j (sorted xs) ≡ mem j xs
unfolding sorted mem
mem-sorted j [] = refl
mem-sorted j (x ∷ xs) = mem-insert_sorted j x (sorted xs) ∙ ap (λ b. j == x || b) (mem-sorted j xs)

pub mem-set_difference :
    (j : Text) (xs ys : List Text) → mem j (set_difference xs ys) ≡ (mem j xs && not (mem j ys))
unfolding set_difference mem
mem-set_difference j [] ys = refl
mem-set_difference j (x ∷ xs) ys = ground (arith, text_eq_iff j x, mem-set_difference j xs ys)
