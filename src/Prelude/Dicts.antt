-- ===== src/Prelude/Dicts.antt =====
-- A Python dictionary keyed by texts, in insertion order (`dict`, `OrderedDict`).
use mathlib.Core.Path.{◌≡◌, refl}
use mathlib.Core.Bool.{Bool, true, false}
use mathlib.Core.List.{List, [], ◌∷◌, map}
use mathlib.Core.Option
use mathlib.Core.Option.{Option, none, some}
use native.Mathlib.Omega.{arith}
use ioppytest.Prelude.Tests.{if◌then◌else◌}
use ioppytest.Prelude.Lists.{mem}
use ioppytest.Prelude.Strings.{Text, text_eq_iff, ◌==◌}

abbrev pub Dict {ℓ} : Type ℓ → Type ℓ
Dict V = List (Text × V)

abbrev pub is_some {ℓ} : {A : Type ℓ} → Option A → Bool
is_some none = false
is_some (some _) = true

module _ {ℓ} {V : Type ℓ} where
  unfoldable pub lookup : Text → Dict V → Option V
  lookup k [] = none
  lookup k ((j, v) ∷ d) = if j == k then some v else lookup k d

  -- `k in d`
  unfoldable pub contains : Text → Dict V → Bool
  unfolding lookup
  contains k d = is_some (lookup k d)

  -- `d[k] = v`: an old key keeps its place.
  unfoldable pub insert : Text → V → Dict V → Dict V
  insert k v [] = (k, v) ∷ []
  insert k v ((j, w) ∷ d) = if j == k then (j, v) ∷ d else (j, w) ∷ insert k v d

  -- `d.update(e)`
  unfoldable pub update : Dict V → Dict V → Dict V
  unfolding insert
  update d [] = d
  update d ((k, v) ∷ e) = update (insert k v d) e

  -- A change of the object that a key holds.
  unfoldable pub modify_key : Text → (V → V) → Dict V → Dict V
  modify_key k f [] = []
  modify_key k f ((j, v) ∷ d) = if j == k then (j, f v) ∷ d else (j, v) ∷ modify_key k f d

  -- `d.pop(k)`. A key stands once in a dictionary; every pair of the key goes.
  unfoldable pub remove : Text → Dict V → Dict V
  remove k [] = []
  remove k ((j, v) ∷ d) = let rest = remove k d in if j == k then rest else (j, v) ∷ rest

  abbrev pub keys : Dict V → List Text
  keys = map (λ e. e.0)

  abbrev pub values : Dict V → List V
  values = map (λ e. e.1)

  pub lookup-insert :
      (k j : Text) (v : V) (d : Dict V)
      → lookup j (insert k v d) ≡ (if k == j then some v else lookup j d)
  unfolding lookup insert
  lookup-insert k j v [] = refl
  lookup-insert k j v ((i, w) ∷ d) =
      ground (arith, text_eq_iff k j, text_eq_iff i k, text_eq_iff i j, lookup-insert k j v d)

  pub lookup-modify_key :
      (k j : Text) (f : V → V) (d : Dict V)
      → lookup j (modify_key k f d) ≡ (if k == j then Option.map f (lookup j d) else lookup j d)
  unfolding lookup modify_key
  lookup-modify_key k j f [] = ground arith
  lookup-modify_key k j f ((i, w) ∷ d) =
      ground (arith, text_eq_iff k j, text_eq_iff i k, text_eq_iff i j, lookup-modify_key k j f d)

pub lookup-remove {ℓ} :
    {V : Type ℓ} (k j : Text) (d : Dict V)
    → lookup j (remove k d) ≡ (if k == j then none else lookup j d)
unfolding lookup remove
lookup-remove k j [] = ground arith
lookup-remove k j ((i, w) ∷ d) =
    ground (arith, text_eq_iff k j, text_eq_iff i k, text_eq_iff i j, lookup-remove k j d)

pub mem-keys {ℓ} : {V : Type ℓ} (j : Text) (d : Dict V) → mem j (keys d) ≡ contains j d
unfolding mem contains lookup
mem-keys j [] = refl
mem-keys j ((k, v) ∷ d) = ground (arith, text_eq_iff j k, text_eq_iff k j, mem-keys j d)
