-- ===== src/Verdict/Worst.antt =====
-- A verdict is the worst of all that it was updated with.
use ioppytest.Prelude.{
  ℕ, ◌≤◌, ◌<◌, max, ◌≡◌, refl, List, [], ◌∷◌, ◌++◌, Option, none, some, Text, arith, Result, ok,
  raised, assertion_error, All,
}
use ioppytest.Verdict.{Verdict, severity, absorb, update, update_all}

abbrev pub cons_severity : Option ℕ → Option (List ℕ) → Option (List ℕ)
cons_severity none rest = none
cons_severity (some n) none = none
cons_severity (some n) (some ns) = some (n ∷ ns)

-- The severities of a run of updates, if every name is known.
unfoldable pub severities : List (Text × Text) → Option (List ℕ)
severities [] = some []
severities ((name, _) ∷ rest) = cons_severity (severity name) (severities rest)

abbrev pub worst : ℕ → List ℕ → ℕ
worst n [] = n
worst n (m ∷ ms) = worst (max n m) ms

-- What a run of updates promises, by the severities of its names.
abbrev pub IsWorst : Verdict → Result Verdict → Option (List ℕ) → Type 0
IsWorst v r none = r ≡ raised assertion_error
IsWorst v r (some ns) = (w : Verdict) × (r ≡ ok w) × (w.value ≡ worst v.value ns)

pub update_known :
    (name message : Text) (v : Verdict) {n : ℕ}
    → severity name ≡ some n
    → update name message v ≡ ok (absorb n message v)
unfolding update
update_known name message v e = rw (e, update)

pub update_unknown :
    (name message : Text) (v : Verdict)
    → severity name ≡ none
    → update name message v ≡ raised assertion_error
unfolding update
update_unknown name message v e = rw (e, update)

pub value-absorb :
    (n : ℕ) (message : Text) (v : Verdict) → (absorb n message v).value ≡ max v.value n
unfolding absorb
value-absorb n message v = ground arith

update_all-cons :
    (name message : Text) (rest : List (Text × Text)) (v : Verdict) (s : Option ℕ)
    (t : Option (List ℕ))
    → severity name ≡ s
    → ((w : Verdict) → IsWorst w (update_all rest w) t)
    → IsWorst v (update_all ((name, message) ∷ rest) v) (cons_severity s t)
unfolding update_all
update_all-cons name message rest v none t e ih = rw (update_unknown name message v e)
update_all-cons name message rest v (some n) none e ih =
    rw (update_known name message v e) (ih (absorb n message v))
update_all-cons name message rest v (some n) (some ns) e ih =
    let (w, f, h) = ih (absorb n message v) in
    (w, rw (update_known name message v e) f, rw (h, value-absorb n message v) refl)

-- A run of updates ends with the worst of the initial verdict and of those given, or, if one of
-- the names is unknown, with the `AssertionError` of that name.
pub update_all-IsWorst :
    (l : List (Text × Text)) (v : Verdict) → IsWorst v (update_all l v) (severities l)
unfolding severities
update_all-IsWorst [] v = (v, unfold update_all in refl, refl)
update_all-IsWorst ((name, message) ∷ rest) v =
    update_all-cons name message rest v (severity name) (severities rest) refl
      (update_all-IsWorst rest)

-- Every name of the run is known, and none is worse than `n`.
abbrev pub AtMost : ℕ → List (Text × Text) → Type 0
AtMost n = All (λ e. (m : ℕ) × (severity e.0 ≡ some m) × (m ≤ n))

-- Every name of the run is known, and all are milder than `n`.
abbrev pub Below : ℕ → List (Text × Text) → Type 0
Below n = All (λ e. (m : ℕ) × (severity e.0 ≡ some m) × (m < n))

absorb_milder :
    (n m : ℕ) (message : Text) (v : Verdict) → v.value ≤ n → m ≤ n → (absorb m message v).value ≤ n
unfolding absorb
absorb_milder n m message v h k = ground arith

absorb_mild : (m : ℕ) (message : Text) (v : Verdict) → m < v.value → absorb m message v ≡ v
unfolding absorb
absorb_mild m message v h = ground arith

absorb_worse :
    (n : ℕ) (message : Text) (v : Verdict)
    → v.value ≤ n
    → absorb n message v ≡ record { value = n; message = message }
unfolding absorb
absorb_worse n message v h = ground arith

-- Milder partial verdicts change nothing.
pub update_all-Below :
    (l : List (Text × Text)) (v : Verdict) → Below v.value l → update_all l v ≡ ok v
unfolding update_all
update_all-Below [] v h = refl
update_all-Below ((name, message) ∷ rest) v ((m, e, k), h) =
    rw (update_known name message v e, absorb_mild m message v k) (update_all-Below rest v h)

-- The verdict after a run is that of the last of its worst partial verdicts, message included.
pub update_all_decisive :
    (l : List (Text × Text)) (name message : Text) (rest : List (Text × Text)) (v : Verdict) (n : ℕ)
    → severity name ≡ some n
    → v.value ≤ n
    → AtMost n l
    → Below n rest
    → update_all (l ++ ((name, message) ∷ rest)) v ≡ ok (record { value = n; message = message })
unfolding update_all
update_all_decisive [] name message rest v n e k h below =
    rw (update_known name message v e, absorb_worse n message v k) (update_all-Below rest _ below)
update_all_decisive ((name', message') ∷ l) name message rest v n e k ((m, f, g), h) below =
    rw (update_known name' message' v f) (
      update_all_decisive l name message rest (absorb m message' v) n e
        (absorb_milder n m message' v k g) h below)
