-- ===== src/Verdict/Names.antt =====
-- Every value that a verdict takes has a name, and the name has that severity.
use ioppytest.Prelude.{
  text_eq_iff, ◌↔◌, true, sym, ◌∙◌, subst, ℕ, zero, suc, ◌<◌, ◌≡◌, refl, Text, codes, text_eq,
  arith, ok, some, List, [], ◌∷◌, length, Option-cases, inl, inr,
}
use ioppytest.Verdict.{Verdict, values, index_of, severity, name_at, get_value}

name_at_ok : (n : ℕ) → n < 6 → (name : Text) × (name_at n ≡ ok name) × (severity name ≡ some n)
unfolding name_at severity text_eq
name_at_ok zero h = (codes "none", refl, refl)
name_at_ok (suc zero) h = (codes "pass", refl, refl)
name_at_ok (suc (suc zero)) h = (codes "inconclusive", refl, refl)
name_at_ok (suc (suc (suc zero))) h = (codes "fail", refl, refl)
name_at_ok (suc (suc (suc (suc zero)))) h = (codes "aborted", refl, refl)
name_at_ok (suc (suc (suc (suc (suc zero))))) h = (codes "error", refl, refl)
name_at_ok (suc (suc (suc (suc (suc (suc n)))))) h = absurd (omega arith)

-- The name of a verdict in range has the verdict's value as its severity.
pub get_value_ok :
    (v : Verdict)
    → v.value < 6
    → (name : Text) × (get_value v ≡ ok name) × (severity name ≡ some v.value)
unfolding get_value
get_value_ok v h = name_at_ok v.value h

index_of-lt :
    (name : Text) (names : List Text) {n : ℕ} → index_of name names ≡ some n → n < length names
unfolding index_of
index_of-lt name [] h = cc
index_of-lt name (v ∷ vs) {n} h = elim (Option-cases (index_of name vs)) [
  | inl e ↦ ground arith
  | inr (m, e) ↦ ground (arith, index_of-lt name vs e)
]

pub severity-lt : (name : Text) {n : ℕ} → severity name ≡ some n → n < 6
unfolding severity
severity-lt name h = index_of-lt name values h

pub severity-pass : severity (codes "pass") ≡ some 1
unfolding severity text_eq
severity-pass = refl

pub severity-error : severity (codes "error") ≡ some 5
unfolding severity text_eq
severity-error = refl

pub severity-aborted : severity (codes "aborted") ≡ some 4
unfolding severity text_eq
severity-aborted = refl

get_value_one : (v : Verdict) → v.value ≡ 1 → get_value v ≡ ok (codes "pass")
unfolding get_value name_at
get_value_one v p = rw p refl

-- The value 1 goes by the name `pass`, and by no other.
pub get_value-pass_iff :
    (v : Verdict) (name : Text)
    → get_value v ≡ ok name
    → severity name ≡ some v.value
    → (text_eq name (codes "pass") ≡ true) ↔ (v.value ≡ 1)
get_value-pass_iff v name e f = (to, from)
  where
    to : text_eq name (codes "pass") ≡ true → v.value ≡ 1
    to t =
        let g : severity (codes "pass") ≡ some v.value =
          subst (λ x. severity x ≡ some v.value) ((text_eq_iff name (codes "pass")).0 t) f in
        let q : some v.value ≡ some 1 = sym g ∙ severity-pass in cc q

    from : v.value ≡ 1 → text_eq name (codes "pass") ≡ true
    from p =
        let g : ok (codes "pass") ≡ ok name = sym (get_value_one v p) ∙ e in
        (text_eq_iff name (codes "pass")).1 (cc g)

pub name_at-pass : (n : ℕ) → n < 6 → name_at n ≡ ok (codes "pass") → n ≡ 1
name_at-pass n h e =
    let (name, f, g) = name_at_ok n h in
    let q : ok name ≡ ok (codes "pass") = sym f ∙ e in
    let k : severity (codes "pass") ≡ some n = subst (λ x. severity x ≡ some n) (cc q) g in
    let u : some n ≡ some 1 = sym k ∙ severity-pass in cc u
