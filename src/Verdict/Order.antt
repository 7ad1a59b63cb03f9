-- ===== src/Verdict/Order.antt =====
-- The final verdict does not depend on the order of the partial ones.
use mathlib.Core.List.{Permᴰ}
use ioppytest.Prelude.{
  ℕ, max, ◌≡◌, refl, ◌∙◌, sym, ap, List, Option, none, some, Text, arith, Result, ok, raised,
}
use ioppytest.Verdict.{Verdict, severity, update_all}
use ioppytest.Verdict.Worst.{cons_severity, severities, worst, IsWorst, update_all-IsWorst}

abbrev pub value_of : Result Verdict → Result ℕ
value_of (ok v) = ok v.value
value_of (raised e) = raised e

-- The same answer to every run: both refused, or worst at every start.
abbrev SameWorst : Option (List ℕ) → Option (List ℕ) → Type 0
SameWorst none none = Unit
SameWorst none (some ms) = ⊥
SameWorst (some ns) none = ⊥
SameWorst (some ns) (some ms) = (n : ℕ) → worst n ns ≡ worst n ms

SameWorst-refl : (s : Option (List ℕ)) → SameWorst s s
SameWorst-refl none = tt
SameWorst-refl (some ns) = λ n. refl

SameWorst-trans : (s t u : Option (List ℕ)) → SameWorst s t → SameWorst t u → SameWorst s u
SameWorst-trans none none none h k = tt
SameWorst-trans (some ns) (some ms) (some ks) h k = λ n. h n ∙ k n
SameWorst-trans (some ns) (some ms) none h k = absurd k
SameWorst-trans none none (some ks) h k = absurd k
SameWorst-trans none (some ms) u h k = absurd h
SameWorst-trans (some ns) none u h k = absurd h

cons_severity-SameWorst :
    (m : Option ℕ) (s t : Option (List ℕ))
    → SameWorst s t
    → SameWorst (cons_severity m s) (cons_severity m t)
cons_severity-SameWorst none s t h = tt
cons_severity-SameWorst (some n) none none h = tt
cons_severity-SameWorst (some n) none (some _) h = absurd h
cons_severity-SameWorst (some n) (some _) none h = absurd h
cons_severity-SameWorst (some n) (some ns) (some ms) h = λ k. h (max k n)

cons_severity_swap :
    (m n : Option ℕ) (s : Option (List ℕ))
    → SameWorst (cons_severity m (cons_severity n s)) (cons_severity n (cons_severity m s))
cons_severity_swap none none s = tt
cons_severity_swap none (some n) none = tt
cons_severity_swap none (some n) (some ns) = tt
cons_severity_swap (some m) none none = tt
cons_severity_swap (some m) none (some ns) = tt
cons_severity_swap (some m) (some n) none = tt
cons_severity_swap (some m) (some n) (some ns) = λ k. ap (λ x. worst x ns) (omega arith)

severities-SameWorst :
    {l l' : List (Text × Text)} → Permᴰ l l' → SameWorst (severities l) (severities l')
unfolding severities
severities-SameWorst Permᴰ.nil = λ n. refl
severities-SameWorst (Permᴰ.cons {a = x} {l₁ = l} {l₂ = l'} e p) =
    rw (← e) (
      cons_severity-SameWorst (severity x.0) (severities l) (severities l')
        (severities-SameWorst p))
severities-SameWorst (Permᴰ.swap {a = x} {b = y} {l = l} e f) =
    rw (← e, ← f) (cons_severity_swap (severity x.0) (severity y.0) (severities l))
severities-SameWorst (Permᴰ.trans {l₁ = a} {l₂ = b} {l₃ = c} p q) =
    SameWorst-trans (severities a) (severities b) (severities c) (severities-SameWorst p)
      (severities-SameWorst q)

value-eq_of_SameWorst :
    (v : Verdict) (r r' : Result Verdict) (s t : Option (List ℕ))
    → SameWorst s t
    → IsWorst v r s
    → IsWorst v r' t
    → value_of r ≡ value_of r'
value-eq_of_SameWorst v r r' none none h k k' = rw (k, k')
value-eq_of_SameWorst v r r' none (some _) h k k' = absurd h
value-eq_of_SameWorst v r r' (some _) none h k k' = absurd h
value-eq_of_SameWorst v r r' (some ns) (some ms) h (w, e, f) (w', e', f') =
    rw (e, e') (ap ok (f ∙ h v.value ∙ sym f'))

-- Two runs of the same partial verdicts in any two orders end with the same value, or are both
-- refused.
pub update_all-perm :
    (l l' : List (Text × Text)) (v : Verdict)
    → Permᴰ l l'
    → value_of (update_all l v) ≡ value_of (update_all l' v)
update_all-perm l l' v p =
    value-eq_of_SameWorst v (update_all l v) (update_all l' v) (severities l) (severities l')
      (severities-SameWorst p) (update_all-IsWorst l v) (update_all-IsWorst l' v)
