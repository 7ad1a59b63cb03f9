-- ===== src/Testsuite/Selection/Skips.antt =====
-- What a selection of test cases does to the suite.
use mathlib.Core.Option
use ioppytest.Prelude.{
  ◌≡◌, refl, ap, sym, subst, ◌∙◌, inl, inr, Bool, true, false, not, ◌&&◌, List, [], ◌∷◌, Option,
  none, some, Text, Dict, lookup, contains, is_some, mem-keys, modify_key, lookup-modify_key, keys,
  mem, mem-sorted, mem-set_difference, set_difference, sorted, ◌==◌, text_eq, text_eq_iff,
  text_eq_refl, arith, if◌then◌else◌, All, Bool-cases, Result, ok,
}
use ioppytest.Testcase
use ioppytest.Testcase.{Testcase, TcState}
use ioppytest.Testsuite.State.{Testsuite, get_testcase, put}
use ioppytest.Testsuite.Selection.{
  is_skipped, skip_key, skip_testcase, skip_all, configure_testsuite, tc_to_skip, clear_current,
  store_session,
}

-- The test cases stand under their ids, as `__init__` enters them.
abbrev pub KeysAreIds : Dict Testcase → Type 0
KeysAreIds = All (λ e. e.1.id ≡ e.0)

abbrev pub skip_once : Testcase → Testcase
skip_once tc = if is_skipped tc.state then tc else Testcase.change_state (some TcState.skipped) tc

contains-lookup :
    (k : Text) (d : Dict Testcase) → contains k d ≡ true → (tc : Testcase) × (lookup k d ≡ some tc)
unfolding contains
contains-lookup k d h = ground arith

dict-clear_current :
    (id : Text) (ts : Testsuite)
    → (clear_current id ts).test_descriptions_dict ≡ ts.test_descriptions_dict
unfolding clear_current
dict-clear_current id ts = ground arith

-- What a lookup finds, once the test case `k` was skipped.
abbrev skipped_at : Text → Text → Dict Testcase → Option Testcase
skipped_at k j d = if k == j then Option.map skip_once (lookup j d) else lookup j d

skipped_already :
    (k j : Text) (d : Dict Testcase) (tc : Testcase)
    → lookup k d ≡ some tc
    → is_skipped tc.state ≡ true
    → lookup j d ≡ skipped_at k j d
skipped_already k j d tc e s = elim (Bool-cases (text_eq k j)) [
  | inl q ↦
      let same = (text_eq_iff k j).0 q in
      let f : lookup j d ≡ some tc = subst (λ x. lookup x d ≡ some tc) same e in rw (q, f, s) refl
  | inr q ↦ rw q refl
]

skipped_now :
    (k j : Text) (d : Dict Testcase) (tc : Testcase)
    → lookup k d ≡ some tc
    → is_skipped tc.state ≡ false
    → lookup j (modify_key k (λ _. Testcase.change_state (some TcState.skipped) tc) d)
      ≡ skipped_at k j d
skipped_now k j d tc e s = lookup-modify_key k j _ d ∙ elim (Bool-cases (text_eq k j)) [
  | inl q ↦
      let same = (text_eq_iff k j).0 q in
      let f : lookup j d ≡ some tc = subst (λ x. lookup x d ≡ some tc) same e in rw (q, f, s) refl
  | inr q ↦ rw q refl
]

-- Skipping a known test case changes that one alone.
Skips : Text → Testsuite → Result (Unit {0}) × Testsuite → Type 0
Skips k ts (r, ts') =
    (r ≡ ok tt)
    × ((j : Text) → lookup j ts'.test_descriptions_dict ≡ skipped_at k j ts.test_descriptions_dict)

skip_key_old :
    (k : Text) (ts : Testsuite) (tc : Testcase)
    → lookup k ts.test_descriptions_dict ≡ some tc
    → is_skipped tc.state ≡ true
    → skip_key k ts ≡ (ok tt, ts)
unfolding skip_key
skip_key_old k ts tc e s = rw (e, skip_key) (rw s refl)

skip_key_new :
    (k : Text) (ts : Testsuite) (tc : Testcase)
    → lookup k ts.test_descriptions_dict ≡ some tc
    → is_skipped tc.state ≡ false
    → skip_key k ts
      ≡ (ok tt, clear_current tc.id (put k (Testcase.change_state (some TcState.skipped) tc) ts))
unfolding skip_key
skip_key_new k ts tc e s = rw (e, skip_key) (rw s refl)

skip_key-Skips :
    (k : Text) (ts : Testsuite) (tc : Testcase)
    → lookup k ts.test_descriptions_dict ≡ some tc
    → Skips k ts (skip_key k ts)
unfolding Skips
skip_key-Skips k ts tc e = elim (Bool-cases (is_skipped tc.state)) [
  | inl s ↦
      rw (skip_key_old k ts tc e s)
        (refl, λ j. skipped_already k j ts.test_descriptions_dict tc e s)
  | inr s ↦ rw (skip_key_new k ts tc e s) (
    refl,
    λ j.
        ap (lookup j) (dict-clear_current tc.id _)
        ∙ skipped_now k j ts.test_descriptions_dict tc e s,
  )
]

skip_testcase_known :
    (k : Text) (ts : Testsuite)
    → contains k ts.test_descriptions_dict ≡ true
    → skip_testcase (some k) ts ≡ skip_key k ts
unfolding skip_testcase get_testcase
skip_testcase_known k ts h = rw (h, get_testcase) refl

skip_testcase-Skips :
    (k : Text) (ts : Testsuite)
    → contains k ts.test_descriptions_dict ≡ true
    → Skips k ts (skip_testcase (some k) ts)
skip_testcase-Skips k ts h =
    let (tc, e) = contains-lookup k ts.test_descriptions_dict h in
    rw (skip_testcase_known k ts h) (skip_key-Skips k ts tc e)

skip_once_idem : (tc : Testcase) → skip_once (skip_once tc) ≡ skip_once tc
unfolding Testcase.change_state
skip_once_idem tc = ground arith

map-skip_once_idem :
    (o : Option Testcase) → Option.map skip_once (Option.map skip_once o) ≡ Option.map skip_once o
map-skip_once_idem none = refl
map-skip_once_idem (some tc) = ap some (skip_once_idem tc)

is_some-map : (o : Option Testcase) → is_some (Option.map skip_once o) ≡ is_some o
is_some-map none = refl
is_some-map (some tc) = refl

contains_of_lookup :
    (j : Text) (d d' : Dict Testcase) (b : Bool)
    → lookup j d' ≡ (if b then Option.map skip_once (lookup j d) else lookup j d)
    → contains j d' ≡ contains j d
unfolding contains
contains_of_lookup j d d' true e = rw e (is_some-map (lookup j d))
contains_of_lookup j d d' false e = rw e refl

-- What a lookup finds, once all the test cases of a list were skipped.
abbrev skipped_in : List Text → Text → Dict Testcase → Option Testcase
skipped_in l j d = if mem j l then Option.map skip_once (lookup j d) else lookup j d

SkipsAll : List Text → Testsuite → Result (Unit {0}) × Testsuite → Type 0
SkipsAll l ts (r, ts') =
    (r ≡ ok tt)
    × ((j : Text) → lookup j ts'.test_descriptions_dict ≡ skipped_in l j ts.test_descriptions_dict)

skipped_cons :
    (k : Text) (l : List Text) (j : Text) (d d' : Dict Testcase)
    → lookup j d' ≡ skipped_at k j d
    → skipped_in l j d' ≡ skipped_in (k ∷ l) j d
unfolding mem
skipped_cons k l j d d' e =
    ground (arith, text_eq_iff k j, text_eq_iff j k, map-skip_once_idem (lookup j d))

still_there :
    (k : Text) (l : List Text) (ts ts' : Testsuite)
    → ((j : Text) → lookup j ts'.test_descriptions_dict ≡ skipped_at k j ts.test_descriptions_dict)
    → All (λ i. contains i ts.test_descriptions_dict ≡ true) l
    → All (λ i. contains i ts'.test_descriptions_dict ≡ true) l
still_there k [] ts ts' f h = tt
still_there k (i ∷ l) ts ts' f (h, hs) = (
  contains_of_lookup i ts.test_descriptions_dict ts'.test_descriptions_dict (text_eq k i) (f i) ∙ h,
  still_there k l ts ts' f hs,
)

skip_all-SkipsAll :
    (l : List Text) (ts : Testsuite)
    → All (λ k. contains k ts.test_descriptions_dict ≡ true) l
    → SkipsAll l ts (skip_all l ts)
unfolding Skips SkipsAll skip_all mem
skip_all-SkipsAll [] ts h = (refl, λ j. refl)
skip_all-SkipsAll (k ∷ rest) ts (h, hs) =
    let (e, f) = skip_testcase-Skips k ts h in
    let ts' = (skip_testcase (some k) ts).1 in
    let p : skip_testcase (some k) ts ≡ (ok tt, ts') = λ i. (e i, ts') in
    let (r, g) = skip_all-SkipsAll rest ts' (still_there k rest ts ts' f hs) in
    rw p (
      r,
      λ j. g j ∙ skipped_cons k rest j ts.test_descriptions_dict ts'.test_descriptions_dict (f j),
    )

All-contains :
    (l : List Text) (d : Dict Testcase)
    → ((k : Text) → mem k l ≡ true → contains k d ≡ true)
    → All (λ k. contains k d ≡ true) l
unfolding mem
All-contains [] d h = tt
All-contains (k ∷ l) d h =
    (h k (ground (arith, text_eq_refl k)), All-contains l d (λ j e. h j (ground arith)))

mem-tc_to_skip :
    (j : Text) (requested : List Text) (ts : Testsuite)
    → mem j (sorted (tc_to_skip requested ts))
      ≡ (contains j ts.test_descriptions_dict && not (mem j requested))
unfolding tc_to_skip
mem-tc_to_skip j requested ts =
    mem-sorted j (set_difference (keys ts.test_descriptions_dict) requested)
    ∙ mem-set_difference j (keys ts.test_descriptions_dict) requested
    ∙ ap (λ b. b && not (mem j requested)) (mem-keys j ts.test_descriptions_dict)

and_left : (a b : Bool) → (a && b) ≡ true → a ≡ true
and_left a b h = ground arith

skipped_in_rest :
    (j : Text) (requested : List Text) (ts : Testsuite)
    → skipped_in (sorted (tc_to_skip requested ts)) j ts.test_descriptions_dict ≡ (
        if mem j requested
        then lookup j ts.test_descriptions_dict
        else Option.map skip_once (lookup j ts.test_descriptions_dict))
unfolding contains
skipped_in_rest j requested ts = rw (mem-tc_to_skip j requested ts) (ground arith)

-- After a configuration with a list of test cases that is not empty, the test cases outside the
-- list are skipped and those in it are as they were; no call raises, whatever the list names.
pub configure_testsuite_skips :
    (tc : Text) (rest : List Text) (session_id users configuration : Option Text) (ts : Testsuite)
    → let requested = tc ∷ rest in
      let (r, ts') = configure_testsuite (some requested) session_id users configuration ts in
      (r ≡ ok tt)
      × ((j : Text)
          → lookup j ts'.test_descriptions_dict ≡ (
              if mem j requested
              then lookup j ts.test_descriptions_dict
              else Option.map skip_once (lookup j ts.test_descriptions_dict)))
unfolding configure_testsuite SkipsAll
configure_testsuite_skips tc rest session_id users configuration ts =
    let requested = tc ∷ rest in
    let ts1 = store_session requested session_id users configuration ts in
    let known = λ (k : Text) (e : mem k (sorted (tc_to_skip requested ts1)) ≡ true).
      and_left (contains k ts1.test_descriptions_dict) (not (mem k requested))
        (sym (mem-tc_to_skip k requested ts1) ∙ e) in
    let (r, f) =
      skip_all-SkipsAll (sorted (tc_to_skip requested ts1)) ts1
        (All-contains _ ts1.test_descriptions_dict known) in
    (r, λ j. f j ∙ skipped_in_rest j requested ts1)
