-- ===== src/Testsuite/Order/Pending.antt =====
-- The cyclic searches of the test suite, as plain searches of the dictionary.
use ioppytest.Prelude.{
  ℕ, zero, suc, ◌≤◌, ◌≡◌, refl, ◌≢◌, Bool, true, false, not, List, [], ◌∷◌, Option, none, some,
  Text, all, length, Bool-cases, Option-cases, ap, sym, ◌∙◌, inl, inr, arith, if◌then◌else◌, ok,
}
use ioppytest.Testsuite.State.{Testsuite}
use ioppytest.Testsuite.Order.{
  Entry, has_state, seek, start_seek, next_testcase, is_open, none_open, start_check,
  check_testsuite_finished,
}

-- The first test case, in the order of the dictionary, that has no state yet.
abbrev pub first_pending : List Entry → Option Text
first_pending [] = none
first_pending (e ∷ rest) = if has_state e then first_pending rest else some e.0

-- Once the whole dictionary was seen to have states, the search fails.
seek-none :
    (m : ℕ) (saved rest : List Entry) (cur : Entry)
    → first_pending saved ≡ none
    → first_pending (cur ∷ rest) ≡ none
    → seek m saved rest cur ≡ none
unfolding seek
seek-none zero saved rest cur h k = ground arith
seek-none (suc m) saved (e ∷ rest) cur h k = ground (arith, seek-none m saved rest e h)
seek-none (suc m) [] [] cur h k = ground arith
seek-none (suc m) (e ∷ saved) [] cur h k = ground (arith, seek-none m (e ∷ saved) saved e h)

-- Within the current round the search finds what the dictionary has next.
seek-some :
    (m : ℕ) (saved rest : List Entry) (cur : Entry) (k : Text)
    → length rest ≤ m
    → first_pending (cur ∷ rest) ≡ some k
    → seek m saved rest cur ≡ some k
unfolding seek
seek-some zero saved [] cur k h e = ground arith
seek-some zero saved (x ∷ rest) cur k h e = absurd (omega arith)
seek-some (suc m) saved (x ∷ rest) cur k h e = ground (arith, seek-some m saved rest x k)
seek-some (suc m) saved [] cur k h e = ground arith

seek-eq-first_pending :
    (e : Entry) (rest : List Entry)
    → seek (length (e ∷ rest)) (e ∷ rest) rest e ≡ first_pending (e ∷ rest)
seek-eq-first_pending e rest = elim (Option-cases (first_pending (e ∷ rest))) [
  | inl h ↦ seek-none (length (e ∷ rest)) (e ∷ rest) rest e h h ∙ sym h
  | inr (k, h) ↦ seek-some (length (e ∷ rest)) (e ∷ rest) rest e k (omega arith) h ∙ sym h
]

start_seek_lem : (d : List Entry) → d ≢ [] → start_seek d ≡ ok (first_pending d)
unfolding start_seek
start_seek_lem [] h = absurd (h refl)
start_seek_lem (e ∷ rest) h = ap ok (seek-eq-first_pending e rest)

-- `next_testcase` of a suite with test cases makes current, and returns, the first one in the
-- order of the dictionary that has no state, or `None` if all have one; it changes nothing else.
pub next_testcase_lem :
    (ts : Testsuite)
    → ts.test_descriptions_dict ≢ []
    → let found = first_pending ts.test_descriptions_dict in
      next_testcase ts ≡ (ok found, record ts { current_tc = found })
unfolding next_testcase
next_testcase_lem ts h = rw (start_seek_lem ts.test_descriptions_dict h) refl

abbrev pub all_closed : List Entry → Bool
all_closed = all (λ e. not (is_open e.1.state))

none_open_closed :
    (m : ℕ) (saved rest : List Entry) (cur : Entry)
    → all_closed saved ≡ true
    → all_closed (cur ∷ rest) ≡ true
    → none_open m saved rest cur ≡ true
unfolding none_open
none_open_closed zero saved rest cur h k = ground arith
none_open_closed (suc m) saved (e ∷ rest) cur h k =
    ground (arith, none_open_closed m saved rest e h)
none_open_closed (suc m) [] [] cur h k = ground arith
none_open_closed (suc m) (e ∷ saved) [] cur h k =
    ground (arith, none_open_closed m (e ∷ saved) saved e h)

none_open_open :
    (m : ℕ) (saved rest : List Entry) (cur : Entry)
    → length rest ≤ m
    → all_closed (cur ∷ rest) ≡ false
    → none_open m saved rest cur ≡ false
unfolding none_open
none_open_open zero saved [] cur h k = ground arith
none_open_open zero saved (x ∷ rest) cur h k = absurd (omega arith)
none_open_open (suc m) saved (x ∷ rest) cur h k = ground (arith, none_open_open m saved rest x)
none_open_open (suc m) saved [] cur h k = ground arith

start_check_lem : (d : List Entry) → d ≢ [] → start_check d ≡ ok (all_closed d)
unfolding start_check
start_check_lem [] h = absurd (h refl)
start_check_lem (e ∷ rest) h = elim (Bool-cases (all_closed (e ∷ rest))) [
  | inl k ↦ ap ok (none_open_closed (length (e ∷ rest)) (e ∷ rest) rest e k k ∙ sym k)
  | inr k ↦ ap ok (none_open_open (length (e ∷ rest)) (e ∷ rest) rest e (omega arith) k ∙ sym k)
]

-- `check_testsuite_finished` of a suite with test cases answers True exactly when no test case is
-- without a state, executing, ready for analysis, or analyzing.
pub check_testsuite_finished_lem :
    (ts : Testsuite)
    → ts.test_descriptions_dict ≢ []
    → check_testsuite_finished ts ≡ ok (all_closed ts.test_descriptions_dict)
unfolding check_testsuite_finished
check_testsuite_finished_lem ts h = start_check_lem ts.test_descriptions_dict h
