-- ===== src/Testsuite/Selection/Session.antt =====
-- What a restart of the suite does to the session.
use ioppytest.Prelude.{
  ◌≡◌, refl, ◌∙◌, List, [], ◌∷◌, Option, none, some, Text, sorted, arith, Result, ok, raised,
}
use ioppytest.Testsuite.State.{Testsuite}
use ioppytest.Prelude.Actions.{after}
use ioppytest.Testsuite.Selection
use ioppytest.Testsuite.Selection.{
  is_skipped, skip_key, skip_found, skip_testcase, skip_all, configure_testsuite, tc_to_skip,
  clear_current, store_session,
}

abbrev SameSession : Testsuite → Testsuite → Type 0
SameSession ts ts' =
    (ts'.session_id ≡ ts.session_id)
    × (ts'.session_users ≡ ts.session_users)
    × (ts'.session_configuration ≡ ts.session_configuration)

skip_found-SameSession : (o : Option Text) (ts : Testsuite) → SameSession ts (skip_found o ts).1
unfolding skip_found skip_key clear_current
skip_found-SameSession none ts = (refl, refl, refl)
skip_found-SameSession (some k) ts = ground arith

skip_testcase-SameSession :
    (o : Option Text) (ts : Testsuite) → SameSession ts (skip_testcase o ts).1
unfolding skip_testcase
skip_testcase-SameSession o ts = skip_found-SameSession _ ts

skip_all-SameSession : (l : List Text) (ts : Testsuite) → SameSession ts (skip_all l ts).1
unfolding skip_all
skip_all-SameSession [] ts = (refl, refl, refl)
skip_all-SameSession (k ∷ rest) ts =
    go (skip_testcase (some k) ts) (skip_testcase-SameSession (some k) ts)
      (skip_all-SameSession rest (skip_testcase (some k) ts).1)
  where
    go :
        (p : Result (Unit {0}) × Testsuite)
        → SameSession ts p.1
        → SameSession p.1 (skip_all rest p.1).1
        → SameSession ts (after (λ _. skip_all rest) p).1
    go (ok _, ts') (a, b, c) (d, e, f) = (d ∙ a, e ∙ b, f ∙ c)
    go (raised _, ts') h k = h

-- Starting the suite again with the selection of the session loses the session: its id, its users
-- and its configuration are gone.
pub reinit_forgets_session :
    (ts : Testsuite) (tc : Text) (rest : List Text)
    → ts.session_selected_tc_list ≡ some (tc ∷ rest)
    → let ts' = (Selection.reinit none ts).1 in
      (ts'.session_id ≡ none) × (ts'.session_users ≡ none) × (ts'.session_configuration ≡ none)
unfolding Selection.reinit configure_testsuite
reinit_forgets_session ts tc rest h =
    rw h (skip_all-SameSession (sorted (tc_to_skip (tc ∷ rest) _)) _)
