-- ===== src/Testsuite/Selection.antt =====
-- Which test cases a session runs: skipping, aborting, configuring, and starting again.
pub mod Skips
pub mod Session
use ioppytest.Prelude.Actions
use ioppytest.Prelude.Actions.{Action, ◌>>=◌, ◌>>◌}
use ioppytest.Prelude.{
  Bool, true, false, List, [], ◌∷◌, map, Option, none, some, Text, ◌==◌, upper, mem, set_difference,
  sorted, Dict, lookup, modify_key, keys, if◌then◌else◌, Result, ok, raised, assertion_error,
  attribute_error, test_suite_error,
}
use ioppytest.Testcase
use ioppytest.Testcase.{Testcase, TcState}
use ioppytest.Testsuite.State.{
  Testsuite, testcase_at, get_current_testcase, get_testcase, or_current, put, on_testcase,
}

-- `get_current_testcase_id`
unfoldable pub get_current_testcase_id : Testsuite → Option Text
get_current_testcase_id ts = elim (get_current_testcase ts) [ none ↦ none | some tc ↦ some tc.id ]

abbrev pub is_skipped : Option TcState → Bool
is_skipped (some TcState.skipped) = true
is_skipped _ = false

abbrev same_id : Text → Option Text → Bool
same_id id none = false
same_id id (some current_id) = id == current_id

-- A skipped test case that is current stops being current.
clear_current : Text → Testsuite → Testsuite
clear_current id ts =
    if same_id id (get_current_testcase_id ts) then record ts { current_tc = none } else ts

-- The body of `skip_testcase`, once the test case is known by its key.
unfoldable pub skip_key : Text → Action Testsuite (Unit {0})
unfolding clear_current
skip_key k ts = elim (lookup k ts.test_descriptions_dict) [
  | none ↦ (raised attribute_error, ts)
  | some tc ↦
      if is_skipped tc.state
      then (ok tt, ts)
      else (ok tt, clear_current tc.id (put k (Testcase.change_state (some TcState.skipped) tc) ts))
]

skip_found : Option Text → Action Testsuite (Unit {0})
unfolding skip_key
skip_found none ts = (raised test_suite_error, ts)
skip_found (some k) ts = skip_key k ts

-- An id that is not found stands for the current test case too.
unfoldable pub skip_testcase : Option Text → Action Testsuite (Unit {0})
unfolding skip_found
skip_testcase testcase_id ts = skip_found (or_current (get_testcase testcase_id ts) ts) ts

-- `self.current_tc.abort(); self.current_tc = None`
unfoldable pub abort_current_testcase : Action Testsuite (Unit {0})
abort_current_testcase ts =
    (on_testcase ts.current_tc Testcase.abort
        >> Actions.modify (λ s. record s { current_tc = none }))
      ts

-- `for item in sorted(tc_to_skip)`
unfoldable pub skip_all : List Text → Action Testsuite (Unit {0})
skip_all [] ts = (ok tt, ts)
skip_all (item ∷ rest) ts = (skip_testcase (some item) >> skip_all rest) ts

-- `list(set(tc_list_available) - set(tc_list_requested))`
unfoldable pub tc_to_skip : List Text → Testsuite → List Text
tc_to_skip requested ts = set_difference (keys ts.test_descriptions_dict) requested

-- The session's fields are written first; the selected list in upper case, while the test cases
-- to skip come from the list as it was given.
store_session : List Text → Option Text → Option Text → Option Text → Testsuite → Testsuite
store_session requested session_id users configuration ts = record ts {
  session_id = session_id;
  session_users = users;
  session_configuration = configuration;
  session_selected_tc_list = some (map upper requested);
}

-- An empty selection stands for all the test cases.
select_requested : List Text → Action Testsuite (Unit {0})
select_requested [] ts = (ok tt, ts)
select_requested (tc ∷ rest) ts = skip_all (sorted (tc_to_skip (tc ∷ rest) ts)) ts

unfoldable pub configure_testsuite :
    Option (List Text) → Option Text → Option Text → Option Text → Action Testsuite (Unit {0})
unfolding store_session select_requested
configure_testsuite none session_id users configuration ts = (raised assertion_error, ts)
configure_testsuite (some requested) session_id users configuration ts =
    select_requested requested (store_session requested session_id users configuration ts)

reinit_all : Testsuite → Testsuite
reinit_all ts = record ts {
  test_descriptions_dict = map (λ e. (e.0, Testcase.reinit e.1)) ts.test_descriptions_dict;
}

-- A list that is neither `None` nor empty.
abbrev given : Option (List Text) → Option (List Text)
given (some (x ∷ rest)) = some (x ∷ rest)
given _ = none

reconfigure : Option (List Text) → Option (List Text) → Action Testsuite (Unit {0})
reconfigure (some l) selected = configure_testsuite (some l) none none none
reconfigure none (some l) = configure_testsuite (some l) none none none
reconfigure none none = Actions.pure tt

-- `reinit`: every test case is reset; a selection, or that of the session, is applied again.
unfoldable pub reinit : Option (List Text) → Action Testsuite (Unit {0})
unfolding reinit_all reconfigure
reinit tc_list_selection ts =
    reconfigure (given tc_list_selection) (given ts.session_selected_tc_list) (reinit_all ts)

-- `reinit_testcase`: the test case of that id, or else the current one, if there is any.
unfoldable pub reinit_testcase : Option Text → Action Testsuite (Unit {0})
reinit_testcase testcase_id ts = elim (or_current (get_testcase testcase_id ts) ts) [
  | none ↦ (ok tt, ts)
  | some k ↦ on_testcase (some k) (λ tc. (ok tt, Testcase.reinit tc)) ts
]
