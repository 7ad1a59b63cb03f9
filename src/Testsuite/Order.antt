-- ===== src/Testsuite/Order.antt =====
-- Which test case comes next, and whether any is left.
pub mod Pending
use ioppytest.Prelude.Actions.{Action}
use ioppytest.Prelude.{
  ℕ, zero, suc, Bool, true, false, List, [], ◌∷◌, Option, none, some, Text, Dict, lookup, length,
  if◌then◌else◌, Result, ok, raised, stop_iteration, test_suite_error,
}
use ioppytest.Testcase
use ioppytest.Testcase.{Testcase, TcState}
use ioppytest.Testsuite.State.{Testsuite, get_testcase, on_testcase}

-- An item of the dictionary, the object with its key.
abbrev pub Entry : Type 0
Entry = Text × Testcase

-- `next(cycle(values))`: `saved` are all the values, `rest` those left of this round.
unfoldable pub next_item : List Entry → List Entry → Option (Entry × List Entry)
next_item saved (x ∷ rest) = some (x, rest)
next_item (x ∷ saved) [] = some (x, saved)
next_item [] [] = none

abbrev pub has_state : Entry → Bool
has_state e = elim e.1.state [ none ↦ false | some _ ↦ true ]

-- The `while` loop of `next_testcase`. Its first argument is `max_iters`: the loop gives up when
-- that falls below 0.
unfoldable pub seek : ℕ → List Entry → List Entry → Entry → Option Text
unfolding next_item
seek zero saved rest cur = if has_state cur then none else some cur.0
seek (suc max_iters) saved rest cur =
    let later : Option Text = elim (next_item saved rest) [
      | none ↦ none
      | some (e, rest') ↦ seek max_iters saved rest' e
    ] in
    if has_state cur then later else some cur.0

-- The first value of the cycle; the cycle of an empty dictionary has none.
start_seek : List Entry → Result (Option Text)
unfolding seek
start_seek [] = raised stop_iteration
start_seek (e ∷ rest) = ok (seek (length (e ∷ rest)) (e ∷ rest) rest e)

select : Result (Option Text) → Action Testsuite (Option Text)
select (raised x) ts = (raised x, ts)
select (ok tc) ts = (ok tc, record ts { current_tc = tc })

unfoldable pub next_testcase : Action Testsuite (Option Text)
unfolding start_seek select
next_testcase ts = select (start_seek ts.test_descriptions_dict) ts

-- `self.current_tc = tc_selected; self.current_tc.reinit()`
jump_to : Option Text → Action Testsuite (Unit {0})
jump_to none ts = (raised test_suite_error, ts)
jump_to (some k) ts =
    on_testcase (some k) (λ tc. (ok tt, Testcase.reinit tc)) (record ts { current_tc = some k })

unfoldable pub go_to_testcase : Option Text → Action Testsuite (Unit {0})
unfolding jump_to
go_to_testcase testcase_id ts = jump_to (get_testcase testcase_id ts) ts

-- The states that count as unfinished: `configuring` and `ready` do not.
unfoldable pub is_open : Option TcState → Bool
is_open none = true
is_open (some TcState.executing) = true
is_open (some TcState.ready_for_analysis) = true
is_open (some TcState.analyzing) = true
is_open (some _) = false

-- The `while` loop of `check_testsuite_finished`, on `iter_counts`.
unfoldable pub none_open : ℕ → List Entry → List Entry → Entry → Bool
unfolding next_item
none_open zero saved rest cur = if is_open cur.1.state then false else true
none_open (suc iter_counts) saved rest cur =
    let later : Bool = elim (next_item saved rest) [
      | none ↦ true
      | some (e, rest') ↦ none_open iter_counts saved rest' e
    ] in
    if is_open cur.1.state then false else later

start_check : List Entry → Result Bool
unfolding none_open
start_check [] = raised stop_iteration
start_check (e ∷ rest) = ok (none_open (length (e ∷ rest)) (e ∷ rest) rest e)

unfoldable pub check_testsuite_finished : Testsuite → Result Bool
unfolding start_check
check_testsuite_finished ts = start_check ts.test_descriptions_dict
