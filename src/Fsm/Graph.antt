-- ===== src/Fsm/Graph.antt =====
-- What the tables allow: at most one row per trigger, and which states are reached from which.
use ioppytest.Prelude.{
  ℕ, Bool, true, false, not, ◌≡◌, refl, ap, ◌≢◌, List, [], ◌∷◌, all, length, leb, ◌≤◌, ◌||◌, arith,
}
use ioppytest.Fsm.Tables.{State, Trigger}
use ioppytest.Fsm.Edges.{next_states, same_state}
use ioppytest.Fsm.Listed.{every_state, every_trigger, for_every_state, for_every_trigger}

-- A test of a trigger and a state that passes for all of them, whatever the condition answers.
module _ (p : Bool → Trigger → State → Bool) where
  passes_everywhere : Bool → Bool
  passes_everywhere skipping = all (λ t. all (p skipping t) every_state) every_trigger

  everywhere :
      passes_everywhere true ≡ true
      → passes_everywhere false ≡ true
      → (skipping : Bool) (t : Trigger) (s : State) → p skipping t s ≡ true
  unfolding passes_everywhere
  everywhere e e' true t s =
      for_every_state (p true t) (for_every_trigger (λ t. all (p true t) every_state) e t) s
  everywhere e e' false t s =
      for_every_state (p false t) (for_every_trigger (λ t. all (p false t) every_state) e' t) s

has_one_row : Bool → Trigger → State → Bool
unfolding next_states
has_one_row skipping t s = leb (length (next_states skipping t s)) 1

one_row_true :
    (skipping : Bool) (t : Trigger) (s : State) → leb (length (next_states skipping t s)) 1 ≡ true
unfolding has_one_row passes_everywhere
one_row_true = everywhere has_one_row refl refl

leb_sound : (n : ℕ) → leb n 1 ≡ true → n ≤ 1
leb_sound n e = ground arith

-- The table is deterministic: for each answer of `is_skipping_current_testcase`, at most one of
-- its rows is for a given trigger in a given state.
pub next_states_deterministic :
    (skipping : Bool) (t : Trigger) (s : State) → length (next_states skipping t s) ≤ 1
next_states_deterministic skipping t s =
    leb_sound (length (next_states skipping t s)) (one_row_true skipping t s)

-- `s'` is where the machine goes from `s` on the trigger.
abbrev pub Fires : Bool → Trigger → State → State → Type 0
Fires skipping t s s' = next_states skipping t s ≡ s' ∷ []

avoids_aborted : Bool → Trigger → State → Bool
unfolding next_states same_state
avoids_aborted skipping t s =
    same_state s State.testcase_aborted
    || all (λ s'. not (same_state s' State.testcase_aborted)) (next_states skipping t s)

keeps_finished : Bool → Trigger → State → Bool
unfolding next_states same_state
keeps_finished skipping t s =
    not (same_state s State.testsuite_finished)
    || all (λ s'. same_state s' State.testsuite_finished) (next_states skipping t s)

-- The states that the machine visits, from the initial state of the coordinator: by the table, and
-- by `to_preparing_next_testcase`, which the entry of `testcase_finished` fires.
pub data Reachable : State → Type 0 where
  start : Reachable State.null
  fires :
      (skipping : Bool) (t : Trigger) {s s' : State}
      → Reachable s
      → Fires skipping t s s'
      → Reachable s'
  returns : Reachable State.testcase_finished → Reachable State.preparing_next_testcase

-- A path in the table, or by that trigger.
pub data Leads : State → State → Type 0 where
  here : {s : State} → Leads s s
  then :
      (skipping : Bool) (t : Trigger) {s s' s'' : State}
      → Fires skipping t s s'
      → Leads s' s''
      → Leads s s''
  back : {s : State} → Leads State.preparing_next_testcase s → Leads State.testcase_finished s

-- A state that passes a test on every move passes it after one.
kept :
    (p : State → Bool) {ss : List State} {s' : State} → all p ss ≡ true → ss ≡ s' ∷ [] → p s' ≡ true
kept p e f = grind arith

aborted_avoided : (skipping : Bool) (t : Trigger) (s : State) → avoids_aborted skipping t s ≡ true
unfolding passes_everywhere avoids_aborted
aborted_avoided = everywhere avoids_aborted refl refl

finished_kept :
    (skipping : Bool) (t : Trigger)
    → all
        (λ s'. same_state s' State.testsuite_finished)
        (next_states skipping t State.testsuite_finished)
      ≡ true
unfolding passes_everywhere keeps_finished same_state
finished_kept skipping t = everywhere keeps_finished refl refl skipping t State.testsuite_finished

same_state_sound : (a b : State) → same_state a b ≡ true → a ≡ b
unfolding same_state
same_state_sound a b e = ground arith

-- The final state stays: whatever triggers the machine is given there, it is still there.
pub testsuite_finished_final :
    (skipping : Bool) (t : Trigger) (s' : State)
    → Fires skipping t State.testsuite_finished s'
    → s' ≡ State.testsuite_finished
testsuite_finished_final skipping t s' f =
    same_state_sound s' State.testsuite_finished
      (kept (λ s'. same_state s' State.testsuite_finished) (finished_kept skipping t) f)

second_holds : (a : Bool) {b : Bool} → a ≡ false → (a || b) ≡ true → b ≡ true
second_holds true n e = cc
second_holds false n e = e

is_false : (a : Bool) → not a ≡ true → a ≡ false
is_false true e = cc
is_false false e = refl

not_aborted : {s : State} → Reachable s → same_state s State.testcase_aborted ≡ false
unfolding avoids_aborted same_state
not_aborted start = refl
not_aborted (returns r) = refl
not_aborted (fires skipping t {s} {s'} r f) = is_false (same_state s' State.testcase_aborted) (
    kept (λ s'. not (same_state s' State.testcase_aborted))
      (second_holds (same_state s State.testcase_aborted) (not_aborted r)
        (aborted_avoided skipping t s))
      f)

to_end : Leads State.preparing_next_testcase State.testsuite_finished
unfolding next_states
to_end = then false Trigger.finish_testsuite refl here

from_start : Leads State.waiting_for_testsuite_config State.testsuite_finished
unfolding next_states
from_start = then false Trigger.start_testsuite refl to_end

not_aborted-Leads :
    (s : State) → same_state s State.testcase_aborted ≡ false → Leads s State.testsuite_finished
unfolding next_states same_state
not_aborted-Leads State.null n =
    then false Trigger.bootstrap refl (then false Trigger.bootstrapped refl from_start)
not_aborted-Leads State.bootstrapping n = then false Trigger.bootstrapped refl from_start
not_aborted-Leads State.waiting_for_testsuite_config n = from_start
not_aborted-Leads State.waiting_for_testsuite_start n =
    then false Trigger.start_testsuite refl to_end
not_aborted-Leads State.preparing_next_testcase n = to_end
not_aborted-Leads State.waiting_for_iut_configuration_executed n =
    then false Trigger.abort_testcase refl to_end
not_aborted-Leads State.waiting_for_testcase_start n = then false Trigger.abort_testcase refl to_end
not_aborted-Leads State.preparing_next_step n = then false Trigger.abort_testcase refl to_end
not_aborted-Leads State.waiting_for_step_executed n = then false Trigger.abort_testcase refl to_end
not_aborted-Leads State.testcase_finished n = back to_end
not_aborted-Leads State.testcase_aborted n = cc
not_aborted-Leads State.testsuite_finished n = here

-- `testcase_aborted`, whose entry sends `notify_testcase_aborted`, is never visited.
pub testcase_aborted_unreachable : (s : State) → Reachable s → s ≢ State.testcase_aborted
unfolding same_state
testcase_aborted_unreachable s r e =
    let t = ap (λ s. same_state s State.testcase_aborted) e in let n = not_aborted r in cc

-- From every state that the machine visits there is a path to the end of the test suite.
pub Reachable-Leads : (s : State) → Reachable s → Leads s State.testsuite_finished
Reachable-Leads s r = not_aborted-Leads s (not_aborted r)
