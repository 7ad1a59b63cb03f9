-- ===== src/Fsm/Listed.antt =====
-- A test that passes for a list of every state, or of every trigger, passes for each.
use ioppytest.Prelude.{
  ℕ, zero, suc, Bool, true, ◌≡◌, refl, List, [], ◌∷◌, all, some, get_elem?, arith,
}
use ioppytest.Fsm.Tables.{State, Trigger}

get_elem?-all :
    {A : Type 0} (p : A → Bool) (xs : List A) (n : ℕ) (x : A)
    → get_elem? xs n ≡ some x
    → all p xs ≡ true
    → p x ≡ true
get_elem?-all p [] n x at e = cc
get_elem?-all p (y ∷ ys) zero x at e = grind arith
get_elem?-all p (y ∷ ys) (suc n) x at e = grind (arith, get_elem?-all p ys n x at)

abbrev pub every_state : List State
every_state =
    State.null ∷ State.bootstrapping ∷ State.waiting_for_testsuite_config
    ∷ State.waiting_for_testsuite_start ∷ State.preparing_next_testcase
    ∷ State.waiting_for_iut_configuration_executed ∷ State.waiting_for_testcase_start
    ∷ State.preparing_next_step ∷ State.waiting_for_step_executed ∷ State.testcase_finished
    ∷ State.testcase_aborted ∷ State.testsuite_finished ∷ []

state_place : State → ℕ
state_place State.null = 0
state_place State.bootstrapping = 1
state_place State.waiting_for_testsuite_config = 2
state_place State.waiting_for_testsuite_start = 3
state_place State.preparing_next_testcase = 4
state_place State.waiting_for_iut_configuration_executed = 5
state_place State.waiting_for_testcase_start = 6
state_place State.preparing_next_step = 7
state_place State.waiting_for_step_executed = 8
state_place State.testcase_finished = 9
state_place State.testcase_aborted = 10
state_place State.testsuite_finished = 11

state_listed : (x : State) → get_elem? every_state (state_place x) ≡ some x
unfolding state_place
state_listed State.null = refl
state_listed State.bootstrapping = refl
state_listed State.waiting_for_testsuite_config = refl
state_listed State.waiting_for_testsuite_start = refl
state_listed State.preparing_next_testcase = refl
state_listed State.waiting_for_iut_configuration_executed = refl
state_listed State.waiting_for_testcase_start = refl
state_listed State.preparing_next_step = refl
state_listed State.waiting_for_step_executed = refl
state_listed State.testcase_finished = refl
state_listed State.testcase_aborted = refl
state_listed State.testsuite_finished = refl

pub for_every_state : (p : State → Bool) → all p every_state ≡ true → (x : State) → p x ≡ true
for_every_state p e x = get_elem?-all p every_state (state_place x) x (state_listed x) e

abbrev pub every_trigger : List Trigger
every_trigger =
    Trigger.bootstrap ∷ Trigger.bootstrapped ∷ Trigger.configure_testsuite ∷ Trigger.start_testsuite
    ∷ Trigger.start_configuration ∷ Trigger.finish_testsuite ∷ Trigger.iut_configuration_executed
    ∷ Trigger.start_testcase ∷ Trigger.start_next_step ∷ Trigger.finish_testcase
    ∷ Trigger.abort_testcase ∷ Trigger.step_executed
    ∷ Trigger.timeout_waiting_iut_configuration_executed ∷ Trigger.all_iut_configuration_executed
    ∷ Trigger.timeout_waiting_step_executed ∷ Trigger.restart_testcase ∷ Trigger.select_testcase
    ∷ Trigger.skip_testcase ∷ Trigger.go_to_next_testcase ∷ Trigger.to_preparing_next_testcase ∷ []

trigger_place : Trigger → ℕ
trigger_place Trigger.bootstrap = 0
trigger_place Trigger.bootstrapped = 1
trigger_place Trigger.configure_testsuite = 2
trigger_place Trigger.start_testsuite = 3
trigger_place Trigger.start_configuration = 4
trigger_place Trigger.finish_testsuite = 5
trigger_place Trigger.iut_configuration_executed = 6
trigger_place Trigger.start_testcase = 7
trigger_place Trigger.start_next_step = 8
trigger_place Trigger.finish_testcase = 9
trigger_place Trigger.abort_testcase = 10
trigger_place Trigger.step_executed = 11
trigger_place Trigger.timeout_waiting_iut_configuration_executed = 12
trigger_place Trigger.all_iut_configuration_executed = 13
trigger_place Trigger.timeout_waiting_step_executed = 14
trigger_place Trigger.restart_testcase = 15
trigger_place Trigger.select_testcase = 16
trigger_place Trigger.skip_testcase = 17
trigger_place Trigger.go_to_next_testcase = 18
trigger_place Trigger.to_preparing_next_testcase = 19

trigger_listed : (x : Trigger) → get_elem? every_trigger (trigger_place x) ≡ some x
unfolding trigger_place
trigger_listed Trigger.bootstrap = refl
trigger_listed Trigger.bootstrapped = refl
trigger_listed Trigger.configure_testsuite = refl
trigger_listed Trigger.start_testsuite = refl
trigger_listed Trigger.start_configuration = refl
trigger_listed Trigger.finish_testsuite = refl
trigger_listed Trigger.iut_configuration_executed = refl
trigger_listed Trigger.start_testcase = refl
trigger_listed Trigger.start_next_step = refl
trigger_listed Trigger.finish_testcase = refl
trigger_listed Trigger.abort_testcase = refl
trigger_listed Trigger.step_executed = refl
trigger_listed Trigger.timeout_waiting_iut_configuration_executed = refl
trigger_listed Trigger.all_iut_configuration_executed = refl
trigger_listed Trigger.timeout_waiting_step_executed = refl
trigger_listed Trigger.restart_testcase = refl
trigger_listed Trigger.select_testcase = refl
trigger_listed Trigger.skip_testcase = refl
trigger_listed Trigger.go_to_next_testcase = refl
trigger_listed Trigger.to_preparing_next_testcase = refl

pub for_every_trigger :
    (p : Trigger → Bool) → all p every_trigger ≡ true → (x : Trigger) → p x ≡ true
for_every_trigger p e x = get_elem?-all p every_trigger (trigger_place x) x (trigger_listed x) e
