-- ===== src/Coordinator/Offered.antt =====
-- The triggers that the callbacks fire are ones that the table offers in the state they run in.
use ioppytest.Prelude.Actions
use ioppytest.Prelude.Actions.{◌>>=◌, ◌>>◌}
use ioppytest.Prelude.{
  ◌≡◌, refl, Bool, true, false, [], ◌∷◌, Option, none, some, Text, Result, ok, raised,
}
use ioppytest.Step.{Step}
use ioppytest.Testcase.{TcState}
use ioppytest.Testsuite.{Testsuite, set_current_testcase_state}
use ioppytest.Testsuite.Stepping.{next_step}
use ioppytest.Fsm.Tables.{State, Trigger}
use ioppytest.Fsm.Edges.{next_states}
use ioppytest.Coordinator.{
  Event, prepare_next_testcase, asked_for, or_next, start_or_finish, prepare_next_step,
  execute_or_analyse,
}

-- In the state, the trigger leads to another state.
abbrev pub Offered : State → Trigger → Type 0
Offered s t = (s' : State) × ((skipping : Bool) → next_states skipping t s ≡ s' ∷ [])

-- What a callback returns: an exception, or a trigger that is offered.
abbrev pub Fires : State → Result Trigger → Type 0
Fires s (ok t) = Offered s t
Fires s (raised e) = Unit

-- A call that keeps the trigger given after it.
then_pure :
    (s : State) (m : Testsuite → Result (Unit {0}) × Testsuite) (t : Trigger) (ts : Testsuite)
    → Offered s t
    → Fires s ((m >> Actions.pure t) ts).0
then_pure s m t ts h = go (m ts)
  where
    go : (p : Result (Unit {0}) × Testsuite) → Fires s (Actions.after (λ _. Actions.pure t) p).0
    go (ok _, ts') = h
    go (raised e, ts') = tt

-- Whatever a call gives, what follows it fires only what is offered.
bound :
    (s : State) {A : Type 0} (p : Result A × Testsuite)
    (f : A → Testsuite → Result Trigger × Testsuite)
    → ((a : A) (ts : Testsuite) → Fires s (f a ts).0)
    → Fires s (Actions.after f p).0
bound s (ok a, ts) f h = h a ts
bound s (raised e, ts) f h = tt

finish_row : Offered State.preparing_next_testcase Trigger.finish_testsuite
unfolding next_states
finish_row = (State.testsuite_finished, λ skipping. elim skipping [ true ↦ refl | false ↦ refl ])

start_row : Offered State.preparing_next_testcase Trigger.start_configuration
unfolding next_states
start_row = (
  State.waiting_for_iut_configuration_executed,
  λ skipping. elim skipping [ true ↦ refl | false ↦ refl ],
)

step_row : Offered State.preparing_next_step Trigger.start_next_step
unfolding next_states
step_row =
    (State.waiting_for_step_executed, λ skipping. elim skipping [ true ↦ refl | false ↦ refl ])

analysis_row : Offered State.preparing_next_step Trigger.finish_testcase
unfolding next_states
analysis_row = (State.testcase_finished, λ skipping. elim skipping [ true ↦ refl | false ↦ refl ])

start_or_finish-Fires :
    (k : Option Text) (ts : Testsuite)
    → Fires State.preparing_next_testcase (start_or_finish k ts).0
unfolding start_or_finish
start_or_finish-Fires none ts = finish_row
start_or_finish-Fires (some k) ts =
    then_pure State.preparing_next_testcase (set_current_testcase_state (some TcState.configuring))
      Trigger.start_configuration ts start_row

execute_or_analyse-Fires :
    (step : Option Step) (ts : Testsuite)
    → Fires State.preparing_next_step (execute_or_analyse step ts).0
unfolding execute_or_analyse
execute_or_analyse-Fires (some step) ts =
    then_pure State.preparing_next_step (set_current_testcase_state (some TcState.executing))
      Trigger.start_next_step ts step_row
execute_or_analyse-Fires none ts =
    then_pure State.preparing_next_step
      (set_current_testcase_state (some TcState.ready_for_analysis)) Trigger.finish_testcase ts
      analysis_row

-- The preparation of a test case, in the state that it belongs to, ends in an exception or fires a
-- trigger that leads on from that state; so does the preparation of a step in its state.
pub prepare-Fires :
    (event : Event) (ts : Testsuite)
    → Fires State.preparing_next_testcase (prepare_next_testcase event ts).0
      × Fires State.preparing_next_step (prepare_next_step ts).0
unfolding prepare_next_testcase prepare_next_step
prepare-Fires event ts = (
  bound State.preparing_next_testcase (asked_for event ts) _
      (λ k ts'. bound State.preparing_next_testcase (or_next k ts') _ start_or_finish-Fires),
  bound State.preparing_next_step (next_step ts) _ execute_or_analyse-Fires,
)
