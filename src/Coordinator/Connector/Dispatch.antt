-- ===== src/Coordinator/Connector/Dispatch.antt =====
-- The events that the coordinator subscribes to, against the tables of its machine.
use ioppytest.Prelude.{◌≡◌, refl, Bool, true, false, [], ◌∷◌, Option, none, some}
use ioppytest.Fsm.Tables.{State, Trigger}
use ioppytest.Fsm.Edges.{next_states}
use ioppytest.Fsm.Graph.{Reachable, start, fires}
use ioppytest.Coordinator.Connector.{EventClass, control_events_triggers}

config-Reachable : Reachable State.waiting_for_testsuite_config
unfolding next_states
config-Reachable = fires false Trigger.bootstrapped (fires false Trigger.bootstrap start refl) refl

iut-Reachable : Reachable State.waiting_for_iut_configuration_executed
unfolding next_states
iut-Reachable =
    fires false Trigger.start_configuration
      (fires false Trigger.start_testsuite config-Reachable refl) refl

step-Reachable : Reachable State.waiting_for_step_executed
unfolding next_states
step-Reachable =
    fires false Trigger.start_next_step (fires false Trigger.start_testcase iut-Reachable refl) refl

-- A state that the machine visits, in which the trigger leads on whatever the condition answers.
abbrev pub Taken : Trigger → Type 0
Taken t =
    (s : State) × Reachable s
    × ((skipping : Bool) → (s' : State) × (next_states skipping t s ≡ s' ∷ []))

configure-Taken : Taken Trigger.configure_testsuite
unfolding next_states
configure-Taken = (
  State.waiting_for_testsuite_config,
  config-Reachable,
  λ skipping. elim skipping [
    | true ↦ (State.waiting_for_testsuite_start, refl)
    | false ↦ (State.waiting_for_testsuite_start, refl)
  ],
)

start-Taken : Taken Trigger.start_testsuite
unfolding next_states
start-Taken = (
  State.waiting_for_testsuite_config,
  config-Reachable,
  λ skipping. elim skipping [
    | true ↦ (State.preparing_next_testcase, refl)
    | false ↦ (State.preparing_next_testcase, refl)
  ],
)

iut-Taken : Taken Trigger.iut_configuration_executed
unfolding next_states
iut-Taken = (
  State.waiting_for_iut_configuration_executed,
  iut-Reachable,
  λ skipping. elim skipping [
    | true ↦ (State.waiting_for_iut_configuration_executed, refl)
    | false ↦ (State.waiting_for_iut_configuration_executed, refl)
  ],
)

testcase-Taken : Taken Trigger.start_testcase
unfolding next_states
testcase-Taken = (
  State.waiting_for_iut_configuration_executed,
  iut-Reachable,
  λ skipping. elim skipping [
    | true ↦ (State.preparing_next_step, refl)
    | false ↦ (State.preparing_next_step, refl)
  ],
)

step-Taken : Taken Trigger.step_executed
unfolding next_states
step-Taken = (
  State.waiting_for_step_executed,
  step-Reachable,
  λ skipping. elim skipping [
    | true ↦ (State.preparing_next_step, refl)
    | false ↦ (State.preparing_next_step, refl)
  ],
)

select-Taken : Taken Trigger.select_testcase
unfolding next_states
select-Taken = (
  State.waiting_for_iut_configuration_executed,
  iut-Reachable,
  λ skipping. elim skipping [
    | true ↦ (State.preparing_next_testcase, refl)
    | false ↦ (State.preparing_next_testcase, refl)
  ],
)

restart-Taken : Taken Trigger.restart_testcase
unfolding next_states
restart-Taken = (
  State.waiting_for_iut_configuration_executed,
  iut-Reachable,
  λ skipping. elim skipping [
    | true ↦ (State.preparing_next_testcase, refl)
    | false ↦ (State.preparing_next_testcase, refl)
  ],
)

skip_row :
    (skipping : Bool)
    → (s' : State) × (next_states skipping Trigger.skip_testcase
          State.waiting_for_iut_configuration_executed
        ≡ s' ∷ [])
unfolding next_states
skip_row true = (State.preparing_next_testcase, refl)
skip_row false = (State.waiting_for_iut_configuration_executed, refl)

skip-Taken : Taken Trigger.skip_testcase
skip-Taken = (State.waiting_for_iut_configuration_executed, iut-Reachable, skip_row)

-- Whether there is a trigger, and if so that it is taken.
abbrev pub TakenIfAny : Option Trigger → Type 0
TakenIfAny none = Unit
TakenIfAny (some t) = Taken t

-- The trigger of every event that the coordinator subscribes to is taken in a state that the
-- machine visits, whatever `is_skipping_current_testcase` answers.
pub control_events_triggers-Taken :
    (event : EventClass) → TakenIfAny (control_events_triggers event)
unfolding control_events_triggers
control_events_triggers-Taken EventClass.session_configuration = configure-Taken
control_events_triggers-Taken EventClass.configuration_executed = iut-Taken
control_events_triggers-Taken EventClass.agent_tun_started = iut-Taken
control_events_triggers-Taken EventClass.testcase_start = testcase-Taken
control_events_triggers-Taken EventClass.step_stimuli_executed = step-Taken
control_events_triggers-Taken EventClass.step_verify_executed = step-Taken
control_events_triggers-Taken EventClass.step_check_executed = step-Taken
control_events_triggers-Taken EventClass.testcase_select = select-Taken
control_events_triggers-Taken EventClass.testsuite_start = start-Taken
control_events_triggers-Taken EventClass.testcase_restart = restart-Taken
control_events_triggers-Taken EventClass.testcase_skip = skip-Taken
control_events_triggers-Taken EventClass.other = tt
