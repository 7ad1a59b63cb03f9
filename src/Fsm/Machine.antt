-- ===== src/Fsm/Machine.antt =====
-- The package `transitions` running the tables of
-- ioppytest/test_coordinator/states_and_transitions.py. The package is a parameter, of which a
-- hypothesis states what its documentation says of a step: a trigger calls what stands before its
-- row, then what the state that it leaves has on exit, then the state changes, then what the new
-- state has on entry is called, and what stands after; a trigger that a callback fires is run at
-- once. The methods of the coordinator, and the answer of the condition, are parameters too.
use ioppytest.Prelude.{
  ℕ, zero, suc, Bool, false, List, [], ◌∷◌, ◌++◌, map, find?, Option, none, some, Result, ok,
  raised, machine_error, if◌then◌else◌, ◌≡◌, refl, ap, ◌∙◌,
}
use ioppytest.Fsm.Tables.{State, Trigger, Callback, StateEntry, Transition, states}
use ioppytest.Fsm.Edges.{same_state, offered, target}

-- What is left to do: a callback, or the change into a state.
pub data Work : Type 0 where
  call : Callback → Work
  enter : State → Work

-- A callback that is a trigger itself.
unfoldable pub trigger_of : Callback → Option Trigger
trigger_of (Callback.fire t) = some t
trigger_of _ = none

entry_of : State → Option StateEntry
unfolding same_state states
entry_of s = find? (λ e. same_state e.name s) states

on_enter_in : Option StateEntry → List Callback
on_enter_in none = []
on_enter_in (some e) = e.on_enter

on_exit_in : Option StateEntry → List Callback
on_exit_in none = []
on_exit_in (some e) = e.on_exit

ignores_in : Option StateEntry → Bool
ignores_in none = false
ignores_in (some e) = e.ignore_invalid_triggers

unfoldable pub on_enter_of : State → List Callback
unfolding entry_of on_enter_in
on_enter_of s = on_enter_in (entry_of s)

unfoldable pub on_exit_of : State → List Callback
unfolding entry_of on_exit_in
on_exit_of s = on_exit_in (entry_of s)

unfoldable pub ignores_invalid_triggers : State → Bool
unfolding entry_of ignores_in
ignores_invalid_triggers s = ignores_in (entry_of s)

calls : List Callback → List Work
calls = map call

-- The moves that the package adds for every state, of which the tables use one.
unfoldable pub automatic : Trigger → Option State
automatic Trigger.to_preparing_next_testcase = some State.preparing_next_testcase
automatic _ = none

-- A row that is taken from a state.
unfoldable pub work_of : State → Transition → List Work
unfolding calls
work_of s r = calls r.before ++ (calls (on_exit_of s) ++ (enter (target r.dest s) ∷ calls r.after))

-- Without a row the trigger is invalid.
taken : State → List Transition → Result (List Work)
taken s [] = if ignores_invalid_triggers s then ok [] else raised machine_error
taken s (r ∷ rest) = ok (work_of s r)

fired : Option State → Bool → Trigger → State → Result (List Work)
unfolding taken calls
fired (some s') skipping t s = ok (calls (on_exit_of s) ++ (enter s' ∷ []))
fired none skipping t s = taken s (offered skipping t s)

unfoldable pub work_for : Bool → Trigger → State → Result (List Work)
unfolding fired
work_for skipping t s = fired (automatic t) skipping t s

-- The machine: its state, what is left to do, and the coordinator.
pub record Machine (D : Type 0) : Type 0 where
  pub state : State
  pub work : List Work
  pub coordinator : D

module _ {D : Type 0} (method : Callback → D → Result (Option Trigger) × D)
    (skipping : D → Bool) where
  with_work : Result (List Work) → List Work → State → D → Result (Machine D)
  with_work (raised e) later s d = raised e
  with_work (ok l) later s d = ok (record { state = s; work = l ++ later; coordinator = d })

  -- What a method of the coordinator did, and the trigger that it fires at its end.
  returned : Result (Option Trigger) × D → List Work → State → Result (Machine D)
  returned (raised e, d) later s = raised e
  returned (ok none, d) later s = ok (record { state = s; work = later; coordinator = d })
  returned (ok (some t), d) later s =
      ok (record { state = s; work = call (Callback.fire t) ∷ later; coordinator = d })

  perform_call : Option Trigger → Callback → List Work → State → D → Result (Machine D)
  unfolding with_work returned
  perform_call (some t) c later s d = with_work (work_for (skipping d) t s) later s d
  perform_call none c later s d = returned (method c d) later s

  -- What the documentation says that a step does.
  unfoldable pub documented : Work → List Work → State → D → Result (Machine D)
  unfolding perform_call calls trigger_of
  documented (enter s') later s d =
      ok (record { state = s'; work = calls (on_enter_of s') ++ later; coordinator = d })
  documented (call c) later s d = perform_call (trigger_of c) c later s d

-- The package: what is left to do first, what is left after it, the state, and the coordinator.
abbrev pub Package : Type 0 → Type 0
Package D = Work → List Work → State → D → Result (Machine D)

-- The package does what its documentation says.
abbrev pub IsDocumented :
    {D : Type 0} → (Callback → D → Result (Option Trigger) × D) → (D → Bool) → Package D → Type 0
IsDocumented {D} method skipping engine =
    (w : Work) (later : List Work) (s : State) (d : D)
    → engine w later s d ≡ documented method skipping w later s d

module _ {D : Type 0} (engine : Package D) where
  -- So many steps, or until nothing is left to do.
  unfoldable pub run : ℕ → List Work → State → D → Result (Machine D)
  run zero work s d = ok (record { state = s; work = work; coordinator = d })
  run (suc n) [] s d = ok (record { state = s; work = []; coordinator = d })
  run (suc n) (w ∷ later) s d = elim (engine w later s d) [
    | raised e ↦ raised e
    | ok m ↦ run n m.work m.state m.coordinator
  ]

  -- A step whose outcome is known.
  pub run_step :
      (n : ℕ) (w : Work) (later : List Work) (s : State) (d : D) (m : Machine D)
      → engine w later s d ≡ ok m
      → run (suc n) (w ∷ later) s d ≡ run n m.work m.state m.coordinator
  unfolding run
  run_step n w later s d m e =
      ap (λ p. elim p [ raised e ↦ raised e | ok m ↦ run n m.work m.state m.coordinator ]) e

module _ {D : Type 0} (method : Callback → D → Result (Option Trigger) × D) (skipping : D → Bool)
    (engine : Package D) (h : IsDocumented method skipping engine) where
  after_step :
      (n : ℕ) (r : Result (Machine D))
      → ((work : List Work) (s : State) (d : D)
          → run engine n work s d ≡ run (documented method skipping) n work s d)
      → Path
          (Result (Machine D))
          (elim r [ raised e ↦ raised e | ok m ↦ run engine n m.work m.state m.coordinator ])
          (elim r [
            | raised e ↦ raised e
            | ok m ↦ run (documented method skipping) n m.work m.state m.coordinator
          ])
  after_step n (raised e) f = refl
  after_step n (ok m) f = f m.work m.state m.coordinator

  -- A run of the package is the run that its documentation describes.
  pub run_documented :
      (n : ℕ) (work : List Work) (s : State) (d : D)
      → run engine n work s d ≡ run (documented method skipping) n work s d
  unfolding run
  run_documented zero work s d = refl
  run_documented (suc n) [] s d = refl
  run_documented (suc n) (w ∷ later) s d =
      ap (λ p. elim p [ raised e ↦ raised e | ok m ↦ run engine n m.work m.state m.coordinator ])
        (h w later s d)
      ∙ after_step n (documented method skipping w later s d) (run_documented n)

-- A callback that is no trigger, changes nothing and fires nothing.
pub quiet_step :
    {D : Type 0} (method : Callback → D → Result (Option Trigger) × D) (skipping : D → Bool) (n : ℕ)
    (c : Callback) (later : List Work) (s : State) (d : D)
    → trigger_of c ≡ none
    → method c d ≡ (ok none, d)
    → run (documented method skipping) (suc n) (call c ∷ later) s d
      ≡ run (documented method skipping) n later s d
unfolding documented perform_call returned
quiet_step method skipping n c later s d t e =
    run_step (documented method skipping) n (call c) later s d
      (record { state = s; work = later; coordinator = d }) (rw t (rw e refl))
