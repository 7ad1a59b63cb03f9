-- ===== src/Fsm/Edges.antt =====
-- The transitions that the table offers for a trigger in a state.
use ioppytest.Prelude.{Bool, true, false, not, List, [], ◌∷◌, map, filter_by, ◌||◌, ◌&&◌}
use ioppytest.Fsm.Tables.{State, Trigger, Source, Dest, Guard, Transition, transitions}

abbrev pub State-discrete : Discrete State
State-discrete = hlevel

abbrev pub Trigger-discrete : Discrete Trigger
Trigger-discrete = hlevel

unfoldable pub same_state : State → State → Bool
same_state a b = elim (State-discrete a b) [ yes p ↦ true | no n ↦ false ]

unfoldable pub same_trigger : Trigger → Trigger → Bool
same_trigger a b = elim (Trigger-discrete a b) [ yes p ↦ true | no n ↦ false ]

mem_state : State → List State → Bool
unfolding same_state
mem_state s [] = false
mem_state s (x ∷ xs) = same_state s x || mem_state s xs

unfoldable pub starts_in : Source → State → Bool
unfolding mem_state
starts_in Source.any s = true
starts_in (Source.among xs) s = mem_state s xs

-- `=` stays in the state.
unfoldable pub target : Dest → State → State
target Dest.same s = s
target (Dest.to s') s = s'

-- `conditions` wants the answer `True`, `unless` the answer `False`.
unfoldable pub passes : Guard → Bool → Bool
passes Guard.always skipping = true
passes Guard.is_skipping_current_testcase skipping = skipping
passes Guard.unless_is_skipping_current_testcase skipping = not skipping

-- The rows for a trigger and a state, by the answer of `is_skipping_current_testcase`.
unfoldable pub offered : Bool → Trigger → State → List Transition
unfolding same_trigger starts_in passes transitions
offered skipping t s =
    filter_by (λ r. same_trigger r.trigger t && (starts_in r.source s && passes r.guard skipping))
      transitions

unfoldable pub next_states : Bool → Trigger → State → List State
unfolding offered target
next_states skipping t s = map (λ r. target r.dest s) (offered skipping t s)
