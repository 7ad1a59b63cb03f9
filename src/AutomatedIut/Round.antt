-- ===== src/AutomatedIut/Round.antt =====
-- A round of a stimuli step: the coordinator asks for it, the automated IUTs answer, and the
-- coordinator takes the answer.
use ioppytest.Prelude.{
  ℕ, ◌+◌, ◌≡◌, refl, sym, ap, ◌∙◌, true, false, List, [], ◌∷◌, ◌++◌, Option, none, some, Text,
  text_eq_refl, lookup, drop, get_elem?, ok,
}
use ioppytest.Step
use ioppytest.Step.{Step, StepType, StepState, Iut}
use ioppytest.Testcase
use ioppytest.Testcase.{Testcase, TcState}
use ioppytest.TestConfig.{TestConfig}
use ioppytest.Testsuite.{Testsuite, put}
use ioppytest.Testsuite.Stepping.{get_current_step, current_step_of, finish_stimuli_step}
use ioppytest.Testsuite.Stepping.Walk.{is_asked}
use ioppytest.Testsuite.Stepping.Progress.{first_due}
use ioppytest.Testsuite.Stepping.Answers.{finish_stimuli_step_lem, finished}
use ioppytest.Testsuite.Queries.{get_current_step_target_address}
use ioppytest.Testsuite.Views.{StepDetails, IutView, testcase_to_dict, iut_to_dict}
use ioppytest.Coordinator.{prepare_next_step}
use ioppytest.Coordinator.Current.{at_key}
use ioppytest.Coordinator.Steps.{StepEvent, handle_step_executed}
use ioppytest.Coordinator.Notify.{Notification, notify_step_execute, execute_of, target_or_none}
use ioppytest.Coordinator.Notify.Step.{
  prepared, advanced, current_advanced, messages, under_way, prepare_lem, notify_prepared,
}
use ioppytest.AutomatedIut.{
  AutomatedIut, Event, Answer, Stimuli, on_request, handle_stimuli_execute, answer_stimuli, publish,
}
use ioppytest.AutomatedIut.Group.{collect, Distinct, collect-addressee}

-- The node of a listed step: the `node` of its IUT.
abbrev node_of : Option IutView → Option Text
node_of none = none
node_of (some iut) = some iut.node

abbrev node_in : Option StepDetails → Option Text
node_in none = none
node_in (some d) = node_of d.iut

abbrev stimuli_for : Option Text → Text → Option Text → Event
stimuli_for none step_id target_address = Event.other
stimuli_for (some node) step_id target_address =
    Event.step_stimuli_execute node step_id target_address

-- What a notification is for an automated IUT.
abbrev pub event_of : Notification → Event
event_of (Notification.step_stimuli_execute s v target_address description) =
    stimuli_for (node_in s.details) s.step_id target_address
event_of _ = Event.other

abbrev pub collect_all : List Notification → List AutomatedIut → List Answer
collect_all [] iuts = []
collect_all (n ∷ rest) iuts = collect (event_of n) iuts ++ collect_all rest iuts

-- The description that an answer has, where what was executed did not fail.
abbrev pub Describes : Stimuli → Option Text → Type 0
Describes Stimuli.executed d = d ≡ none
Describes (Stimuli.not_implemented shown) d = d ≡ some shown
Describes (Stimuli.failed e) d = ⊥

described :
    (x : Stimuli) (d : Option Text) (node : Text) (iut : AutomatedIut)
    → Describes x d
    → (answer_stimuli x node iut).1.published
      ≡ iut.published ++ (Answer.step_stimuli_executed d node ∷ [])
unfolding answer_stimuli publish
described Stimuli.executed d node iut h = rw h refl
described (Stimuli.not_implemented shown) d node iut h = rw h refl
described (Stimuli.failed e) d node iut h = absurd h

-- An IUT whose execution does not fail answers with one message.
pub answers :
    (iut : AutomatedIut) (step : Text) (addr d : Option Text)
    → Describes (iut.methods.execute_stimuli step addr) d
    → (on_request (Event.step_stimuli_execute iut.node step addr) iut).1.published
      ≡ iut.published ++ (Answer.step_stimuli_executed d iut.node ∷ [])
unfolding on_request handle_stimuli_execute
answers iut step addr d h =
    rw (text_eq_refl iut.node, handle_stimuli_execute)
      (described (iut.methods.execute_stimuli step addr) d iut.node
        (record iut { message_count = iut.message_count + 1 }) h)

-- In a group with distinct nodes, the one IUT of the step's node answers what asks for the step.
group_answers :
    (ts : Testsuite) (s : Step) (tc : Testcase) (iut : Iut) (iuts : List AutomatedIut) (i : ℕ)
    (a : AutomatedIut) (d : Option Text)
    → s.type ≡ StepType.stimuli
    → Distinct iuts
    → get_elem? iuts i ≡ some a
    → a.node ≡ iut.node
    → ((addr : Option Text) → Describes (a.methods.execute_stimuli s.id addr) d)
    → collect_all (messages ts s iut (testcase_to_dict false tc)) iuts
      ≡ Answer.step_stimuli_executed d iut.node ∷ []
unfolding execute_of iut_to_dict
group_answers ts s tc iut iuts i a d t dist g n h =
    let addr = target_or_none (get_current_step_target_address ts) in
    let one =
      collect-addressee (Event.step_stimuli_execute a.node s.id addr) iuts i a
        (Answer.step_stimuli_executed d a.node ∷ []) dist g refl (answers a s.id addr d (h addr)) in
    rw t (rw (sym n) (rw one refl))

-- A round of a stimuli step. A test case is current, with its configuration, the step is the first
-- one due, and one of the automated IUTs, of which no two have the same node, has the node of the
-- step and does not fail to execute the step. Then the preparation of the next step and the
-- notification that follows go through; the IUTs answer with one message in all, that the stimuli
-- was executed on the step's node, with a description where it is not implemented; and by that
-- answer the coordinator finishes the step, which is still current.
pub stimuli_round :
    (k : Text) (tc : Testcase) (ts : Testsuite) (config : TestConfig) (j : ℕ) (s : Step) (iut : Iut)
    (iuts : List AutomatedIut) (i : ℕ) (a : AutomatedIut) (d : Option Text)
    → ts.current_tc ≡ some k
    → lookup k ts.test_descriptions_dict ≡ some tc
    → lookup tc.configuration_id ts.tc_configs ≡ some config
    → first_due (drop tc.step_it tc.sequence) tc.step_it ≡ some j
    → get_elem? tc.sequence j ≡ some s
    → s.iut ≡ some iut
    → s.type ≡ StepType.stimuli
    → Distinct iuts
    → get_elem? iuts i ≡ some a
    → a.node ≡ iut.node
    → ((addr : Option Text) → Describes (a.methods.execute_stimuli s.id addr) d)
    → let ts' = (prepare_next_step ts).1 in
      let after = handle_step_executed StepEvent.stimuli_executed ts' in
      ((l : List Notification) × (notify_step_execute ts' ≡ ok l)
        × (collect_all l iuts ≡ Answer.step_stimuli_executed d iut.node ∷ []))
      × (after.0 ≡ ok tt)
      × (get_current_step after.1 ≡ some (finished s))
unfolding handle_step_executed Testcase.change_state Step.change_state current_step_of
stimuli_round k tc ts config j s iut iuts i a d c e f due g b t dist m n h =
    let ts' = prepared k tc j ts in
    let tc' = Testcase.change_state (some TcState.executing) (advanced tc j) in
    let p = ap (λ q. q.1) (prepare_lem k tc ts j s c e due g) in
    let asked : is_asked s.type ≡ true = rw t refl in
    let (r, cur) =
      finish_stimuli_step_lem ts' k tc' (under_way s) c
        (at_key k (advanced tc j) tc' (put k (advanced tc j) ts) (at_key k tc (advanced tc j) ts e))
        (current_advanced tc j s g) refl t in
    (
      (
        messages ts' (under_way s) iut (testcase_to_dict false tc'),
        ap notify_step_execute p ∙ notify_prepared k tc ts config j s iut c e f g b asked,
        group_answers ts' (under_way s) tc' iut iuts i a d t dist m n h,
      ),
      ap (λ q. (finish_stimuli_step q).0) p ∙ r,
      ap (λ q. get_current_step (finish_stimuli_step q).1) p ∙ cur,
    )
