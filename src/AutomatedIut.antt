-- ===== src/AutomatedIut.antt =====
-- automation/automated_iut.py: `AutomatedIUT`, an implementation under test that answers the
-- messages of the event bus by itself. What a subclass overrides, and the ping, are parameters.
pub mod Group
pub mod Round
use ioppytest.Prelude.Actions
use ioppytest.Prelude.Actions.{Action, ◌>>=◌, ◌>>◌}
use ioppytest.Prelude.{
  ℕ, ◌+◌, Bool, true, false, List, [], ◌∷◌, ◌++◌, Option, none, some, Text, codes, ◌==◌, mem,
  if◌then◌else◌, Result, ok, raised, Exn, system_exit,
}

-- What `_execute_stimuli` does: it returns, it is not implemented, or it raises something else.
pub data Stimuli : Type 0 where
  executed : Stimuli
  not_implemented : (shown : Text) → Stimuli
  failed : Exn → Stimuli

-- The methods of a subclass, and the test of reachability.
pub record Methods : Type 0 where
  pub execute_stimuli : Text → Option Text → Stimuli
  pub execute_verify : Text → Result (Unit {0})
  -- The address that is returned may be `None`.
  pub execute_configuration : Text → Text → Result (Option Text)
  pub test_l3_reachability : Text → Bool

pub data Answer : Type 0 where
  component_ready component_shutdown : (component : Text) → Answer
  testcase_skip : (testcase_id : Text) → Answer
  step_stimuli_executed : (description : Option Text) (node : Text) → Answer
  step_verify_executed : (verify_response : Bool) (node : Text) → Answer
  configuration_executed : (testcase_id node : Text) (ipv6_address : Option Text) → Answer
  test_ping_reply : (ok : Bool) (description node target_address : Text) → Answer

-- `message_count`, and all that was published, in order.
pub record AutomatedIut : Type 0 where
  pub node : Text
  pub component_id : Text
  pub implemented_testcases_list : Option (List Text)
  pub methods : Methods
  pub message_count : ℕ
  pub published : List Answer

-- `"{comp}.{node}".format(...)`
unfoldable pub component : Text → Text → Text
component component_id node = component_id ++ (codes "." ++ node)

-- `__init__`, of a subclass with these attributes: it says hello.
unfoldable pub init : Text → Text → Option (List Text) → Methods → AutomatedIut
init node component_id implemented_testcases_list methods = record {
  node = node;
  component_id = component_id;
  implemented_testcases_list = implemented_testcases_list;
  methods = methods;
  message_count = 0;
  published = component_ready (component component_id node) ∷ [];
}

pub data Event : Type 0 where
  undecodable : Event
  testcase_ready : (testcase_id : Text) → Event
  step_verify_execute : (node step_id : Text) → Event
  step_stimuli_execute : (node step_id : Text) (target_address : Option Text) → Event
  testsuite_report : Event
  testing_tool_terminate : Event
  configuration_execute : (testcase_id node : Text) → Event
  test_ping : (node target_address : Text) → Event
  other : Event

-- `publish_message`
unfoldable pub publish : Answer → Action AutomatedIut (Unit {0})
publish m iut = (ok tt, record iut { published = iut.published ++ (m ∷ []) })

ready_among : Text → List Text → Action AutomatedIut (Unit {0})
ready_among testcase_id [] = Actions.pure tt
ready_among testcase_id (tc ∷ rest) =
    if mem testcase_id (tc ∷ rest) then Actions.pure tt else publish (testcase_skip testcase_id)

-- Without a list, or with an empty one, any test case can be run.
handle_testcase_ready : Text → Option (List Text) → Action AutomatedIut (Unit {0})
unfolding ready_among
handle_testcase_ready testcase_id none = Actions.pure tt
handle_testcase_ready testcase_id (some l) = ready_among testcase_id l

answer_stimuli : Stimuli → Text → Action AutomatedIut (Unit {0})
answer_stimuli executed node = publish (step_stimuli_executed none node)
answer_stimuli (not_implemented shown) node = publish (step_stimuli_executed (some shown) node)
answer_stimuli (failed e) node = Actions.raise e

-- A step that the IUT did not declare is only logged.
handle_stimuli_execute : Text → Text → Option Text → Action AutomatedIut (Unit {0})
unfolding answer_stimuli
handle_stimuli_execute node step addr iut =
    if node == iut.node
    then answer_stimuli (iut.methods.execute_stimuli step addr) iut.node iut
    else (ok tt, iut)

answer_verify : Result (Unit {0}) → Text → Action AutomatedIut (Unit {0})
answer_verify (ok a) node = publish (step_verify_executed true node)
answer_verify (raised e) node = Actions.raise e

handle_testcase_verify_execute : Text → Text → Action AutomatedIut (Unit {0})
unfolding answer_verify
handle_testcase_verify_execute node step iut =
    if node == iut.node
    then answer_verify (iut.methods.execute_verify step) iut.node iut
    else (ok tt, iut)

-- `if ipaddr != ''`: `None` is sent too.
answer_configuration : Result (Option Text) → Text → Text → Action AutomatedIut (Unit {0})
answer_configuration (raised e) testcase_id node = Actions.raise e
answer_configuration (ok none) testcase_id node =
    publish (configuration_executed testcase_id node none)
answer_configuration (ok (some [])) testcase_id node = Actions.pure tt
answer_configuration (ok (some (c ∷ s))) testcase_id node =
    publish (configuration_executed testcase_id node (some (c ∷ s)))

handle_configuration_execute : Text → Text → Action AutomatedIut (Unit {0})
unfolding answer_configuration
handle_configuration_execute testcase_id node iut =
    if node == iut.node
    then answer_configuration (iut.methods.execute_configuration testcase_id node) testcase_id node
        iut
    else (ok tt, iut)

ping_description : Bool → Text
ping_description true = codes "Ping reply received, peer is reachable"
ping_description false = codes "Ping reply not received, peer is unreachable"

handle_test_ping : Text → Text → Action AutomatedIut (Unit {0})
unfolding ping_description
handle_test_ping node target_address iut =
    let reachable = iut.methods.test_l3_reachability target_address in
    if node == iut.node
    then publish (test_ping_reply reachable (ping_description reachable) node target_address) iut
    else (ok tt, iut)

-- `_exit`: after its last message the process ends.
exit : Action AutomatedIut (Unit {0})
exit iut =
    (publish (component_shutdown (component iut.component_id iut.node))
        >> Actions.raise system_exit)
      iut

-- `event_to_handler_map`. The report of the suite is only logged.
handle : Event → Action AutomatedIut (Unit {0})
unfolding handle_testcase_ready handle_stimuli_execute handle_testcase_verify_execute
    handle_configuration_execute handle_test_ping exit
handle undecodable iut = (ok tt, iut)
handle (testcase_ready testcase_id) iut =
    handle_testcase_ready testcase_id iut.implemented_testcases_list iut
handle (step_verify_execute node step_id) iut = handle_testcase_verify_execute node step_id iut
handle (step_stimuli_execute node step_id addr) iut = handle_stimuli_execute node step_id addr iut
handle testsuite_report iut = (ok tt, iut)
handle testing_tool_terminate iut = exit iut
handle (configuration_execute testcase_id node) iut =
    handle_configuration_execute testcase_id node iut
handle (test_ping node target_address) iut = handle_test_ping node target_address iut
handle other iut = (ok tt, iut)

unfoldable pub on_request : Event → Action AutomatedIut (Unit {0})
unfolding handle
on_request event iut = handle event (record iut { message_count = iut.message_count + 1 })
