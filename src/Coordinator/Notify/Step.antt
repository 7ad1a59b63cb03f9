-- ===== src/Coordinator/Notify/Step.antt =====
-- The step that is prepared is the one that the users are asked to execute.
use ioppytest.Prelude.{
  ℕ, suc, ◌≡◌, refl, ap, ◌∙◌, subst, true, false, List, [], ◌∷◌, map, Option, none, some, Text,
  lookup, drop, get_elem?, modify_at, get_elem?-modify_at_self, ok, arith,
}
use ioppytest.Step
use ioppytest.Step.{Step, StepType, StepState, Iut}
use ioppytest.Testcase
use ioppytest.Testcase.{Testcase, TcState}
use ioppytest.TestConfig.{TestConfig}
use ioppytest.Testsuite.{Testsuite, get_current_testcase, put, on_testcase}
use ioppytest.Testsuite.Stepping.{take_step, next_step, get_current_step, current_step_of}
use ioppytest.Testsuite.Stepping.Progress.{first_due, Takes, take_step-Takes}
use ioppytest.Testsuite.Stepping.Walk.{is_asked}
use ioppytest.Testsuite.Queries.{
  get_current_testcase_configuration, get_current_step_target_address,
}
use ioppytest.Testsuite.Views.{
  StepView, TestcaseView, step_to_dict, iut_to_dict, testcase_to_dict, iut_details,
}
use ioppytest.Fsm.Tables.{Trigger}
use ioppytest.Coordinator.{prepare_next_step, execute_or_analyse}
use ioppytest.Coordinator.Current.{put_current, configured_at, at_key, state_set_at}
use ioppytest.Coordinator.Notify.{
  Notification, execute_of, execute_details, notify_step_execute, target_or_none, step_description,
}

-- The step and the test case that a message asks to execute.
abbrev pub asks_for : Notification → Option (Text × Text)
asks_for (Notification.step_stimuli_execute s v target_address description) =
    some (s.step_id, v.testcase_id)
asks_for (Notification.step_verify_execute s v description) = some (s.step_id, v.testcase_id)
asks_for _ = none

details_known :
    (t : StepType) (iut : Iut)
    → is_asked t ≡ true
    → iut_details t (some iut) ≡ ok (some (iut_to_dict iut))
unfolding iut_details
details_known t iut a = ground arith

execute_one :
    (t : StepType) (s : StepView) (v : TestcaseView) (target : Option Text) (l : List Text)
    → is_asked t ≡ true
    → map asks_for (execute_of t s v target l) ≡ some (s.step_id, v.testcase_id) ∷ []
unfolding execute_of
execute_one t s v target l a = ground arith

abbrev pub shown : Step → Iut → StepView
shown s iut = record {
  step_id = s.id;
  details = some (record {
    step_type = s.type;
    step_info = s.description;
    step_state = s.state;
    iut = some (iut_to_dict iut);
  });
}

shown_known :
    (s : Step) (iut : Iut)
    → s.iut ≡ some iut
    → is_asked s.type ≡ true
    → step_to_dict true s ≡ ok (shown s iut)
unfolding step_to_dict
shown_known s iut i a = rw i (rw (details_known s.type iut a) refl)

abbrev pub messages : Testsuite → Step → Iut → TestcaseView → List Notification
messages ts s iut v =
    execute_of s.type (shown s iut) v (target_or_none (get_current_step_target_address ts))
      (step_description s.id s.description)

-- A step that a user is asked to execute, with its IUT, is asked for in one message.
notified :
    (ts : Testsuite) (tc : Testcase) (config : TestConfig) (s : Step) (iut : Iut)
    → get_current_testcase ts ≡ some tc
    → get_current_testcase_configuration ts ≡ some config
    → get_current_step ts ≡ some s
    → s.iut ≡ some iut
    → is_asked s.type ≡ true
    → notify_step_execute ts ≡ ok (messages ts s iut (testcase_to_dict false tc))
unfolding notify_step_execute execute_details
notified ts tc config s iut c f e i a = rw e (rw (shown_known s iut i a) (rw f (rw c refl)))

-- The test case once its step `j` is current and executing.
abbrev pub advanced : Testcase → ℕ → Testcase
advanced tc j = record tc {
  step_it = suc j;
  current_step = some j;
  sequence = modify_at tc.sequence j (Step.change_state (some StepState.executing));
}

next_step_at :
    (k : Text) (tc tc' : Testcase) (ts : Testsuite) (o : Option Step)
    → ts.current_tc ≡ some k
    → lookup k ts.test_descriptions_dict ≡ some tc
    → take_step tc ≡ (ok o, tc')
    → next_step ts ≡ (ok o, put k tc' ts)
unfolding next_step on_testcase
next_step_at k tc tc' ts o c e t = rw c (rw (e, next_step, on_testcase) (rw t refl))

taken :
    (tc : Testcase) (j : ℕ) (s : Step)
    → first_due (drop tc.step_it tc.sequence) tc.step_it ≡ some j
    → get_elem? tc.sequence j ≡ some s
    → take_step tc ≡ (ok (some (Step.change_state (some StepState.executing) s)), advanced tc j)
taken tc j s d e =
    let (s', e', _, r, q) = subst (Takes tc (take_step tc)) d (take_step-Takes tc) in
    let same : s' ≡ s = cc in
    λ i. ((r ∙ ap (λ x. ok (some (Step.change_state (some StepState.executing) x))) same) i, q i)

pub current_advanced :
    (tc : Testcase) (j : ℕ) (s : Step)
    → get_elem? tc.sequence j ≡ some s
    → current_step_of (advanced tc j) ≡ some (Step.change_state (some StepState.executing) s)
unfolding current_step_of
current_advanced tc j s e =
    get_elem?-modify_at_self tc.sequence j (Step.change_state (some StepState.executing)) e

-- The suite once the step is prepared.
abbrev pub prepared : Text → Testcase → ℕ → Testsuite → Testsuite
prepared k tc j ts =
    put k (Testcase.change_state (some TcState.executing) (advanced tc j))
      (put k (advanced tc j) ts)

pub prepare_lem :
    (k : Text) (tc : Testcase) (ts : Testsuite) (j : ℕ) (s : Step)
    → ts.current_tc ≡ some k
    → lookup k ts.test_descriptions_dict ≡ some tc
    → first_due (drop tc.step_it tc.sequence) tc.step_it ≡ some j
    → get_elem? tc.sequence j ≡ some s
    → prepare_next_step ts ≡ (ok Trigger.start_next_step, prepared k tc j ts)
unfolding prepare_next_step execute_or_analyse
prepare_lem k tc ts j s c e d g =
    rw (next_step_at k tc (advanced tc j) ts _ c e (taken tc j s d g)) (
      rw
        (state_set_at TcState.executing (put k (advanced tc j) ts) k (advanced tc j) c
          (at_key k tc (advanced tc j) ts e))
        refl)

step_at :
    (ts : Testsuite) (tc : Testcase)
    → get_current_testcase ts ≡ some tc
    → get_current_step ts ≡ current_step_of tc
unfolding get_current_step
step_at ts tc e = rw (e, get_current_step) refl

-- The step as it is when it is executed.
abbrev pub under_way : Step → Step
under_way = Step.change_state (some StepState.executing)

pub notify_prepared :
    (k : Text) (tc : Testcase) (ts : Testsuite) (config : TestConfig) (j : ℕ) (s : Step) (iut : Iut)
    → ts.current_tc ≡ some k
    → lookup k ts.test_descriptions_dict ≡ some tc
    → lookup tc.configuration_id ts.tc_configs ≡ some config
    → get_elem? tc.sequence j ≡ some s
    → s.iut ≡ some iut
    → is_asked s.type ≡ true
    → notify_step_execute (prepared k tc j ts)
      ≡ ok (
          messages (prepared k tc j ts) (under_way s) iut (
            testcase_to_dict false
              (Testcase.change_state (some TcState.executing) (advanced tc j))))
unfolding Testcase.change_state Step.change_state current_step_of
notify_prepared k tc ts config j s iut c e f g i a =
    let ts' = prepared k tc j ts in
    let tc' = Testcase.change_state (some TcState.executing) (advanced tc j) in
    let cur =
      put_current k (advanced tc j) tc' (put k (advanced tc j) ts) c
        (at_key k tc (advanced tc j) ts e) in
    notified ts' tc' config (under_way s) iut cur (configured_at tc' ts' config cur f)
      (step_at ts' tc' cur ∙ current_advanced tc j s g) i a

-- When a test case with its configuration is current and a stimuli or verify step with an IUT is
-- the first one due, the preparation of the next step fires `_start_next_step`; then, on the suite
-- that it leaves, entering the next state publishes exactly one message, which asks for that step
-- of that test case.
pub prepare-notify :
    (k : Text) (tc : Testcase) (ts : Testsuite) (config : TestConfig) (j : ℕ) (s : Step) (iut : Iut)
    → ts.current_tc ≡ some k
    → lookup k ts.test_descriptions_dict ≡ some tc
    → lookup tc.configuration_id ts.tc_configs ≡ some config
    → first_due (drop tc.step_it tc.sequence) tc.step_it ≡ some j
    → get_elem? tc.sequence j ≡ some s
    → s.iut ≡ some iut
    → is_asked s.type ≡ true
    → let (r, ts') = prepare_next_step ts in
      (r ≡ ok Trigger.start_next_step)
      × ((l : List Notification) × (notify_step_execute ts' ≡ ok l)
          × (map asks_for l ≡ some (s.id, tc.id) ∷ []))
unfolding Testcase.change_state Step.change_state testcase_to_dict
prepare-notify k tc ts config j s iut c e f d g i a =
    let p = prepare_lem k tc ts j s c e d g in
    let ts' = prepared k tc j ts in
    let v =
      testcase_to_dict false (Testcase.change_state (some TcState.executing) (advanced tc j)) in
    (
      ap (λ q. q.0) p,
      (
        messages ts' (under_way s) iut v,
        ap (λ q. notify_step_execute q.1) p ∙ notify_prepared k tc ts config j s iut c e f g i a,
        execute_one s.type (shown (under_way s) iut) v
            (target_or_none (get_current_step_target_address ts'))
            (step_description s.id s.description) a,
      ),
    )
