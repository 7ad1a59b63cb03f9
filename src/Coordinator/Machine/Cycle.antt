-- ===== src/Coordinator/Machine/Cycle.antt =====
-- From the end of a test case to the next: what the machine of ioppytest/test_coordinator does by
-- itself.
use ioppytest.Prelude.{
  ℕ, Bool, true, false, List, ◌++◌, ◌∙◌, ◌≡◌, ◌≢◌, refl, ap, [], ◌∷◌, none, some, Text, Result, ok,
  lookup,
}
use ioppytest.Testcase
use ioppytest.Testcase.{Testcase, TcState, Report}
use ioppytest.TestConfig.{TestConfig}
use ioppytest.Testsuite.{Testsuite, put, get_current_testcase}
use ioppytest.Testsuite.Reports.{get_testcase_report}
use ioppytest.Testsuite.Queries.{get_current_testcase_configuration}
use ioppytest.Coordinator.Current.{put_current, configured_at}
use ioppytest.Coordinator.Notify.{
  notify_testcase_finished, notify_testcase_verdict, notify_testsuite_finished,
  notify_tescase_configuration,
}
use ioppytest.Testsuite.Order.Pending.{first_pending}
use ioppytest.Fsm.Tables.{State, Trigger, Callback}
use ioppytest.Fsm.Machine.{
  Machine, Work, Package, IsDocumented, run, run_documented, documented, work_for, work_of,
  automatic, trigger_of, on_enter_of, on_exit_of, run_step, quiet_step,
}
use ioppytest.Fsm.Edges.{offered, target}
use ioppytest.Coordinator.{Event, prepare_next_testcase}
use ioppytest.Coordinator.Prepare.{prepare_next_testcase_starts, prepare_next_testcase_finishes}
use ioppytest.Coordinator.Steps.{handle_finish_testsuite}
use ioppytest.Coordinator.Machine.{Received, method, skipping, save_current_testcase_report_to_file}

-- The suite in which a test case is current and configuring.
abbrev pub prepared_suite : Text → Testcase → Testsuite → Testsuite
prepared_suite k tc ts =
    put k (Testcase.change_state (some TcState.configuring) tc) (record ts { current_tc = some k })

-- The work that the triggers give, whatever the condition answers.
finish_work :
    (b : Bool)
    → work_for b Trigger.finish_testsuite State.preparing_next_testcase
      ≡ ok (Work.enter State.testsuite_finished ∷ [])
unfolding work_for work_of automatic offered on_exit_of target
finish_work true = refl
finish_work false = refl

start_work :
    (b : Bool)
    → work_for b Trigger.start_configuration State.preparing_next_testcase
      ≡ ok (
          Work.enter State.waiting_for_iut_configuration_executed
          ∷ Work.call Callback.notify_tescase_configuration
          ∷ [])
unfolding work_for work_of automatic offered on_exit_of target
start_work true = refl
start_work false = refl

-- The reports of the current test case, and the configuration of it, go through.
verdict_told :
    (r : Received) (ts : Testsuite) (tc : Testcase) (report : Report)
    → get_current_testcase ts ≡ some tc
    → get_testcase_report none ts ≡ some report
    → (method r Callback.notify_testcase_finished ts ≡ (ok none, ts))
      × (method r Callback.save_current_testcase_report_to_file ts ≡ (ok none, ts))
      × (method r Callback.notify_testcase_verdict ts ≡ (ok none, ts))
unfolding method notify_testcase_finished save_current_testcase_report_to_file
    notify_testcase_verdict
verdict_told r ts tc report c e = (rw c refl, rw c (rw e refl), rw e (rw c refl))

configuration_told :
    (r : Received) (ts : Testsuite) (tc : Testcase) (config : TestConfig)
    → get_current_testcase ts ≡ some tc
    → get_current_testcase_configuration ts ≡ some config
    → method r Callback.notify_tescase_configuration ts ≡ (ok none, ts)
unfolding method notify_tescase_configuration
configuration_told r ts tc config c e = rw c (rw e refl)

-- The test case that is prepared, and its configuration.
configuring :
    (k : Text) (tc : Testcase) (ts : Testsuite) (config : TestConfig)
    → lookup k ts.test_descriptions_dict ≡ some tc
    → lookup tc.configuration_id ts.tc_configs ≡ some config
    → (get_current_testcase (prepared_suite k tc ts)
        ≡ some (Testcase.change_state (some TcState.configuring) tc))
      × (get_current_testcase_configuration (prepared_suite k tc ts) ≡ some config)
unfolding Testcase.change_state
configuring k tc ts config at e =
    let current =
      put_current k tc (Testcase.change_state (some TcState.configuring) tc)
        (record ts { current_tc = some k }) refl at in
    (current, configured_at _ (prepared_suite k tc ts) config current e)

module _ (r : Received) where
  abbrev steps : ℕ → List Work → State → Testsuite → Result (Machine Testsuite)
  steps = run (documented (method r) (skipping r))

  -- The machine runs by itself to the preparation of the next test case.
  to_preparation :
      (s : State) (ts : Testsuite) (tc : Testcase) (report : Report)
      → get_current_testcase ts ≡ some tc
      → get_testcase_report none ts ≡ some report
      → steps 12 (Work.enter State.testcase_finished ∷ []) s ts
        ≡ steps 6 (Work.call Callback.prepare_next_testcase ∷ []) State.preparing_next_testcase ts
  unfolding run documented on_enter_of trigger_of work_for automatic on_exit_of
  to_preparation s ts tc report c e =
      let told = verdict_told r ts tc report c e in
      quiet_step (method r) (skipping r) 10 Callback.notify_testcase_finished _
        State.testcase_finished ts refl told.0
      ∙ quiet_step (method r) (skipping r) 9 Callback.save_current_testcase_report_to_file _
          State.testcase_finished ts refl told.1
      ∙ quiet_step (method r) (skipping r) 8 Callback.notify_testcase_verdict _
          State.testcase_finished ts refl told.2
      ∙ refl

  -- The preparation fires a trigger, of which the work is known.
  prepared :
      (ts ts' : Testsuite) (t : Trigger) (work : List Work)
      → prepare_next_testcase r.event ts ≡ (ok t, ts')
      → ((b : Bool) → work_for b t State.preparing_next_testcase ≡ ok work)
      → steps 6 (Work.call Callback.prepare_next_testcase ∷ []) State.preparing_next_testcase ts
        ≡ steps 4 (work ++ []) State.preparing_next_testcase ts'
  unfolding documented method trigger_of
  prepared ts ts' t work e w =
      let fire = Work.call (Callback.fire t) in
      run_step (documented (method r) (skipping r)) 5 (Work.call Callback.prepare_next_testcase) []
        State.preparing_next_testcase ts
        (record { state = State.preparing_next_testcase; work = fire ∷ []; coordinator = ts' })
        (rw e refl)
      ∙ run_step (documented (method r) (skipping r)) 4 fire [] State.preparing_next_testcase ts'
          (record { state = State.preparing_next_testcase; work = work ++ []; coordinator = ts' })
          (rw (w (skipping r ts')) refl)

  -- The current test case is finished and has a report, none is left without a state, and the
  -- event received last asks for no test case. Then an engine that does what is documented goes on
  -- by itself, in at most twelve steps, from whatever state the end is entered, to the end of the
  -- test suite: nothing is left to do, no test case is current, and the suite is finished as
  -- `handle_finish_testsuite` does.
  pub cycle_finishes :
      (engine : Package Testsuite) (s : State) (ts : Testsuite) (tc : Testcase) (report : Report)
      → IsDocumented (method r) (skipping r) engine
      → r.event ≡ Event.other
      → get_current_testcase ts ≡ some tc
      → get_testcase_report none ts ≡ some report
      → ts.test_descriptions_dict ≢ []
      → first_pending ts.test_descriptions_dict ≡ none
      → run engine 12 (Work.enter State.testcase_finished ∷ []) s ts
        ≡ ok (record {
          state = State.testsuite_finished;
          work = [];
          coordinator = handle_finish_testsuite (record ts { current_tc = none });
        })
  unfolding run documented method on_enter_of trigger_of notify_testsuite_finished
  cycle_finishes engine s ts tc report doc other c has n e =
      run_documented (method r) (skipping r) engine doc 12 (Work.enter State.testcase_finished ∷ [])
        s ts
      ∙ to_preparation s ts tc report c has
      ∙ (prepared ts (record ts { current_tc = none }) Trigger.finish_testsuite
            (Work.enter State.testsuite_finished ∷ [])
            (ap (λ v. prepare_next_testcase v ts) other ∙ prepare_next_testcase_finishes ts n e)
            finish_work
          ∙ refl)

  -- The current test case is finished and has a report, one is left without a state, which has its
  -- configuration, and the event received last asks for no test case. Then an engine that does
  -- what is documented goes on by itself, in at most twelve steps, from whatever state the end is
  -- entered, to wait for the configuration of the first test case that is left: nothing is left to
  -- do, it is current and configuring, and nothing else of the suite has changed.
  pub cycle_starts :
      (engine : Package Testsuite) (s : State) (ts : Testsuite) (tc : Testcase) (report : Report)
      (k : Text) (tc' : Testcase) (config : TestConfig)
      → IsDocumented (method r) (skipping r) engine
      → r.event ≡ Event.other
      → get_current_testcase ts ≡ some tc
      → get_testcase_report none ts ≡ some report
      → ts.test_descriptions_dict ≢ []
      → first_pending ts.test_descriptions_dict ≡ some k
      → lookup k ts.test_descriptions_dict ≡ some tc'
      → lookup tc'.configuration_id ts.tc_configs ≡ some config
      → run engine 12 (Work.enter State.testcase_finished ∷ []) s ts
        ≡ ok (record {
          state = State.waiting_for_iut_configuration_executed;
          work = [];
          coordinator = prepared_suite k tc' ts;
        })
  unfolding run documented on_enter_of trigger_of
  cycle_starts engine s ts tc report k tc' config doc other c has n e at conf =
      let ready = configuring k tc' ts config at conf in
      run_documented (method r) (skipping r) engine doc 12 (Work.enter State.testcase_finished ∷ [])
        s ts
      ∙ to_preparation s ts tc report c has
      ∙ (prepared ts (prepared_suite k tc' ts) Trigger.start_configuration
            (Work.enter State.waiting_for_iut_configuration_executed
              ∷ Work.call Callback.notify_tescase_configuration
              ∷ [])
            (ap (λ v. prepare_next_testcase v ts) other
              ∙ prepare_next_testcase_starts ts k tc' n e at)
            start_work
          ∙ quiet_step (method r) (skipping r) 2 Callback.notify_tescase_configuration []
              State.waiting_for_iut_configuration_executed (prepared_suite k tc' ts) refl
              (configuration_told r (prepared_suite k tc' ts) _ config ready.0 ready.1)
          ∙ refl)
