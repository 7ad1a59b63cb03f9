-- ===== src/Examples.antt =====
-- Small test cases, suites and configurations, on which the other modules of this part run the
-- operations.
pub mod Reports
pub mod Suites
pub mod Machines
pub mod Coordination
pub mod Cycle
pub mod Session
pub mod Clients
pub mod Ui
pub mod Adaptor
use ioppytest.Prelude.{ℕ, Bool, true, false, List, [], ◌∷◌, Option, none, some, Text, codes, Dict}
use ioppytest.Verdict.{Verdict, blank}
use ioppytest.Step.{Step, Iut, StepType, StepState, init_iut}
use ioppytest.Testcase.{Testcase, TcState, PartialVerdict}
use ioppytest.TestConfig.{TestConfig, Link}
use ioppytest.Testsuite.{Testsuite}

abbrev pub client : Text
client = codes "client"

abbrev pub server : Text
server = codes "server"

abbrev pub stimulus : Option StepState → Step
stimulus state = record {
  id = codes "S1";
  type = StepType.stimuli;
  state = state;
  description = codes "send";
  partial_verdict = none;
  iut = some (init_iut client);
}

abbrev pub checking : Option StepState → Verdict → Step
checking state v = record {
  id = codes "S2";
  type = StepType.check;
  state = state;
  description = codes "observe";
  partial_verdict = some v;
  iut = none;
}

abbrev pub verifying : Option StepState → Verdict → Step
verifying state v = record {
  id = codes "S3";
  type = StepType.verify;
  state = state;
  description = codes "display";
  partial_verdict = some v;
  iut = some (init_iut client);
}

abbrev pub testcase : Option TcState → List Step → ℕ → Option ℕ → Testcase
testcase state sequence step_it current_step = record {
  id = codes "TC1";
  state = state;
  uri = [];
  objective = [];
  configuration_id = codes "CFG";
  references = [];
  pre_conditions = [];
  notes = [];
  sequence = sequence;
  step_it = step_it;
  current_step = current_step;
  report = none;
}

abbrev pub fresh_steps : List Step
fresh_steps = stimulus none ∷ checking (some StepState.postponed) blank ∷ verifying none blank ∷ []

abbrev pub fresh : Testcase
fresh = testcase none fresh_steps 0 none

-- The user answered `fail` to the verify step.
abbrev pub done_steps : List Step
done_steps =
    stimulus (some StepState.finished)
    ∷ checking (some StepState.postponed) blank
    ∷ verifying (some StepState.finished) (record { value = 3; message = codes "no" })
    ∷ []

abbrev pub done : Testcase
done = testcase (some TcState.executing) done_steps 3 (some 2)

-- The verify step is under way.
abbrev pub verify_step : Step
verify_step = verifying (some StepState.executing) blank

abbrev pub verify_under_way : Testcase
verify_under_way =
    testcase (some TcState.executing)
      (stimulus (some StepState.finished)
        ∷ checking (some StepState.postponed) blank
        ∷ verify_step
        ∷ [])
      3 (some 2)

abbrev pub pass_line : PartialVerdict
pass_line = record { step_id = codes "tat"; verdict = codes "pass"; info = []; frame = none }

abbrev pub link : Link
link = record {
  link_id = codes "link_1";
  nodes = client ∷ server ∷ [];
  capture_filter = [];
  special_mode = none;
}

abbrev pub config : TestConfig
config = record {
  id = codes "CFG";
  uri = [];
  nodes = client ∷ server ∷ [];
  nodes_description = [];
  default_addressing = [];
  configuration_diagram = [];
  topology = link ∷ [];
}

abbrev pub suite : Dict Testcase → Option Text → Testsuite
suite entries current_tc = record {
  tc_configs = (codes "CFG", config) ∷ [];
  agents = client ∷ server ∷ [];
  addressing_table = [];
  nodes_configured = [];
  test_descriptions_dict = entries;
  current_tc = current_tc;
  session_id = some (codes "id");
  session_users = none;
  session_configuration = none;
  session_selected_tc_list = some (codes "TC1" ∷ []);
  report = none;
}

abbrev pub two_testcases : Dict Testcase
two_testcases = (codes "TC1", done) ∷ (codes "TC2", fresh) ∷ []
