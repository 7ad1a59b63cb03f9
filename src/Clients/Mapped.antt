-- ===== src/Clients/Mapped.antt =====
-- automation/coap_client_coapthon/automated_iut.py,
-- automation/coap_client_californium/automated_iut.py and
-- automation/onem2m_adn_etsi_implementation/automated_iut.py: the clients that run a program with
-- the name of a test case. The options of the environment and what `urlparse` gives are parameters;
-- what comes of the process does not matter.
pub mod Table
use ioppytest.Prelude.{
  ℕ, zero, suc, ◌+◌, List, [], ◌∷◌, ◌++◌, Option, none, some, Text, codes, Dict, lookup, values,
  Result, ok, raised, key_error, true, false, Bool,
}
use ioppytest.AutomatedIut
use ioppytest.AutomatedIut.{AutomatedIut, Stimuli, Methods}
use ioppytest.Clients.{Environment, base_url_of, numbered}
use Table.{coapthon_map, californium_map, adn_map}

pub data Program : Type 0 where
  coapthon californium adn : Program

abbrev pub stimuli_to_testcase_map : Program → Dict Text
stimuli_to_testcase_map coapthon = coapthon_map
stimuli_to_testcase_map californium = californium_map
stimuli_to_testcase_map adn = adn_map

abbrev iut_base_cmd : Program → Text
iut_base_cmd coapthon =
    codes "python automation/coap_client_coapthon/CoAPthon/finterop_interop_tests.py"
iut_base_cmd californium =
    codes "java -jar automation/coap_client_californium/target/"
    ++ codes "coap_plugtest_client-1.1.0-SNAPSHOT.jar -s"
iut_base_cmd adn =
    codes "java -jar automation/onem2m_adn_etsi_implementation/target/adn/adn.jar "
    ++ codes "-h [bbbb::2] -p 5683 -ci server -cn server -o Cae-admin -t"

-- `' {option} {value}'.format(...)`
abbrev option : Text → Text → Text
option name v = codes " " ++ (name ++ (codes " " ++ v))

-- The host of the URL that `_execute_stimuli` makes: an address that is not empty, or the default.
abbrev host_of : Environment → Option Text → Text
host_of env (some (c ∷ s)) = c ∷ s
host_of env _ = env.coap_server_host

-- The options for the target. The host and the port that `urlparse` gives of the URL, as texts,
-- are a parameter; a URL that is malformed raises.
abbrev target_options :
    (Text → Result (Text × Text)) → Program → Environment → Option Text → Result Text
target_options urlparse coapthon env addr =
    elim (urlparse (base_url_of (host_of env addr) env.coap_server_port)) [
      | raised e ↦ raised e
      | ok (hostname, port) ↦ ok (option (codes "--ip") hostname ++ option (codes "--port") port)
    ]
target_options urlparse californium env addr =
    ok (option (codes "-u") (base_url_of (host_of env addr) env.coap_server_port))
target_options urlparse adn env addr = ok []

abbrev testcase_option : Program → Text
testcase_option coapthon = codes "--testcase"
testcase_option californium = codes "-t"
testcase_option adn = codes "-t"

with_testcase : Program → Result Text → Option Text → Result Text
with_testcase program (raised e) testcase = raised e
with_testcase program (ok options) none = raised key_error
with_testcase program (ok options) (some testcase) =
    ok (iut_base_cmd program ++ (options ++ option (testcase_option program) testcase))

-- The command of a test case, if the step has one.
unfoldable pub command :
    (Text → Result (Text × Text)) → Program → Environment → Option Text → Option Text → Result Text
unfolding with_testcase
command urlparse program env addr testcase =
    with_testcase program (target_options urlparse program env addr) testcase

-- The commands that `subprocess.Popen` was called with, in order.
abbrev pub Spawned : Type 0
Spawned = List Text

-- Every exception is logged and ends there: one before the process is spawned, a time-out, and a
-- process that does not start.
spawn : Result Text → Spawned → Stimuli × Spawned
spawn (raised e) spawned = (Stimuli.executed, spawned)
spawn (ok cmd) spawned = (Stimuli.executed, spawned ++ (cmd ∷ []))

module _ (urlparse : Text → Result (Text × Text)) (program : Program) (env : Environment) where
  -- `_execute_stimuli`
  unfoldable pub execute_stimuli : Text → Option Text → Spawned → Stimuli × Spawned
  unfolding spawn
  execute_stimuli step addr spawned =
      spawn (command urlparse program env addr (lookup step (stimuli_to_testcase_map program)))
        spawned

  -- The methods of the classes, of which none depends on what was spawned before.
  unfoldable pub methods : (Text → Bool) → Methods
  methods test_l3_reachability = record {
    execute_stimuli = λ step addr. (execute_stimuli step addr []).0;
    execute_verify = λ step. ok tt;
    execute_configuration = λ testcase_id node. ok (some env.coap_client_host);
    test_l3_reachability = test_l3_reachability;
  }

abbrev node_of : Program → Text
node_of coapthon = codes "coap_client"
node_of californium = codes "coap_client"
node_of adn = codes "adn"

abbrev component_id_of : Program → Text
component_id_of coapthon = codes "automated_iut-coap_client-coapthon"
component_id_of californium = codes "automated_iut-coap_client-californium"
component_id_of adn = codes "automated_iut-onem2m_adn"

-- Coapthon has test cases 1 to 31, the others those of their table.
unfoldable pub implemented_testcases_list : Program → List Text
unfolding numbered
implemented_testcases_list coapthon = numbered (codes "TD_COAP_CORE_") 1 31
implemented_testcases_list californium = values californium_map
implemented_testcases_list adn = values adn_map

unfoldable pub automated_iut :
    (Text → Result (Text × Text)) → Program → Environment → (Text → Bool) → AutomatedIut
unfolding implemented_testcases_list methods
automated_iut urlparse program env test_l3_reachability =
    AutomatedIut.init (node_of program) (component_id_of program)
      (some (implemented_testcases_list program))
      (methods urlparse program env test_l3_reachability)
