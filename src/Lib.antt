-- ===== src/Lib.antt =====
-- A model of the core of the interoperability testing tool ioppytest, with the theorems that make
-- it correct.
--
-- The tool runs test suites between implementations under test (IUTs). The coordinator drives a
-- state machine; its callbacks work on one test suite, which owns the test configurations and the
-- test cases; a test case owns its steps, and a step its partial verdict. The packet router
-- forwards the data plane between the agents by a table made of a test configuration, and the
-- packet sniffer captures it for the analysis that goes into a test case's report. An IUT is either
-- automated, and answers the coordinator's messages by itself, or in the hands of a user, whom the
-- adaptor of the user interface asks.
--
-- The files and the code they model:
--   Verdict, Step, Testcase, TestConfig, Testsuite: the classes Verdict, Iut and Step, TestCase,
--     TestConfig and TestSuite of ioppytest/test_suite/testsuite.py. Each class is a record, each
--     method a function of the method's name.
--   Imports: the import functions of the same file, behind the YAML loader.
--   Fsm: the tables of ioppytest/test_coordinator/states_and_transitions.py. Its module Machine is
--     the run of the tables by the package `transitions`, a parameter of which a hypothesis states
--     what its documentation says of one step; Coordinator.Machine puts the callbacks into it.
--   Coordinator: the callbacks of ioppytest/test_coordinator/coordinator.py; a callback that ends by
--     firing a trigger returns it. Its modules Notify and Connector are the notifications and the
--     dispatch of ioppytest/test_coordinator/amqp_connector.py; what is published is returned.
--   AutomatedIut: the class AutomatedIUT of automation/automated_iut.py, which answers the
--     coordinator's messages; the methods of a subclass are parameters.
--   Clients: subclasses of it, the automated clients of automation/coap_client_libcoap,
--     coap_client_aiocoap, coap_client_coapthon, coap_client_californium and
--     onem2m_adn_etsi_implementation, with the tables of what they launch for a stimuli. A random
--     token, the options of the environment, what `urlparse` gives and what comes of a process are
--     parameters.
--   UiAdaptor: ioppytest/ui_adaptor, between the testing tool and its users: Translator, Pending,
--     Truncate, Reports, Displays, Notices, Packets and Vpn are message_translators.py, Routing,
--     Exchange, Startup and Loop are __main__.py, Session, Trees and part of Messages and Startup are
--     ui_tasks.py, and part of Vpn is tt_tasks.py. What the package `messages` gives a new message,
--     the tables that `tabulate` draws, and what the interface answers are parameters; so is, for
--     Exchange, the choice of a display by the class of a message, and, for Startup, what the calls
--     that wait for users and for the testing tool come to.
--   Router: ioppytest/packet_router/__main__.py.
--   Sniffer: ioppytest/packet_sniffer/__main__.py.
--   Prelude: texts, dictionaries, and calls that return or raise.
--   Examples: runs at concrete inputs.
--
-- How the code corresponds to the model. A method that mutates its object is an action: it takes
-- the object and gives what it returned or raised with the object it left. `Result` has the
-- exceptions by class, without their texts. A text is the list of its character codes, a dictionary
-- an association list in insertion order, a set of texts a list without repetition. The current
-- test case is kept by its key in the suite's dictionary, and the current step and the step
-- iterator by their positions, so that what the source reaches by two references is one object
-- here. `itertools.cycle` is a function of the saved values and of those left in the round, and its
-- loops are bounded as in the source by the number of test cases. The other fuels are that of
-- `Testsuite.Stepping.Walk.walk`, for which the number of steps is enough, and that of the decimal
-- digits of a number, for which the number itself is, and that of the wait for a second user, for
-- which two rounds more than its limit are enough. The loop of the interface's adaptor has one
-- round for each list of what arrives before it, and the wait for the testing tool its retries.
--
-- Not modelled: the connections to the message bus, the threads and the bounds of the queues, the
-- log messages, the YAML loader, the dumper process and the file system of the sniffer (parameters
-- of its handler), the files that the coordinator writes, the time-outs of the state machine, the
-- calls of other services over the bus (their answers are parameters), the displays of dissected
-- packets and of messages as plain tables, the bootstraps of the translators, which are texts and
-- confirmations, the automated servers, which only launch a process, the scripts that drive
-- sessions for continuous integration, and the web server.
pub mod Prelude
pub mod Verdict
pub mod Step
pub mod Testcase
pub mod TestConfig
pub mod Imports
pub mod Testsuite
pub mod Router
pub mod Sniffer
pub mod Fsm
pub mod Coordinator
pub mod UiAdaptor
pub mod AutomatedIut
pub mod Clients
pub mod Examples
