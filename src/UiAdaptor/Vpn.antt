-- ===== src/UiAdaptor/Vpn.antt =====
-- The VPN of the agents in ioppytest/ui_adaptor: `WoTSessionMessageTranslator` and the functions
-- `send_vpn_join_help_to_user` and `_get_vpn_table_representation` of message_translators.py, and
-- tt_tasks.py. A host or prefix is its text, a time its number of seconds; the tables that
-- `tabulate` draws and the time as a text are parameters.
pub mod Offered
pub mod Counted
use Prim.Native.Nat.{◌%◌}
use ioppytest.Prelude.Calls
use ioppytest.Prelude.Calls.{◌>>=◌, ◌>>◌}
use ioppytest.Prelude.{
  ℕ, zero, suc, ◌+◌, ◌-◌, Bool, true, false, leb, ltb, List, [], ◌∷◌, ◌++◌, map, Option, none, some,
  Text, codes, split, replace, decimal, Dict, lookup, insert, if◌then◌else◌, Result, ok, raised,
  index_error, session_error, synch_call_timeout,
}

-- The value of `vpn_agents`: the last connection is `None` before the first.
pub record Agent : Type 0 where
  pub ipv6_prefix : Text
  pub ipv6_host : Text
  pub last_connection : Option ℕ

pub record Vpn : Type 0 where
  pub vpn_agents : Dict Agent
  pub counters_packet_from_agents : Dict ℕ
  pub stats_update_datetime : ℕ

-- The default addressing: node, prefix and host.
unfoldable pub default_agents : List (Text × Text × Text) → Dict Agent → Dict Agent
default_agents [] agents = agents
default_agents ((node, prefix, host) ∷ rest) agents =
    default_agents rest (
      insert node (record { ipv6_prefix = prefix; ipv6_host = host; last_connection = none })
        agents)

-- `__init__`
unfoldable pub init : List (Text × Text × Text) → (now : ℕ) → Vpn
init node_addresses now = record {
  vpn_agents = default_agents node_addresses [];
  counters_packet_from_agents = [];
  stats_update_datetime = now;
}

abbrev pub Row : Type 0
Row = Text × Text × Text

-- The text of a time.
abbrev pub Clock : Type 0
Clock = ℕ → Text

last_shown : Clock → Option ℕ → Text
last_shown clock none = codes "n/a (still not used)"
last_shown clock (some t) = clock t

abbrev pub address : Agent → Text
address a = a.ipv6_prefix ++ (codes "::" ++ a.ipv6_host)

unfoldable pub get_vpn_table_representation : Clock → Dict Agent → List Row
unfolding last_shown
get_vpn_table_representation clock agents =
    (codes "agent_name", codes "agent_ipv6", codes "last_connection")
    ∷ map (λ e. (e.0, address e.1, last_shown clock e.1.last_connection)) agents

-- `help_agent_run_for_raw_ip_single_entry.format(...)`
unfoldable pub run_command : Text → Agent → Text
run_command name agent =
    codes "sudo -E python2.7 -m agent connect --url $AMQP_URL --name "
    ++ (name
        ++ (codes " --force-bootstrap --ipv6-host "
            ++ (agent.ipv6_host ++ (codes " --ipv6-prefix " ++ agent.ipv6_prefix))))

abbrev pub all_used : Text
all_used = codes "(!) Amount of devices in VPN has reached it's maximum"

unused_or : Option ℕ → Text → Text → Text
unused_or none command later = command
unused_or (some t) command later = later

-- The loop over the agents: the command of the first that was never connected.
unfoldable pub cmd_agent_example : Dict Agent → Text
unfolding unused_or
cmd_agent_example [] = all_used
cmd_agent_example ((name, agent) ∷ rest) =
    unused_or agent.last_connection (run_command name agent) (cmd_agent_example rest)

-- The paragraphs of `send_vpn_join_help_to_user`.
unfoldable pub vpn_join_help :
    (env_vars_export : Text) → (List Row → Text) → Clock → Dict Agent → List Text
unfolding cmd_agent_example
vpn_join_help env_vars_export tabulate clock agents =
    env_vars_export
    ∷ codes "### Run agent\n"
    ∷ codes "Please run agent with (use one of the none used entries from table), e.g.:\n"
    ∷ (codes "`" ++ (cmd_agent_example agents ++ codes "`"))
    ∷ tabulate (get_vpn_table_representation clock agents)
    ∷ []

-- The agent's message; an attribute that is `None` or empty is false.
pub record TunStarted : Type 0 where
  pub name : Option Text
  pub prefix : Option Text
  pub host : Option Text

abbrev pub present : Option Text → Option Text
present (some (c ∷ s)) = some (c ∷ s)
present _ = none

-- The three attributes, if all are true.
abbrev pub attributes : Option Text → Option Text → Option Text → Option (Text × Text × Text)
attributes (some name) (some prefix) (some host) = some (name, prefix, host)
attributes _ _ _ = none

connect : Option (Text × Text × Text) → (now : ℕ) → Vpn → Vpn
connect none now vpn = vpn
connect (some (name, prefix, host)) now vpn = record vpn {
  vpn_agents =
      insert name (record { ipv6_prefix = prefix; ipv6_host = host; last_connection = some now })
        vpn.vpn_agents;
}

connected_fields : (List Row → Text) → Clock → Option (Text × Text × Text) → Dict Agent → List Text
connected_fields tabulate clock none agents = []
connected_fields tabulate clock (some (name, prefix, host)) agents =
    (name ++ (codes " TUN started, IPv6 interface " ++ (prefix ++ (codes "::" ++ host))))
    ∷ (codes "Agents in VPN:\n" ++ tabulate (get_vpn_table_representation clock agents))
    ∷ []

-- `_handle_new_agent_in_vpn`: the paragraphs that it gives.
unfoldable pub handle_new_agent_in_vpn :
    (List Row → Text) → Clock → TunStarted → (now : ℕ) → Vpn → List Text × Vpn
unfolding connect connected_fields
handle_new_agent_in_vpn tabulate clock m now vpn =
    let a = attributes (present m.name) (present m.prefix) (present m.host) in
    let vpn' = connect a now vpn in (connected_fields tabulate clock a vpn'.vpn_agents, vpn')

-- `message.routing_key.split('.')[1]`
second_term : List Text → Result Text
second_term (a ∷ b ∷ rest) = ok b
second_term _ = raised index_error

unfoldable pub sender : Text → Result Text
unfolding second_term
sender routing_key = second_term (split b'.' routing_key)

abbrev pub or_zero : Option ℕ → ℕ
or_zero none = 0
or_zero (some n) = n

unfoldable pub count_packet : Text → Dict ℕ → Dict ℕ
count_packet agent counters = insert agent (or_zero (lookup agent counters) + 1) counters

-- `(now - last).seconds`: what is left of the days, from midnight to midnight if the clock went back.
unfoldable pub seconds_since : (last now : ℕ) → ℕ
seconds_since last now =
    if leb last now then (now - last) % 86400 else (86400 - (last - now) % 86400) % 86400

abbrev pub period_for_stats_updates : ℕ
period_for_stats_updates = 5

packet_row : Text × ℕ → Text × Text
packet_row (agent, n) = (agent, decimal n)

stats : (List (Text × Text) → Text) → Dict ℕ → Text
unfolding packet_row
stats tabulate counters =
    codes "IPv6 packets stats:\n"
    ++ tabulate ((codes "source", codes "number of packets sent") ∷ map packet_row counters)

counted : (List (Text × Text) → Text) → (now : ℕ) → Result Text → Vpn → Result (Option Text) × Vpn
unfolding stats count_packet
counted tabulate now (raised e) vpn = (raised e, vpn)
counted tabulate now (ok agent) vpn =
    let counters = count_packet agent vpn.counters_packet_from_agents in
    let vpn' : Vpn = record vpn { counters_packet_from_agents = counters } in
    if ltb period_for_stats_updates (seconds_since vpn.stats_update_datetime now)
    then (ok (some (stats tabulate counters)), record vpn' { stats_update_datetime = now })
    else (ok none, vpn')

-- `_handle_new_packet_from_agent`: the paragraph that it gives, if it is time for one.
unfoldable pub handle_new_packet_from_agent :
    (List (Text × Text) → Text)
    → (now : ℕ) → (routing_key : Text) → Vpn
    → Result (Option Text) × Vpn
unfolding counted
handle_new_packet_from_agent tabulate now routing_key vpn =
    counted tabulate now (sender routing_key) vpn

-- The message of `bootstrap_all_tun_interfaces` for an agent.
pub record TunStart : Type 0 where
  pub name : Text
  pub prefix : Text
  pub host : Text
  pub routing_key : Text

unfoldable pub bootstrap_all_tun_interfaces : (routing_key : Text) → Dict Agent → List TunStart
bootstrap_all_tun_interfaces routing_key agents =
    map
      (λ e. record {
        name = e.0;
        prefix = e.1.ipv6_prefix;
        host = e.1.ipv6_host;
        routing_key = replace (codes "*") e.0 routing_key;
      })
      agents

-- `wait_for_testing_tool_ready`: `timely k` tells whether the request is answered when `k` retries
-- are left.
unfoldable pub wait_for_testing_tool_ready : ℕ → (ℕ → Bool) → Result (Unit {0})
wait_for_testing_tool_ready zero timely = raised session_error
wait_for_testing_tool_ready (suc retries_left) timely =
    let later = wait_for_testing_tool_ready retries_left timely in
    if timely (suc retries_left) then ok tt else later
