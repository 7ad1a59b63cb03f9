-- ===== src/Examples/Machines.antt =====
-- Runs of the packet router, of the sniffer, and of the coordinator's state machine.

use ioppytest.Router.Table.{generate_routing_table}
use ioppytest.Router.Entries.{ends, HasEntries}
use ioppytest.Router.Routes.{IsRoute, generate_routing_table-IsRoute}
use ioppytest.Examples.{config, link}
use ioppytest.Prelude.{
  ◌≡◌, List, Dict, All, ok, refl, true, false, [], ◌∷◌, none, some, Text, codes, map,
}
use ioppytest.Router.{Router, serve}
use ioppytest.Router.Lossy.{Packet, Serves, sniffed, serve-Serves}
use ioppytest.Sniffer.{Sniffer, World, File, Life, Request, Handled, on_request}
use ioppytest.Fsm.Tables.{State, Trigger}
use ioppytest.Fsm.Edges.{next_states}
use ioppytest.Fsm.Graph.{Fires, Leads, Reachable, start, fires, Reachable-Leads}

packet : Text → Packet
packet name =
    (codes "fromAgent.a.ip.tun.packet.raw", some name, some (codes "1"), some (codes "tun0"))

-- One packet is pending to be dropped, and the key has two destinations.
abbrev lossy : Router
lossy = record {
  routing_table = (codes "fromAgent.a.ip.tun.packet.raw", codes "b" ∷ codes "agent_TT" ∷ []) ∷ [];
  message_count = 0;
  pending_number_of_packets_to_drop = 1;
  published = [];
}

serve-Serves_example :
    Serves
      (packet (codes "p1") ∷ packet (codes "p2") ∷ [])
      lossy
      (serve (map sniffed (packet (codes "p1") ∷ packet (codes "p2") ∷ [])) lossy)
serve-Serves_example = serve-Serves (packet (codes "p1") ∷ packet (codes "p2") ∷ []) lossy

-- Every file has content, starts succeed, and the process has finished.
abbrev world : World
world = record { file_of = λ name. File.content name; start_raises = false; life = Life.finished }

abbrev free : Sniffer
free = record { is_dumper_set = false; last_capture_name = none }

abbrev busy : Sniffer
busy = record { is_dumper_set = true; last_capture_name = some (codes "old") }

abbrev started : Handled
started = on_request (Request.start (some (codes "new"))) world free

abbrev stopped : Handled
stopped = on_request Request.stop world started.sniffer

abbrev refused : Handled
refused = on_request (Request.start (some (codes "new"))) world busy

abbrev stopped_late : Handled
stopped_late = on_request Request.stop world refused.sniffer

bootstrapping_Reachable : Reachable State.bootstrapping
unfolding next_states
bootstrapping_Reachable = fires false Trigger.bootstrap start refl

Reachable-Leads_example : Leads State.bootstrapping State.testsuite_finished
Reachable-Leads_example = Reachable-Leads State.bootstrapping bootstrapping_Reachable

finished_loop :
    Fires false Trigger.iut_configuration_executed State.testsuite_finished State.testsuite_finished
unfolding next_states
finished_loop = refl

routing_table_example :
    (table : Dict (List Text)) × (generate_routing_table config ≡ ok table)
    × All (IsRoute (link ∷ [])) table
    × All (λ link. All (HasEntries table) (ends link)) (link ∷ [])
routing_table_example = generate_routing_table-IsRoute config refl
