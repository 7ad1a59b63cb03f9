-- ===== src/Router/Table.antt =====
-- `generate_routing_table_from_test_configuration`: for every link, each node's packets go to the
-- other nodes of the link and to the agent of the testing tool.
use ioppytest.Prelude.Calls.{◌>>◌, assert}
use ioppytest.Prelude.{
  List, [], ◌∷◌, ◌++◌, map, not, Text, codes, ◌==◌, Dict, insert, update, length, leb, filter_by,
  Result, ok,
}
use ioppytest.TestConfig.{TestConfig, Link}

abbrev pub agent_tt : Text
agent_tt = codes "agent_TT"

-- The three kinds of routing keys: `format(node=...)` of the three pairs of patterns.
pub data Interface : Type 0 where
  serial_v0 serial_v1 tun : Interface

unfoldable pub entry_from : Interface → Text → Text
entry_from serial_v0 node = codes "data.serial.fromAgent." ++ node
entry_from serial_v1 node = codes "fromAgent." ++ (node ++ codes ".802154.serial.packet.raw")
entry_from tun node = codes "fromAgent." ++ (node ++ codes ".ip.tun.packet.raw")

unfoldable pub entry_to : Interface → Text → Text
entry_to serial_v0 node = codes "data.serial.toAgent." ++ node
entry_to serial_v1 node = codes "toAgent." ++ (node ++ codes ".802154.serial.packet.raw")
entry_to tun node = codes "toAgent." ++ (node ++ codes ".ip.tun.packet.raw")

-- `[to.format(node=j) for j in nodes if j != i]`
unfoldable pub destinations : Interface → Text → List Text → List Text
destinations interface i nodes = map (entry_to interface) (filter_by (λ j. not (j == i)) nodes)

-- One round of the loop over the nodes.
unfoldable pub add_node : List Text → Text → Dict (List Text) → Dict (List Text)
add_node nodes i link_routes = insert (entry_from tun i) (destinations tun i nodes) (
    insert (entry_from serial_v1 i) (destinations serial_v1 i nodes)
      (insert (entry_from serial_v0 i) (destinations serial_v0 i nodes) link_routes))

-- The loop over the nodes of a link, with the `update` of the whole table in each round.
unfoldable pub add_nodes :
    (nodes left : List Text) (link_routes routing_table : Dict (List Text)) → Dict (List Text)
add_nodes nodes [] link_routes routing_table = routing_table
add_nodes nodes (i ∷ left) link_routes routing_table =
    let routes = add_node nodes i link_routes in
    add_nodes nodes left routes (update routing_table routes)

unfoldable pub add_link : Link → Dict (List Text) → Dict (List Text)
add_link link routing_table =
    let nodes = link.nodes ++ (agent_tt ∷ []) in add_nodes nodes nodes [] routing_table

unfoldable pub add_links : List Link → Dict (List Text) → Dict (List Text)
add_links [] routing_table = routing_table
add_links (link ∷ rest) routing_table = add_links rest (add_link link routing_table)

unfoldable pub generate_routing_table : TestConfig → Result (Dict (List Text))
generate_routing_table testconfig = do
  assert (leb 1 (length testconfig.nodes))
  assert (leb 2 (length testconfig.nodes))
  ok (add_links testconfig.topology [])
