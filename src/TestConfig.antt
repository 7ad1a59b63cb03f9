-- ===== src/TestConfig.antt =====
-- `class TestConfig` of ioppytest/test_suite/testsuite.py: the nodes of a test configuration, the
-- links between them, and their default addresses.
pub mod Target
use ioppytest.Prelude.Calls.{◌>>=◌, ◌>>◌, assert}
use ioppytest.Prelude.{
  ℕ, Bool, true, false, List, [], ◌∷◌, Option, none, some, Text, ◌==◌, mem, length, nat_eq,
  if◌then◌else◌, Result, ok, raised, type_error, index_error,
}

-- An item of `topology`. `special_mode` is a key that most links lack.
pub record Link : Type 0 where
  pub link_id : Text
  pub nodes : List Text
  pub capture_filter : Text
  pub special_mode : Option Text

-- An item of `addressing`.
pub record Addressing : Type 0 where
  pub node : Text
  pub ipv6_prefix : Text
  pub ipv6_host : Text

-- An item of `description`.
pub record NodeDescription : Type 0 where
  pub node : Text
  pub message : List Text

pub record TestConfig : Type 0 where
  pub id : Text
  pub uri : Text
  pub nodes : List Text
  pub nodes_description : List NodeDescription
  pub default_addressing : List Addressing
  pub configuration_diagram : Text
  pub topology : List Link

-- `__init__`
unfoldable pub init :
    (configuration_id uri : Text) (nodes : List Text) (topology : List Link)
    (addressing : List Addressing) (description : List NodeDescription)
    (configuration_diagram : Text)
    → TestConfig
init configuration_id uri nodes topology addressing description configuration_diagram = record {
  id = configuration_id;
  uri = uri;
  nodes = nodes;
  nodes_description = description;
  default_addressing = addressing;
  configuration_diagram = configuration_diagram;
  topology = topology;
}

unfoldable pub get_default_addressing_table : TestConfig → List Addressing
get_default_addressing_table c = c.default_addressing

-- The loop over the links for a named link. On the link it subscripts the link's name,
-- `link_item['link_id']['nodes']`, and a text takes no such subscript.
unfoldable pub find_nodes : Text → List Link → Result (List Text)
find_nodes link [] = ok []
find_nodes link (l ∷ rest) =
    let later = find_nodes link rest in if l.link_id == link then raised type_error else later

first_link : List Link → Result (List Text)
first_link [] = raised index_error
first_link (l ∷ _) = ok l.nodes

-- `if link`: an empty name is none.
nodes_on : Option Text → List Link → Result (List Text)
unfolding first_link find_nodes
nodes_on (some (c ∷ s)) topology = find_nodes (c ∷ s) topology
nodes_on _ topology = first_link topology

unfoldable pub get_nodes_on_link : Option Text → TestConfig → Result (List Text)
unfolding nodes_on
get_nodes_on_link link c = nodes_on link c.topology

-- `list.remove`, of an element that is there
unfoldable pub remove_first : Text → List Text → List Text
remove_first x [] = []
remove_first x (y ∷ ys) = if y == x then ys else y ∷ remove_first x ys

-- `list.pop()`
unfoldable pub pop_last : List Text → Result Text
pop_last [] = raised index_error
pop_last (x ∷ []) = ok x
pop_last (x ∷ y ∷ rest) = pop_last (y ∷ rest)

-- The choice of the other node among those of the link.
unfoldable pub other_node : Text → List Text → Result Text
unfolding remove_first pop_last
other_node origin_node nodes_on_link = do
  assert (mem origin_node nodes_on_link)
  assert (nat_eq (length nodes_on_link) 2)
  pop_last (remove_first origin_node nodes_on_link)

unfoldable pub get_target_node : Text → Option Text → TestConfig → Result Text
get_target_node origin_node link c = do
  nodes_on_link ← get_nodes_on_link link c
  other_node origin_node nodes_on_link
