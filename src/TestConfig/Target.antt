-- ===== src/TestConfig/Target.antt =====
-- The target of a link's node.
use ioppytest.Prelude.{
  ◌≡◌, refl, ◌≢◌, true, false, List, [], ◌∷◌, none, some, Text, text_eq_iff, text_eq_refl, arith,
  mem, map, ℕ, if◌then◌else◌, Bool-cases, inl, inr, assertion_error, ok, raised, type_error,
}
use ioppytest.TestConfig.{
  Link, TestConfig, find_nodes, get_nodes_on_link, other_node, get_target_node,
}

-- In a configuration whose first link joins two different nodes, each is the target of the other,
-- and any other node is refused.
pub get_target_node_pair :
    (c : TestConfig) (l : Link) (rest : List Link) (a b : Text)
    → c.topology ≡ l ∷ rest
    → l.nodes ≡ a ∷ b ∷ []
    → a ≢ b
    → (get_target_node a none c ≡ ok b) × (get_target_node b none c ≡ ok a)
unfolding get_target_node get_nodes_on_link other_node mem
get_target_node_pair c l rest a b e f h = rw e (
    rw f (
      ground (arith, text_eq_iff a b, text_eq_iff b a, text_eq_refl a, text_eq_refl b),
      ground (arith, text_eq_iff a b, text_eq_iff b a, text_eq_refl a, text_eq_refl b),
    ))

abbrev pub link_ids : List Link → List Text
link_ids = map (λ l. l.link_id)

find_nodes_present :
    (link : Text) (links : List Link)
    → mem link (link_ids links) ≡ true
    → find_nodes link links ≡ raised type_error
unfolding find_nodes mem
find_nodes_present link [] h = cc h
find_nodes_present link (x ∷ rest) h =
    ground
      (arith, text_eq_iff link x.link_id, text_eq_iff x.link_id link, find_nodes_present link rest)

find_nodes_absent :
    (link : Text) (links : List Link)
    → mem link (link_ids links) ≡ false
    → find_nodes link links ≡ ok []
unfolding find_nodes mem
find_nodes_absent link [] h = refl
find_nodes_absent link (x ∷ rest) h =
    ground
      (arith, text_eq_iff link x.link_id, text_eq_iff x.link_id link, find_nodes_absent link rest)

-- Asking for a link by name always raises: `TypeError` if the configuration has the link, else
-- `AssertionError`.
pub get_target_node_named :
    (c : TestConfig) (node : Text) (first : ℕ) (name : Text)
    → let link = first ∷ name in
      get_target_node node (some link) c
      ≡ (if mem link (link_ids c.topology) then raised type_error else raised assertion_error)
unfolding get_target_node get_nodes_on_link other_node
get_target_node_named c node first name =
    elim (Bool-cases (mem (first ∷ name) (link_ids c.topology))) [
      | inl h ↦ rw (h, find_nodes_present (first ∷ name) c.topology h) refl
      | inr h ↦ rw (h, find_nodes_absent (first ∷ name) c.topology h) (unfold mem in refl)
    ]
