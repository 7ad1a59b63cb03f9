-- ===== src/Router/Entries.antt =====
-- Which keys a generated routing table has.
use ioppytest.Prelude.{
  ◌≡◌, refl, inl, inr, true, Bool-cases, List, [], ◌∷◌, ◌++◌, Text, ◌==◌, text_eq_refl, All, Dict,
  lookup-insert, insert, update, contains, arith,
}
use ioppytest.TestConfig.{Link}
use ioppytest.Router.Table.{
  serial_v0, serial_v1, tun, agent_tt, entry_from, destinations, add_node, add_nodes, add_link,
  add_links,
}

-- The nodes of a link, with the agent of the testing tool.
abbrev pub ends : Link → List Text
ends link = link.nodes ++ (agent_tt ∷ [])

-- A node has an entry of each kind.
abbrev pub HasEntries : Dict (List Text) → Text → Type 0
HasEntries table i =
    (contains (entry_from serial_v0 i) table ≡ true)
    × (contains (entry_from serial_v1 i) table ≡ true)
    × (contains (entry_from tun i) table ≡ true)

-- What has an entry keeps one.
module _ (k : Text) where
  contains-insert :
      (j : Text) (v : List Text) (d : Dict (List Text))
      → contains k d ≡ true
      → contains k (insert j v d) ≡ true
  unfolding contains
  contains-insert j v d h = ground (arith, lookup-insert j k v d)

  contains-update : (d e : Dict (List Text)) → contains k d ≡ true → contains k (update d e) ≡ true
  unfolding update
  contains-update d [] h = h
  contains-update d ((j, v) ∷ e) h = contains-update (insert j v d) e (contains-insert j v d h)

  contains-add_nodes :
      (nodes left : List Text) (r t : Dict (List Text))
      → contains k t ≡ true
      → contains k (add_nodes nodes left r t) ≡ true
  unfolding add_nodes
  contains-add_nodes nodes [] r t h = h
  contains-add_nodes nodes (i ∷ left) r t h =
      contains-add_nodes nodes left (add_node nodes i r) (update t (add_node nodes i r))
        (contains-update t (add_node nodes i r) h)

  contains-add_links :
      (links : List Link) (t : Dict (List Text))
      → contains k t ≡ true
      → contains k (add_links links t) ≡ true
  unfolding add_links add_link
  contains-add_links [] t h = h
  contains-add_links (link ∷ rest) t h =
      contains-add_links rest (add_link link t) (contains-add_nodes (ends link) (ends link) [] t h)

-- The keys of a dictionary are those of what it updates.
contains-updated :
    (k : Text) (d e : Dict (List Text)) → contains k e ≡ true → contains k (update d e) ≡ true
unfolding update contains
contains-updated k d [] h = cc
contains-updated k d ((j, v) ∷ e) h = elim (Bool-cases (j == k)) [
  | inl b ↦ contains-update k (insert j v d) e (rw (lookup-insert j k v d, b) refl)
  | inr b ↦ contains-updated k (insert j v d) e (rw b at h)
]

inserted_lem : (k : Text) (v : List Text) (d : Dict (List Text)) → contains k (insert k v d) ≡ true
unfolding contains
inserted_lem k v d = rw (lookup-insert k k v d, text_eq_refl k) refl

node-HasEntries :
    (nodes : List Text) (i : Text) (r : Dict (List Text)) → HasEntries (add_node nodes i r) i
unfolding add_node
node-HasEntries nodes i r =
    let r1 = insert (entry_from serial_v0 i) (destinations serial_v0 i nodes) r in
    let r2 = insert (entry_from serial_v1 i) (destinations serial_v1 i nodes) r1 in
    let v1 = destinations serial_v1 i nodes in
    let v2 = destinations tun i nodes in
    (
      contains-insert (entry_from serial_v0 i) (entry_from tun i) v2 r2 (
          contains-insert (entry_from serial_v0 i) (entry_from serial_v1 i) v1 r1
            (inserted_lem (entry_from serial_v0 i) (destinations serial_v0 i nodes) r)),
      contains-insert (entry_from serial_v1 i) (entry_from tun i) v2 r2
          (inserted_lem (entry_from serial_v1 i) v1 r1),
      inserted_lem (entry_from tun i) v2 r2,
    )

updated-HasEntries :
    (t r : Dict (List Text)) (i : Text) → HasEntries r i → HasEntries (update t r) i
updated-HasEntries t r i (a, b, c) = (
  contains-updated (entry_from serial_v0 i) t r a,
  contains-updated (entry_from serial_v1 i) t r b,
  contains-updated (entry_from tun i) t r c,
)

nodes-HasEntries :
    (nodes left : List Text) (r t : Dict (List Text))
    → All (HasEntries (add_nodes nodes left r t)) left
unfolding add_nodes
nodes-HasEntries nodes [] r t = tt
nodes-HasEntries nodes (i ∷ left) r t =
    let r' = add_node nodes i r in
    let (a, b, c) = updated-HasEntries t r' i (node-HasEntries nodes i r) in
    (
      (
        contains-add_nodes (entry_from serial_v0 i) nodes left r' (update t r') a,
        contains-add_nodes (entry_from serial_v1 i) nodes left r' (update t r') b,
        contains-add_nodes (entry_from tun i) nodes left r' (update t r') c,
      ),
      nodes-HasEntries nodes left r' (update t r'),
    )

kept-HasEntries :
    (links : List Link) (t : Dict (List Text)) (left : List Text)
    → All (HasEntries t) left
    → All (HasEntries (add_links links t)) left
kept-HasEntries links t [] h = tt
kept-HasEntries links t (i ∷ left) ((a, b, c), h) = (
  (
    contains-add_links (entry_from serial_v0 i) links t a,
    contains-add_links (entry_from serial_v1 i) links t b,
    contains-add_links (entry_from tun i) links t c,
  ),
  kept-HasEntries links t left h,
)

-- Every end of every link has its entries.
pub links-HasEntries :
    (links : List Link) (t : Dict (List Text))
    → All (λ link. All (HasEntries (add_links links t)) (ends link)) links
unfolding add_links add_link
links-HasEntries [] t = tt
links-HasEntries (link ∷ rest) t = (
  kept-HasEntries rest (add_link link t) (ends link)
      (nodes-HasEntries (ends link) (ends link) [] t),
  links-HasEntries rest (add_link link t),
)
