-- ===== src/Router/Routes.antt =====
-- What a generated routing table routes.
use ioppytest.Prelude.{
  ℕ, suc, ◌≡◌, refl, sym, subst, inl, inr, true, Bool-cases, List, [], ◌∷◌, some, Text, ◌==◌,
  text_eq_iff, text_eq_refl, All, Dict, insert, update, get_elem?, ok, length, leb, arith, mem, map,
  not, filter_by, ◌∙◌, ◌&&◌,
}
use ioppytest.TestConfig.{TestConfig, Link}
use ioppytest.Router.Entries.{ends, HasEntries, links-HasEntries}
use ioppytest.Router.Table.{
  Interface, serial_v0, serial_v1, tun, entry_from, entry_to, destinations, add_node, add_nodes,
  add_link, add_links, generate_routing_table,
}

-- The others among some nodes: each of them but the one, and nothing else.
abbrev pub Others : Text → List Text → List Text → Type 0
Others i nodes js = All (λ j. mem j js ≡ not (j == i)) nodes × All (λ j. mem j nodes ≡ true) js

-- An entry for the packets of an end of a link, by one of the three kinds of keys, to all the other
-- ends of the link by keys of the same kind.
abbrev pub IsRoute : List Link → Text × List Text → Type 0
IsRoute topology entry =
    (n : ℕ) × (link : Link) × (f : Interface) × (i : Text) × (js : List Text) × (get_elem? topology
        n
      ≡ some link)
    × (mem i (ends link) ≡ true)
    × (entry ≡ (entry_from f i, map (entry_to f) js))
    × Others i (ends link) js

-- A property of the entries of a dictionary, through its operations.
module _ (P : Text × List Text → Type 0) where
  insert-All :
      (k : Text) (v : List Text) (d : Dict (List Text)) → P (k, v) → All P d → All P (insert k v d)
  unfolding insert
  insert-All k v [] p h = (p, tt)
  insert-All k v ((j, w) ∷ d) p (q, h) = elim (Bool-cases (j == k)) [
    | inl e ↦ rw e (subst (λ x. P (x, v)) (sym ((text_eq_iff j k).0 e)) p, h)
    | inr n ↦ rw n (q, insert-All k v d p h)
  ]

  update-All : (d e : Dict (List Text)) → All P d → All P e → All P (update d e)
  unfolding update
  update-All d [] h k = h
  update-All d ((j, v) ∷ e) h (p, k) = update-All (insert j v d) e (insert-All j v d p h) k

  module _ (nodes : List Text)
      (routed : (f : Interface) (i : Text)
        → mem i nodes ≡ true
        → P (entry_from f i, destinations f i nodes)) where
    add_node-All :
        (i : Text) (r : Dict (List Text))
        → mem i nodes ≡ true
        → All P r
        → All P (add_node nodes i r)
    unfolding add_node
    add_node-All i r m h =
        insert-All (entry_from tun i) (destinations tun i nodes) _ (routed tun i m) (
          insert-All (entry_from serial_v1 i) (destinations serial_v1 i nodes) _
            (routed serial_v1 i m)
            (insert-All (entry_from serial_v0 i) (destinations serial_v0 i nodes) r
              (routed serial_v0 i m) h))

    add_nodes-All :
        (left : List Text) (r t : Dict (List Text))
        → All (λ i. mem i nodes ≡ true) left
        → All P r
        → All P t
        → All P (add_nodes nodes left r t)
    unfolding add_nodes
    add_nodes-All [] r t m h k = k
    add_nodes-All (i ∷ left) r t (m, ms) h k =
        let h' = add_node-All i r m h in
        add_nodes-All left (add_node nodes i r) (update t (add_node nodes i r)) ms h'
          (update-All t (add_node nodes i r) k h')

mem-later :
    (x : Text) (xs left : List Text)
    → All (λ i. mem i xs ≡ true) left
    → All (λ i. mem i (x ∷ xs) ≡ true) left
unfolding mem
mem-later x xs [] h = tt
mem-later x xs (y ∷ left) (e, h) = (ground (arith), mem-later x xs left h)

All-mem : (xs : List Text) → All (λ i. mem i xs ≡ true) xs
unfolding mem
All-mem [] = tt
All-mem (x ∷ xs) = (rw (text_eq_refl x) refl, mem-later x xs xs (All-mem xs))

-- What a filter by a text keeps.
mem-filter_by :
    (i j : Text) (xs : List Text)
    → mem j (filter_by (λ k. not (k == i)) xs) ≡ (mem j xs && not (j == i))
unfolding mem
mem-filter_by i j [] = refl
mem-filter_by i j (x ∷ xs) = ground (arith, text_eq_iff j x, mem-filter_by i j xs)

others_of :
    (i : Text) (nodes left : List Text)
    → All (λ j. mem j nodes ≡ true) left
    → All (λ j. mem j (filter_by (λ k. not (k == i)) nodes) ≡ not (j == i)) left
others_of i nodes [] h = tt
others_of i nodes (j ∷ left) (e, h) =
    (mem-filter_by i j nodes ∙ rw e refl, others_of i nodes left h)

kept_of :
    (i : Text) (nodes left : List Text)
    → All (λ j. mem j nodes ≡ true) left
    → All (λ j. mem j nodes ≡ true) (filter_by (λ k. not (k == i)) left)
kept_of i nodes [] h = tt
kept_of i nodes (j ∷ left) (e, h) = elim (Bool-cases (j == i)) [
  | inl b ↦ rw b (kept_of i nodes left h)
  | inr b ↦ rw b (e, kept_of i nodes left h)
]

filtered-Others :
    (i : Text) (nodes : List Text) → Others i nodes (filter_by (λ k. not (k == i)) nodes)
filtered-Others i nodes =
    (others_of i nodes nodes (All-mem nodes), kept_of i nodes nodes (All-mem nodes))

add_link-All :
    (P : Text × List Text → Type 0) (link : Link) (t : Dict (List Text))
    → ((f : Interface) (i : Text)
        → mem i (ends link) ≡ true
        → P (entry_from f i, destinations f i (ends link)))
    → All P t
    → All P (add_link link t)
unfolding add_link
add_link-All P link t h k =
    add_nodes-All P (ends link) h (ends link) [] t (All-mem (ends link)) tt k

add_links-All :
    (P : Text × List Text → Type 0) (links : List Link) (t : Dict (List Text))
    → ((n : ℕ) (link : Link)
        → get_elem? links n ≡ some link
        → (f : Interface) (i : Text) → mem i (ends link) ≡ true
        → P (entry_from f i, destinations f i (ends link)))
    → All P t
    → All P (add_links links t)
unfolding add_links
add_links-All P [] t h k = k
add_links-All P (link ∷ rest) t h k =
    add_links-All P rest (add_link link t) (λ n l e. h (suc n) l e)
      (add_link-All P link t (h 0 link refl) k)

two_at_least : (c : TestConfig) → leb 2 (length c.nodes) ≡ true → leb 1 (length c.nodes) ≡ true
two_at_least c h = ground arith

-- For a configuration of at least two nodes a routing table is generated. By every entry of it the
-- packets of an end of a link of the configuration, a node of it or the agent of the testing tool,
-- go to all the other ends of that link and to nothing else, by keys of the same kind. Every end
-- of every link has an entry of each of the three kinds.
pub generate_routing_table-IsRoute :
    (c : TestConfig)
    → leb 2 (length c.nodes) ≡ true
    → (table : Dict (List Text)) × (generate_routing_table c ≡ ok table)
      × All (IsRoute c.topology) table
      × All (λ link. All (HasEntries table) (ends link)) c.topology
unfolding generate_routing_table destinations
generate_routing_table-IsRoute c h = (
  add_links c.topology [],
  rw (two_at_least c h, h) refl,
  add_links-All (IsRoute c.topology) c.topology []
      (λ n link at f i m. (
        n,
        link,
        f,
        i,
        filter_by (λ j. not (j == i)) (ends link),
        at,
        m,
        refl,
        filtered-Others i (ends link),
      ))
      tt,
  links-HasEntries c.topology [],
)
