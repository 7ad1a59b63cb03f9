-- ===== src/Coordinator/Configure/Addresses.antt =====
-- The addresses of two IUTs, as their events bring them.
use ioppytest.Prelude.{
  ◌≡◌, refl, ap, ◌∙◌, Bool, true, false, [], ◌∷◌, ◌++◌, Option, none, some, Text, codes, ◌==◌,
  has_code, split_text-two, insert, lookup-insert, set_add, mem, if◌then◌else◌, text_eq_refl, ok,
}
use ioppytest.Testsuite.{Testsuite}
use ioppytest.Testsuite.Queries.{
  update_node_address, check_all_iut_nodes_configured, get_node_address,
}
use ioppytest.Fsm.Tables.{Trigger}
use ioppytest.Coordinator.Configure.{
  AddressEvent, Tun, both, first_of, configuration_executed, tun_started, malformed_tun_started,
  tun_address, pair_of, address_of_text, address_or_raise, store_address,
  handle_iut_configuration_executed,
}

-- A part of an address: no colon in it.
abbrev pub IsPart : Text → Type 0
IsPart p = has_code 58 p ≡ false

abbrev pub not_empty : Text → Bool
not_empty [] = false
not_empty (c ∷ s) = true

-- A pair of which a part is missing.
abbrev pub Lacks : Option Text × Option Text → Type 0
Lacks (some a, some b) = ⊥
Lacks (none, b) = Unit
Lacks (some a, none) = Unit

-- The prefix and the host that a tunnel tells: those to which packets are re-routed, or else those
-- of IPv6, or else those of IPv4.
pub data Tells (tun : Tun) (p h : Text) : Type 0 where
  re_routed : tun.re_route_packets ≡ (some p, some h) → Tells tun p h
  by_ipv6 : Lacks tun.re_route_packets → tun.ipv6 ≡ (some p, some h) → Tells tun p h
  by_ipv4 :
      Lacks tun.re_route_packets → Lacks tun.ipv6 → tun.ipv4 ≡ (some p, some h) → Tells tun p h

-- An event of a node: an address of the form `prefix::host`, or a tunnel.
abbrev pub Brings : AddressEvent → Text → Text → Text → Type 0
Brings (configuration_executed node address) n p h =
    (node ≡ some n) × (address ≡ some (p ++ (codes "::" ++ h))) × IsPart p × IsPart h
Brings (tun_started tun) n p h = (tun.name ≡ some n) × Tells tun p h
Brings malformed_tun_started n p h = ⊥

both-none : (x : Option Text × Option Text) → Lacks x → both x ≡ none
unfolding both
both-none (none, b) l = refl
both-none (some a, none) l = refl
both-none (some a, some b) l = absurd l

told : (tun : Tun) (p h : Text) → Tells tun p h → tun_address tun ≡ some (p, h)
unfolding tun_address first_of both
told tun p h (re_routed e) = rw e refl
told tun p h (by_ipv6 l e) = rw (both-none tun.re_route_packets l) (rw e refl)
told tun p h (by_ipv4 l m e) =
    rw (both-none tun.re_route_packets l) (rw (both-none tun.ipv6 m) (rw e refl))

split_address :
    (p h : Text) → IsPart p → IsPart h → address_of_text (some (p ++ (codes "::" ++ h))) ≡ ok (p, h)
unfolding address_of_text pair_of
split_address [] h a b = ap pair_of (split_text-two [] h a b)
split_address (c ∷ p) h a b = ap pair_of (split_text-two (c ∷ p) h a b)

-- The suite with the address, and the trigger when two nodes have one.
abbrev fired : Testsuite → Option Trigger
fired ts =
    if check_all_iut_nodes_configured ts then some Trigger.all_iut_configuration_executed else none

stored :
    (n : Text) (address : Text × Text) (ts : Testsuite)
    → not_empty n ≡ true
    → store_address (ok address) (some n) ts
      ≡ (ok (fired (update_node_address n address ts)), update_node_address n address ts)
unfolding store_address
stored [] address ts e = cc e
stored (c ∷ s) address ts e = refl

handled :
    (event : AddressEvent) (n p h : Text) (ts : Testsuite)
    → Brings event n p h
    → not_empty n ≡ true
    → handle_iut_configuration_executed event ts
      ≡ (ok (fired (update_node_address n (p, h) ts)), update_node_address n (p, h) ts)
unfolding handle_iut_configuration_executed address_or_raise
handled (configuration_executed node address) n p h ts (a, b, c, d) e =
    ap (λ o. store_address (address_of_text o) node ts) b
    ∙ ap (λ r. store_address r node ts) (split_address p h c d)
    ∙ ap (λ o. store_address (ok (p, h)) o ts) a
    ∙ stored n (p, h) ts e
handled (tun_started tun) n p h ts (a, b) e =
    ap (λ o. store_address (address_or_raise o) tun.name ts) (told tun p h b)
    ∙ ap (λ o. store_address (ok (p, h)) o ts) a
    ∙ stored n (p, h) ts e
handled malformed_tun_started n p h ts b e = absurd b

-- The tests of the two suites: one node is not enough, two different ones are.
first_not_enough :
    (n : Text) (address : Text × Text) (ts : Testsuite)
    → ts.nodes_configured ≡ []
    → check_all_iut_nodes_configured (update_node_address n address ts) ≡ false
unfolding check_all_iut_nodes_configured update_node_address set_add mem
first_not_enough n address ts e = rw e refl

second_enough :
    (n n' : Text) (address address' : Text × Text) (ts : Testsuite)
    → ts.nodes_configured ≡ []
    → (n' == n) ≡ false
    → check_all_iut_nodes_configured
        (update_node_address n' address' (update_node_address n address ts))
      ≡ true
unfolding check_all_iut_nodes_configured update_node_address set_add mem
second_enough n n' address address' ts e d = rw e (rw d refl)

addresses_kept :
    (n n' : Text) (address address' : Text × Text) (ts : Testsuite)
    → (n' == n) ≡ false
    → let ts' = update_node_address n' address' (update_node_address n address ts) in
      (get_node_address n ts' ≡ ok address) × (get_node_address n' ts' ≡ ok address')
unfolding get_node_address update_node_address
addresses_kept n n' address address' ts d = (
  rw
      (
        lookup-insert n' n address' (insert n address ts.addressing_table),
        d,
        lookup-insert n n address ts.addressing_table,
        text_eq_refl n,
      )
      refl,
  rw (lookup-insert n' n' address' (insert n address ts.addressing_table), text_eq_refl n') refl,
)

-- In a suite in which no node is configured, the event of a first node fires nothing; the event of
-- another node then fires the trigger that all are configured, and both addresses are the ones
-- that the events brought: as texts `prefix::host`, or by tunnels, of which the address to which
-- packets are re-routed goes before that of IPv6, and that before the one of IPv4.
pub handle_iut_configuration_executed_twice :
    (event event' : AddressEvent) (n n' p p' h h' : Text) (ts : Testsuite)
    → ts.nodes_configured ≡ []
    → Brings event n p h
    → Brings event' n' p' h'
    → not_empty n ≡ true
    → not_empty n' ≡ true
    → (n' == n) ≡ false
    → let (r, ts') = handle_iut_configuration_executed event ts in
      let (r', ts'') = handle_iut_configuration_executed event' ts' in
      (r ≡ ok none)
      × (r' ≡ ok (some Trigger.all_iut_configuration_executed))
      × (get_node_address n ts'' ≡ ok (p, h))
      × (get_node_address n' ts'' ≡ ok (p', h'))
handle_iut_configuration_executed_twice event event' n n' p p' h h' ts e b b' m m' d =
    let first = handled event n p h ts b m in
    let second = handled event' n' p' h' (update_node_address n (p, h) ts) b' m' in
    let (k, k') = addresses_kept n n' (p, h) (p', h') ts d in
    rw first (
      rw second (
        rw (first_not_enough n (p, h) ts e) refl,
        rw (second_enough n n' (p, h) (p', h') ts e d) refl,
        k,
        k',
      ))
