-- ===== src/Coordinator/Steps/Started.antt =====
-- What the start of a test case does to the suite, asks of the sniffer, and does to the router.
use ioppytest.Prelude.{
  ℕ, ◌≡◌, refl, ap, ◌∙◌, Bool, true, false, List, [], ◌∷◌, ◌++◌, map, Option, none, some, Text,
  codes, ◌==◌, ◌||◌, lookup, ok, arith,
}
use ioppytest.Testcase
use ioppytest.Testcase.{Testcase, TcState}
use ioppytest.TestConfig.{TestConfig, Link}
use ioppytest.Testsuite.{Testsuite, put}
use ioppytest.Testsuite.Selection.{get_current_testcase_id}
use ioppytest.Testsuite.Views.{get_current_testcase_state}
use ioppytest.Router.{Router, Message, serve, on_request}
use ioppytest.Coordinator.Current.{put_current, current_at, configured_at, state_set_at}
use ioppytest.Coordinator.Steps.{
  Call, special_calls, start_links, may_start, start_topology, handle_start_testcase,
  lossy_context_number_of_packets_to_drop,
}

-- The links that the sniffer is asked to capture, with their filters.
abbrev pub sniffed : List Call → List (Text × Text)
sniffed [] = []
sniffed (Call.sniffing_start capture_id filter_proto link_id ∷ calls) =
    (link_id, filter_proto) ∷ sniffed calls
sniffed (Call.start_lossy_link n ∷ calls) = sniffed calls

-- The messages for the packet router.
abbrev pub to_router : List Call → List Message
to_router [] = []
to_router (Call.sniffing_start capture_id filter_proto link_id ∷ calls) = to_router calls
to_router (Call.start_lossy_link n ∷ calls) = Message.start_lossy_link n ∷ to_router calls

abbrev pub is_lossy : Option Text → Bool
is_lossy none = false
is_lossy (some mode) = mode == codes "lossy_context"

abbrev pub any_lossy : List Link → Bool
any_lossy [] = false
any_lossy (link ∷ rest) = is_lossy link.special_mode || any_lossy rest

-- What the router has pending, once it has served what the start of the links sends it.
abbrev pub pending_after : Bool → ℕ → ℕ
pending_after true n = lossy_context_number_of_packets_to_drop
pending_after false n = n

-- The calls for a special mode are none of the sniffer's.
sniffed-special_calls :
    (mode : Option Text) (calls : List Call) → sniffed (special_calls mode ++ calls) ≡ sniffed calls
unfolding special_calls
sniffed-special_calls none calls = refl
sniffed-special_calls (some mode) calls = ground arith

sniffed-start_links :
    (id : Option Text) (links : List Link)
    → sniffed (start_links id links) ≡ map (λ l. (l.link_id, l.capture_filter)) links
unfolding start_links
sniffed-start_links id [] = refl
sniffed-start_links id (link ∷ rest) =
    ap (λ l. (link.link_id, link.capture_filter) ∷ l)
      (sniffed-special_calls link.special_mode (start_links id rest) ∙ sniffed-start_links id rest)

abbrev after_mode : Option Text → Router → Router
after_mode mode r = record r {
  pending_number_of_packets_to_drop =
      pending_after (is_lossy mode) r.pending_number_of_packets_to_drop;
}

served_mode :
    (mode : Option Text) (calls : List Call) (r : Router)
    → serve (to_router (special_calls mode ++ calls)) r
      ≡ serve (to_router calls) (after_mode mode r)
unfolding special_calls serve on_request
served_mode none calls r = refl
served_mode (some mode) calls r = ground arith

pending_twice :
    (a b : Bool) (n : ℕ) → pending_after b (pending_after a n) ≡ pending_after (a || b) n
pending_twice true true n = refl
pending_twice true false n = refl
pending_twice false b n = refl

served :
    (id : Option Text) (links : List Link) (r : Router)
    → (serve (to_router (start_links id links)) r).pending_number_of_packets_to_drop
      ≡ pending_after (any_lossy links) r.pending_number_of_packets_to_drop
unfolding start_links serve
served id [] r = refl
served id (link ∷ rest) r =
    ap (λ x. x.pending_number_of_packets_to_drop)
      (served_mode link.special_mode (start_links id rest) r)
    ∙ served id rest (after_mode link.special_mode r)
    ∙ pending_twice (is_lossy link.special_mode) (any_lossy rest)
        r.pending_number_of_packets_to_drop

abbrev executing : Text → Testcase → Testsuite → Testsuite
executing k tc ts = put k (Testcase.change_state (some TcState.executing) tc) ts

may_start_at :
    (k : Text) (tc : Testcase) (ts : Testsuite)
    → ts.current_tc ≡ some k
    → lookup k ts.test_descriptions_dict ≡ some tc
    → get_current_testcase_state ts ≡ tc.state
unfolding get_current_testcase_state
may_start_at k tc ts c e = rw (current_at k tc ts c e, get_current_testcase_state) refl

starts :
    (k : Text) (tc : Testcase) (ts : Testsuite) (config : TestConfig)
    → ts.current_tc ≡ some k
    → lookup k ts.test_descriptions_dict ≡ some tc
    → may_start tc.state ≡ true
    → lookup tc.configuration_id ts.tc_configs ≡ some config
    → handle_start_testcase ts ≡ (
      ok (start_links (get_current_testcase_id (executing k tc ts)) config.topology),
      executing k tc ts,
    )
unfolding handle_start_testcase start_topology Testcase.change_state
starts k tc ts config c e m f = rw (may_start_at k tc ts c e) (
    rw m (
      rw (state_set_at TcState.executing ts k tc c e) (
        rw
          (configured_at (Testcase.change_state (some TcState.executing) tc) (executing k tc ts)
            config (put_current k tc _ ts c e) f)
          refl)))

-- What the calls made at the start ask for: a capture on every link, in order and by the filter of
-- the link, and after them a router with the packets to drop pending, if a link is lossy.
abbrev pub Asks : List Call → List Link → Type 0
Asks calls links =
    (sniffed calls ≡ map (λ l. (l.link_id, l.capture_filter)) links)
    × ((r : Router)
        → (serve (to_router calls) r).pending_number_of_packets_to_drop
          ≡ pending_after (any_lossy links) r.pending_number_of_packets_to_drop)

-- When the current test case is ready or configuring, and its configuration is there, its start
-- leaves it executing and changes nothing else. Every link of the configuration is captured, in
-- order and with its own filter; the packet router that receives the messages then has two packets
-- to drop pending if a link is lossy, and as many as before if none is.
pub handle_start_testcase_lem :
    (k : Text) (tc : Testcase) (ts : Testsuite) (config : TestConfig)
    → ts.current_tc ≡ some k
    → lookup k ts.test_descriptions_dict ≡ some tc
    → lookup tc.configuration_id ts.tc_configs ≡ some config
    → may_start tc.state ≡ true
    → (calls : List Call) × (handle_start_testcase ts
        ≡ (ok calls, put k (Testcase.change_state (some TcState.executing) tc) ts))
      × Asks calls config.topology
handle_start_testcase_lem k tc ts config c e f m =
    let id = get_current_testcase_id (executing k tc ts) in
    (
      start_links id config.topology,
      starts k tc ts config c e m f,
      (sniffed-start_links id config.topology, served id config.topology),
    )
