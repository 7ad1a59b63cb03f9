-- ===== src/Coordinator/Configure.antt =====
-- The configuration of a session and of the IUTs' addresses, in
-- ioppytest/test_coordinator/coordinator.py.
pub mod Selected
pub mod Addresses
use ioppytest.Prelude.Actions
use ioppytest.Prelude.Actions.{Action, ◌>>=◌, ◌>>◌}
use ioppytest.Prelude.{
  Bool, true, false, List, [], ◌∷◌, map, Option, none, some, Text, codes, lstrip, url_path,
  split_text, if◌then◌else◌, Result, ok, raised, attribute_error, type_error, coordinator_error,
}
use ioppytest.Testsuite.{Testsuite}
use ioppytest.Testsuite.Selection.{configure_testsuite}
use ioppytest.Testsuite.Queries.{
  update_node_address, check_all_iut_nodes_configured, get_testcases_list,
}
use ioppytest.Fsm.Tables.{Trigger}

-- `received_event.configuration`: missing, without a list of test cases, or with one.
pub data Configuration : Type 0 where
  missing without_testcases : Configuration
  testcases : List Text → Configuration

-- `MsgSessionConfiguration`. An attribute that is missing is `none`.
pub record SessionEvent : Type 0 where
  pub configuration : Configuration
  pub configuration_text : Option Text
  pub session_id : Option (Option Text)
  pub users : Option (Option Text)

-- `str(test_url.path).lstrip("/tests/")`
unfoldable pub testcase_of_url : Text → Text
testcase_of_url t = lstrip (codes "/tests/") (url_path t)

or_all : List Text → Testsuite → List Text
or_all [] ts = get_testcases_list ts
or_all (tc ∷ rest) ts = tc ∷ rest

unfoldable pub session_tc_list : Configuration → Testsuite → Result (List Text)
unfolding testcase_of_url or_all
session_tc_list missing ts = raised attribute_error
session_tc_list without_testcases ts = ok (or_all [] ts)
session_tc_list (testcases urls) ts = ok (or_all (map testcase_of_url urls) ts)

-- The three assignments of the `try`: one that fails leaves the later ones out.
configure : List Text → SessionEvent → Action Testsuite (Unit {0})
configure l event = elim event.session_id [
  | none ↦ configure_testsuite (some l) none none none
  | some session_id ↦ elim event.users [
    | none ↦ configure_testsuite (some l) session_id none none
    | some users ↦ configure_testsuite (some l) session_id users event.configuration_text
  ]
]

configure_with : Result (List Text) → SessionEvent → Action Testsuite (Unit {0})
unfolding configure
configure_with (raised e) event ts = (raised e, ts)
configure_with (ok l) event ts = configure l event ts

unfoldable pub handle_testsuite_config : SessionEvent → Action Testsuite (Unit {0})
unfolding session_tc_list configure_with
handle_testsuite_config event ts = configure_with (session_tc_list event.configuration ts) event ts

-- The fields of `MsgAgentTunStarted`: empty texts and `None` are none.
pub record Tun : Type 0 where
  pub name : Option Text
  pub re_route_packets : Option Text × Option Text
  pub ipv6 : Option Text × Option Text
  pub ipv4 : Option Text × Option Text

pub data AddressEvent : Type 0 where
  configuration_executed : (node : Option Text) (ipv6_address : Option Text) → AddressEvent
  tun_started : Tun → AddressEvent
  malformed_tun_started : AddressEvent

-- Both parts, or nothing.
unfoldable pub both : Option Text × Option Text → Option (Text × Text)
both (some a, some b) = some (a, b)
both _ = none

unfoldable pub first_of : Option (Text × Text) → Option (Text × Text) → Option (Text × Text)
first_of (some a) b = some a
first_of none b = b

unfoldable pub tun_address : Tun → Option (Text × Text)
unfolding both first_of
tun_address tun = first_of (both tun.re_route_packets) (first_of (both tun.ipv6) (both tun.ipv4))

-- `tuple(ipv6_address.split('::'))`, whose length is tested later.
pair_of : List Text → Result (Text × Text)
pair_of (a ∷ b ∷ []) = ok (a, b)
pair_of _ = raised coordinator_error

address_of_text : Option Text → Result (Text × Text)
unfolding pair_of
address_of_text none = raised type_error
address_of_text (some []) = raised type_error
address_of_text (some (c ∷ s)) = pair_of (split_text (codes "::") (c ∷ s))

-- Without an address `len(None)` raises, although the source says that the default is used.
address_or_raise : Option (Text × Text) → Result (Text × Text)
address_or_raise none = raised type_error
address_or_raise (some a) = ok a

store_address : Result (Text × Text) → Option Text → Action Testsuite (Option Trigger)
store_address (raised e) agent_name ts = (raised e, ts)
store_address (ok address) none ts = (raised coordinator_error, ts)
store_address (ok address) (some []) ts = (raised coordinator_error, ts)
store_address (ok address) (some (c ∷ s)) ts =
    let ts' = update_node_address (c ∷ s) address ts in
    (
      ok (
          if check_all_iut_nodes_configured ts'
          then some Trigger.all_iut_configuration_executed
          else none),
      ts',
    )

-- The trigger fired at the end, if any.
unfoldable pub handle_iut_configuration_executed : AddressEvent → Action Testsuite (Option Trigger)
unfolding address_of_text address_or_raise store_address tun_address
handle_iut_configuration_executed (configuration_executed node ipv6_address) =
    store_address (address_of_text ipv6_address) node
handle_iut_configuration_executed (tun_started tun) =
    store_address (address_or_raise (tun_address tun)) tun.name
handle_iut_configuration_executed malformed_tun_started = Actions.raise coordinator_error
