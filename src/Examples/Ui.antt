-- ===== src/Examples/Ui.antt =====
-- The interface with the users, on small messages and sessions.
use ioppytest.Prelude.{
  ◌++◌, Result, Bool, map, mem, arith, ℕ, ◌≡◌, refl, true, List, [], ◌∷◌, ltb, none, some, Text,
  codes, All, lookup, ok, text_eq, if◌then◌else◌, has_code,
}
use ioppytest.Testcase.Reporting.{error_report}
use ioppytest.Testsuite.State.{ReportItem}
use ioppytest.Coordinator.Steps.{handle_finish_testsuite}
use ioppytest.Coordinator.Notify.{testsuite_report, notify_testsuite_finished}
use ioppytest.UiAdaptor.Reports.{Cell, Display, get_ui_test_suite_results}
use ioppytest.UiAdaptor.Reports.Colors.{sent, finished_suite_color}
use ioppytest.UiAdaptor.Packets.{aligned}
use ioppytest.UiAdaptor.Packets.Bytes.{read_bytes, read_bytes-aligned}
use ioppytest.Examples.{suite, two_testcases, done}
use ioppytest.Testsuite.Views.{TestcaseView}
use ioppytest.Coordinator.Connector.{get_testcases, testcases, handle_service}
use ioppytest.UiAdaptor.Displays.{get_ui_testcases_list}
use ioppytest.UiAdaptor.Displays.Lists
use ioppytest.UiAdaptor.Displays.Lists.{handle_service-displayed}
use ioppytest.Examples
use ioppytest.UiAdaptor.Messages.{
  Kind, Field, TtMessage, Value, UiMessage, Fresh, UiReply, TtReply, paragraph, button,
}
use ioppytest.UiAdaptor.Pending.{Entry}
use ioppytest.UiAdaptor.Translator
use ioppytest.UiAdaptor.Routing.{
  Users, destination, get_user_id_from_node, update_ui_message_rkeys, get_user_id_from_rkey,
}
use ioppytest.UiAdaptor.Routing.Addressed.{update_ui_message_rkeys-user}
use ioppytest.UiAdaptor.Truncate.{truncate_if_text_too_long}
use ioppytest.UiAdaptor.Truncate.Fits.{Fits, truncate_if_text_too_long-Fits}
use ioppytest.UiAdaptor.Exchange.{Adaptor, request_input, answer, process_message_from_ui, echo_of}
use ioppytest.UiAdaptor.Exchange.Choices.{start, exchange_lem}
use ioppytest.UiAdaptor.Exchange.Once.{answer_once}
use ioppytest.UiAdaptor.Translator.Chained.{one_field}
use ioppytest.TestConfig.{remove_first}
use ioppytest.UiAdaptor.Session.{Online, get_current_users_online, wait_for_second_user}
use ioppytest.UiAdaptor.Session.Waiting.{wait_for_second_user-Ends}

abbrev pub users : Users
users = (codes "coap_client", codes "alice") ∷ []

abbrev pub adaptor : Adaptor
adaptor = record {
  translator = record Translator.init { current_tc = some (codes "TC1") };
  users = users;
  display_to_ui = [];
  request_to_ui = [];
  to_tt = [];
}

abbrev pub ready : TtMessage
ready = record {
  kind = Kind.testcase_ready;
  testcase_id = some (some (codes "TC1"));
  step_id = none;
  node = some (some (codes "coap_client"));
}

abbrev pub fresh : Fresh
fresh = record {
  routing_key = codes "ui.user.all.request";
  reply_to = some (codes "ui.user.all.reply");
  correlation_id = codes "c1";
}

exchange_example :
    let asked = request_input fresh ready adaptor in
    let replied = answer (one_field (codes "c1") (codes "tc_start") (Value.flag true)) asked.1 in
    (asked.0 ≡ ok tt)
    × (replied.0 ≡ ok tt)
    × (replied.1.to_tt ≡ TtReply.testcase_start (some (codes "TC1")) ∷ [])
unfolding has_code Translator.init
exchange_example =
    exchange_lem fresh (codes "request") ready adaptor (codes "tc_start") (Value.flag true)
      (TtReply.testcase_start (some (codes "TC1"))) refl refl refl (start (Value.flag true) refl)

abbrev pub display : UiMessage
display = record {
  routing_key = codes "ui.user.all.display";
  reply_to = none;
  correlation_id = codes "c1";
  title = none;
  level = none;
  tags = [];
  fields = paragraph (codes "hello") ∷ button (codes "ok") (Value.flag true) ∷ [];
}

abbrev entry : Entry
entry = record {
  requested_fields = codes "ok" ∷ [];
  ui_request_message = display;
  tt_request_originator = ready;
}

abbrev waiting : Adaptor
waiting = record adaptor {
  translator = record Translator.init { pending_responses = (codes "c1", entry) ∷ [] };
}

abbrev pub reply : UiReply
reply = one_field (codes "c1") (codes "ok") (Value.flag true)

answer_once_example :
    let a = (process_message_from_ui fresh (codes "ok") reply waiting).1 in
    process_message_from_ui fresh (codes "again") reply a ≡ (
      ok tt,
      record a {
        display_to_ui =
            a.display_to_ui
            ++ (echo_of fresh (codes "User replied to request: " ++ codes "again") ∷ []);
      },
    )
answer_once_example = answer_once fresh fresh (codes "ok") (codes "again") reply reply waiting refl

truncate-Fits_example :
    (fields : List Field) × (truncate_if_text_too_long display
      ≡ ok (record display { fields = fields }))
    × All Fits fields
unfolding text_eq
truncate-Fits_example = truncate_if_text_too_long-Fits display (tt, (tt, tt))

rkeys-user_example :
    (m : UiMessage) × (update_ui_message_rkeys display (some ready) none users ≡ ok m)
    × (get_user_id_from_rkey m.routing_key ≡ ok (codes "alice"))
    × (m.correlation_id ≡ display.correlation_id)
    × (m.fields ≡ display.fields)
unfolding has_code destination get_user_id_from_node lookup text_eq
rkeys-user_example =
    update_ui_message_rkeys-user display (some ready) none users (codes "display") refl refl refl
      refl

-- The second user is there at the third query.
abbrev query : ℕ → Result Online
query n =
    if ltb n 2
    then ok (Online.listed (codes "alice" ∷ []))
    else ok (Online.listed (codes "alice" ∷ codes "bob" ∷ []))

waiting-Ends_example : wait_for_second_user 5 7 query ≡ some (ok (codes "alice" ∷ codes "bob" ∷ []))
unfolding get_current_users_online remove_first text_eq
waiting-Ends_example = wait_for_second_user-Ends 5 7 query (omega arith)

-- A table as its first row, without its lines.
abbrev first_line : Bool → List (List Cell) → Text
first_line with_header [] = []
first_line with_header (row ∷ rest) = codes "+"

suite_color_example :
    (sent_items : List ReportItem) × (notify_testsuite_finished
        (handle_finish_testsuite (suite two_testcases none))
      ≡ ok (testsuite_report (some sent_items) ∷ []))
    × ((d : Display) × (get_ui_test_suite_results first_line (map sent sent_items) ≡ ok d)
        × (d.level ≡ codes "error"))
unfolding mem text_eq error_report
suite_color_example = finished_suite_color first_line (suite two_testcases none) (refl, (refl, tt))

bytes_example : read_bytes (aligned 0 (69 ∷ 0 ∷ 255 ∷ [])) ≡ 69 ∷ 0 ∷ 255 ∷ []
bytes_example =
    read_bytes-aligned 0 (69 ∷ 0 ∷ 255 ∷ []) (omega arith, (omega arith, (omega arith, tt)))

listing_example :
    (views : List TestcaseView) × (handle_service get_testcases (suite two_testcases none)
      ≡ testcases views ∷ [])
    × (get_ui_testcases_list first_line (map Lists.sent views)
        ≡ ok (record {
          title = codes "Test cases list:";
          level = codes "info";
          fields = paragraph (codes "+") ∷ [];
        }))
listing_example =
    handle_service-displayed first_line (suite two_testcases none) done (Examples.fresh ∷ []) refl
