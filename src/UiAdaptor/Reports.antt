-- ===== src/UiAdaptor/Reports.antt =====
-- The display of verdicts in ioppytest/ui_adaptor/message_translators.py. The
-- drawing of a table, by the package `tabulate`, is a parameter: with a header or not, a table of
-- rows of cells gives a text.
pub mod Colors
use ioppytest.Prelude.Calls.{◌>>=◌, or_raise, assert}
use ioppytest.Prelude.{
  ℕ, zero, suc, ◌&&◌, Bool, true, false, List, [], ◌∷◌, ◌++◌, ◌||◌, map, Option, none, some, Text,
  codes, lower, ◌==◌, contains_text, Dict, lookup, if◌then◌else◌, Result, ok, raised, type_error,
  attribute_error, key_error,
}
use ioppytest.UiAdaptor.Trees.{Item, line, Tree, items_to_str, list_to_str, is_in, is_in_lower}
use ioppytest.UiAdaptor.Messages.{Field, Value, paragraph}

-- A line of `partial_verdicts`: a list, or something else.
pub data Row : Type 0 where
  row : List Item → Row
  not_a_list : Row

-- `tc_report`, and its `partial_verdicts`.
pub record Report : Type 0 where
  pub fields : Dict Tree
  pub partial_verdicts : Option (List Row)

-- A cell of a table, as it is given to `tabulate`.
pub data Cell : Type 0 where
  tree : Tree → Cell
  item : Item → Cell

abbrev pub shown : Text → Cell
shown t = item (line t)

-- The first test that holds decides.
choose : Result Bool → Text → Result Text → Result Text
choose (raised e) color later = raised e
choose (ok true) color later = ok color
choose (ok false) color later = later

abbrev pub highlighted : Text
highlighted = codes "highlighted"

abbrev pub red : Text
red = codes "error"

abbrev pub warning : Text
warning = codes "warning"

unfoldable pub display_color : Option Tree → Result Text
unfolding choose
display_color none = ok warning
display_color (some v) = choose (is_in (codes "pass") v) highlighted (
    choose (is_in_lower (codes "fail") v) red (
      choose (is_in_lower (codes "error") v) red
        (choose (is_in_lower (codes "none") v) red (ok warning))))

-- The rows of the keys that the report has.
unfoldable pub rows_for : List (Text × Text) → Dict Tree → List (List Cell)
rows_for [] report = []
rows_for ((key, label) ∷ rest) report =
    let later = rows_for rest report in
    elim (lookup key report) [
      | none ↦ later
      | some v ↦ (shown label ∷ shown (list_to_str v) ∷ []) ∷ later
    ]

abbrev pub step_message_fields : List (Text × Text)
step_message_fields =
    (codes "verdict", codes "Verdict")
    ∷ (codes "description", codes "Verdict info")
    ∷ (codes "testcase_id", codes "Test case ID")
    ∷ (codes "objective", codes "Test Purpose")
    ∷ (codes "testcase_ref", codes "Test case URL")
    ∷ (codes "pre_conditions", codes "Pre-conditions")
    ∷ []

-- The loop over the lines: an exception on the way ends it. A line's rest is shown in the table of
-- frames if it names one.
unfoldable pub verdict_rows : List Row → List (List Cell) × List (List Cell)
verdict_rows [] = ([], [])
verdict_rows (row (step_id ∷ verdict ∷ info) ∷ rest) =
    let (frames, rows) = verdict_rows rest in
    (
      if contains_text (codes "Frame") (items_to_str info) then map item info ∷ frames else frames,
      (item step_id ∷ item verdict ∷ shown (items_to_str info) ∷ []) ∷ rows,
    )
verdict_rows (_ ∷ rest) = ([], [])

abbrev header : List Cell
header = map shown (codes "Step ID" ∷ codes "Partial \nVerdict" ∷ codes "Description" ∷ [])

abbrev rule : Field
rule = paragraph (codes "---\n")

-- A row of the summary. Without a verdict or a description both are shown as `None`.
summary_cells : Option Tree → Option Tree → List Cell
summary_cells (some verdict) (some description) =
    tree verdict ∷ shown (list_to_str description) ∷ []
summary_cells _ _ = shown (codes "None") ∷ shown (codes "None") ∷ []

unfoldable pub summary_row : Report → Result (List Cell)
unfolding summary_cells
summary_row report = or_raise key_error (lookup (codes "testcase_id") report.fields) >>= λ id. ok (
    tree id
    ∷ summary_cells (lookup (codes "verdict") report.fields)
        (lookup (codes "description") report.fields))

-- The summary of the suite: whether a report is red, the rows and the fields below.
pub record Summary : Type 0 where
  pub is_red : Bool
  pub rows : List (List Cell)
  pub tail : List Field

abbrev summary_header : List Cell
summary_header = map shown (codes "Testcase ID" ∷ codes "Verdict" ∷ codes "Description" ∷ [])

dashes : ℕ → Text
dashes zero = []
dashes (suc n) = b'-' ∷ dashes n

-- `MsgSniffingGetCaptureReply`, as the session's history keeps it.
pub record Capture : Type 0 where
  pub ok_field : Bool
  pub filename : Text
  pub value : Value

download : Capture → Field
download m = record {
  name = some m.filename;
  type = some (codes "data");
  label = none;
  value = some m.value;
}

-- `_generate_ui_fields_for_pcap_download`
unfoldable pub generate_downloads : Text → List Capture → List Field
unfolding download
generate_downloads testcase_id [] = []
generate_downloads testcase_id (m ∷ rest) =
    let later = generate_downloads testcase_id rest in
    if contains_text testcase_id m.filename && m.ok_field then download m ∷ later else later

-- A display: its title, level and fields.
pub record Display : Type 0 where
  pub title : Text
  pub level : Text
  pub fields : List Field

module _ (tabulate : Bool → List (List Cell) → Text) where
  details : List Row → List Field
  details rows =
      let (frames, table) = verdict_rows rows in
      rule
      ∷ paragraph (codes "Analysis Tool Checks:")
      ∷ paragraph (tabulate false frames)
      ∷ rule
      ∷ paragraph (codes "Step results:")
      ∷ paragraph (tabulate true (header ∷ table))
      ∷ []

  -- `if partial_verdict`
  details_if_any : Option (List Row) → List Field
  unfolding details
  details_if_any none = []
  details_if_any (some []) = []
  details_if_any (some (r ∷ rest)) = details (r ∷ rest)

  -- `_generate_ui_fields_for_testcase_report`: the id, the color and the fields.
  unfoldable pub generate_ui_fields : Report → Result (Tree × Text × List Field)
  unfolding details_if_any
  generate_ui_fields report = do
    -- Without `partial_verdicts` the id is read for the warning.
    _ ← elim report.partial_verdicts [
      | none ↦ or_raise key_error (lookup (codes "testcase_id") report.fields)
      | some rows ↦ ok Tree.null
    ]
    color ← display_color (lookup (codes "verdict") report.fields)
    id ← or_raise key_error (lookup (codes "testcase_id") report.fields)
    ok (
      id,
      color,
      paragraph (tabulate false (rows_for step_message_fields report.fields))
          ∷ details_if_any report.partial_verdicts,
    )

  -- `_get_ui_testcase_verdict`, on the test case of that id and the captures of the session.
  unfoldable pub get_ui_testcase_verdict : Text → List Capture → Report → Result Display
  get_ui_testcase_verdict testcase_id history report = do
    (id, color, fields) ← generate_ui_fields report
    ok (record {
      title = codes "Verdict on TEST CASE: " ++ list_to_str id;
      level = color;
      fields =
          fields
          ++ (rule
              ∷ paragraph (codes "Testcase captures:\n")
              ∷ generate_downloads testcase_id history);
    })

  -- The loop over the reports of a suite.
  unfoldable pub summarise : List Report → Result Summary
  summarise [] = ok (record { is_red = false; rows = []; tail = [] })
  summarise (report ∷ rest) = do
    cells ← summary_row report
    (id, color, fields) ← generate_ui_fields report
    later ← summarise rest
    ok (record {
      is_red = color == red || later.is_red;
      rows = cells ∷ later.rows;
      tail =
          paragraph (codes "---\n---\n" ++ (list_to_str id ++ codes ":\n"))
          ∷ (fields ++ later.tail);
    })

  -- The end of `_get_ui_test_suite_results`.
  display_of : Summary → Display
  unfolding dashes
  display_of summary = record {
    title = codes "Test suite report";
    level = if summary.is_red then red else highlighted;
    fields =
        paragraph (tabulate true (summary_header ∷ summary.rows))
        ∷ paragraph (codes "see details on verdicts below")
        ∷ paragraph (dashes 70)
        ∷ summary.tail;
  }

  unfoldable pub get_ui_test_suite_results : List Report → Result Display
  unfolding display_of
  get_ui_test_suite_results testcases = summarise testcases >>= λ summary. ok (display_of summary)
