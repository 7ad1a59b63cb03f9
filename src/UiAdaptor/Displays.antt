-- ===== src/UiAdaptor/Displays.antt =====
-- Displays of messages as tables, in ioppytest/ui_adaptor/message_translators.py: a step to execute,
-- a test case to configure or about to start, the lists of test cases, and the session. The
-- attributes of a message are a dictionary; the tags of the displays are left out.
pub mod Lists
use ioppytest.Prelude.Calls.{◌>>=◌, or_raise}
use ioppytest.Prelude.{
  Bool, true, false, List, [], ◌∷◌, ◌++◌, Option, none, some, Text, codes, Dict, lookup, Result, ok,
  key_error, attribute_error,
}
use ioppytest.UiAdaptor.Messages.{Field, paragraph}
use ioppytest.UiAdaptor.Trees.{Tree, text, items, list_to_str}
use ioppytest.UiAdaptor.Reports.{Cell, tree, shown, Display, rows_for}

abbrev pub info : Text
info = codes "info"

abbrev pub of_step : List (Text × Text)
of_step =
    (codes "step_id", codes "Step ID")
    ∷ (codes "step_type", codes "Step Type")
    ∷ (codes "node", codes "Node")
    ∷ (codes "target_address", codes "Address of target node")
    ∷ (codes "testcase_id", codes "Test case ID")
    ∷ (codes "testcase_ref", codes "Test case URL")
    ∷ (codes "step_info", codes "Description")
    ∷ []

abbrev pub of_configuration : List (Text × Text)
of_configuration =
    (codes "testcase_id", codes "Test Case ID")
    ∷ (codes "testcase_ref", codes "Test Case URL")
    ∷ (codes "node", codes "Node")
    ∷ (codes "description", codes "Nodes Description")
    ∷ []

abbrev pub of_ready : List (Text × Text)
of_ready =
    (codes "testcase_id", codes "Test Case ID")
    ∷ (codes "testcase_ref", codes "Test Case URL")
    ∷ (codes "objective", codes "Test Case Objective")
    ∷ (codes "configuration_id", codes "Configuration ID")
    ∷ (codes "configuration_ref", codes "Configuration URL")
    ∷ (codes "pre_conditions", codes "Test Case pre-conditions")
    ∷ (codes "nodes", codes "Nodes")
    ∷ []

-- `desc['node']` and `desc['message']` of each description.
node_rows : List (Tree × Tree) → List (List Cell)
node_rows [] = []
node_rows ((node, message) ∷ rest) = (tree node ∷ shown (list_to_str message) ∷ []) ∷ node_rows rest

-- An entry of `tc_list`: a dictionary, or something else.
pub data Entry : Type 0 where
  dict : Dict Tree → Entry
  not_a_dict : Entry

abbrev pub not_yet : Tree
not_yet = text (codes "Not yet executed.")

-- `state if state else ...`
or_not_yet : Tree → Tree
or_not_yet Tree.null = not_yet
or_not_yet (text []) = not_yet
or_not_yet (items []) = not_yet
or_not_yet t = t

unfoldable pub listed_row : Dict Tree → Result (List Cell)
unfolding or_not_yet
listed_row f = do
  id ← or_raise key_error (lookup (codes "testcase_id") f)
  url ← or_raise key_error (lookup (codes "testcase_ref") f)
  state ← or_raise key_error (lookup (codes "state") f)
  ok (tree id ∷ tree url ∷ tree (or_not_yet state) ∷ [])

unfoldable pub listed_rows : List Entry → Result (List (List Cell))
listed_rows [] = ok []
listed_rows (not_a_dict ∷ rest) = listed_rows rest
listed_rows (dict f ∷ rest) = listed_row f >>= λ r. listed_rows rest >>= λ rs. ok (r ∷ rs)

-- The fields but the state, each of which must be there.
values_of : List Text → Dict Tree → Result (List (List Cell))
values_of [] f = ok []
values_of (name ∷ rest) f = or_raise key_error (lookup name f) >>= λ v.
    values_of rest f >>= λ rs. ok ((shown name ∷ shown (list_to_str v) ∷ []) ∷ rs)

-- A state that is missing is not yet one; `None` is shown as it is.
state_of : Option Tree → Tree
state_of none = not_yet
state_of (some t) = t

abbrev pub translated : List Text
translated =
    codes "testcase_id"
    ∷ codes "objective"
    ∷ codes "testcase_ref"
    ∷ codes "pre_conditions"
    ∷ codes "notes"
    ∷ []

unfoldable pub configured_table : Entry → Result (List (List Cell))
unfolding values_of state_of
configured_table not_a_dict = ok []
configured_table (dict f) = values_of translated f >>= λ rs.
    ok (rs ++ ((shown (codes "state") ∷ tree (state_of (lookup (codes "state") f)) ∷ []) ∷ []))

-- `MsgSessionConfiguration`, by what `%s` makes of its attributes. The two keys of the
-- configuration may be missing.
pub record Session : Type 0 where
  pub session_id : Text
  pub users : Text
  pub testing_tools : Text
  pub testcases : Option Text
  pub additional_session_resource : Option Text

if_there : Text → Option Text → List Field
if_there name none = []
if_there name (some v) = paragraph (name ++ (codes ":" ++ v)) ∷ []

unfoldable pub get_ui_session_configuration : Session → Display
unfolding if_there
get_ui_session_configuration m = record {
  title = codes "Current session configuration";
  level = info;
  fields =
      paragraph (codes "session_id: " ++ m.session_id)
      ∷ paragraph (codes "users:" ++ m.users)
      ∷ paragraph (codes "testing_tools:" ++ m.testing_tools)
      ∷ (if_there (codes "testcases") m.testcases
          ++ if_there (codes "additional_session_resource") m.additional_session_resource);
}

module _ (tabulate : Bool → List (List Cell) → Text) where
  -- The title has the type of the step, as `%s` shows it.
  unfoldable pub get_ui_message_steps : Dict Tree → Result Display
  get_ui_message_steps message =
      or_raise attribute_error (lookup (codes "step_type") message) >>= λ step_type. ok (record {
        title = codes "Please execute the " ++ (list_to_str step_type ++ codes " STEP:");
        level = info;
        fields = paragraph (tabulate false (rows_for of_step message)) ∷ [];
      })

  unfoldable pub get_ui_testcase_configure : Dict Tree → Display
  get_ui_testcase_configure message = record {
    title = codes "Please configure the IUT as indicated";
    level = info;
    fields = paragraph (tabulate false (rows_for of_configuration message)) ∷ [];
  }

  -- The id goes into the tags, and must be there, as must the descriptions.
  unfoldable pub get_ui_testcase_ready : Dict Tree → Option (List (Tree × Tree)) → Result Display
  unfolding node_rows
  get_ui_testcase_ready message nodes_description = do
    nodes ← or_raise attribute_error nodes_description
    _ ← or_raise attribute_error (lookup (codes "testcase_id") message)
    ok (record {
      title = codes "Next test case to be executed";
      level = info;
      fields = paragraph (tabulate false (rows_for of_ready message ++ node_rows nodes)) ∷ [];
    })

  unfoldable pub get_ui_testcases_list : List Entry → Result Display
  get_ui_testcases_list tc_list = listed_rows tc_list >>= λ rows. ok (record {
    title = codes "Test cases list:";
    level = info;
    fields =
        paragraph (
          tabulate true (
            (shown (codes "Test Case ID")
              ∷ shown (codes "Test Case URL")
              ∷ shown (codes "Test Case State")
              ∷ [])
            ∷ rows))
        ∷ [];
  })

  unfoldable pub configured_fields : List Entry → Result (List Field)
  configured_fields [] = ok []
  configured_fields (f ∷ rest) = configured_table f >>= λ table. configured_fields rest >>= λ later.
      ok (paragraph (tabulate false table) ∷ paragraph (codes "---\n") ∷ later)

  -- `_get_ui_testing_tool_configured`, of a description and a list of test cases.
  unfoldable pub get_ui_testing_tool_configured : Tree → List Entry → Result Display
  get_ui_testing_tool_configured description tc_list = configured_fields tc_list >>= λ fields.
      ok (record { title = list_to_str description; level = info; fields = fields })
