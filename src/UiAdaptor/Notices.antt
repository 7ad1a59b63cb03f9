-- ===== src/UiAdaptor/Notices.antt =====
-- The displays of one paragraph, in ioppytest/ui_adaptor/message_translators.py. The tags of the
-- displays are left out.
use ioppytest.Prelude.{[], ◌∷◌, ◌++◌, Option, none, some, Text, codes}
use ioppytest.UiAdaptor.Messages.{Field, paragraph}
use ioppytest.UiAdaptor.Trees.{Tree, list_to_str}
use ioppytest.UiAdaptor.Reports.{highlighted}

-- A display without a title, of one paragraph.
pub record Notice : Type 0 where
  pub level : Option Text
  pub field : Field

unfoldable pub get_ui_message_description_and_component : (component description : Text) → Notice
get_ui_message_description_and_component component description = record {
  level = none;
  field = paragraph (component ++ (codes ": " ++ description));
}

-- Without an id it is the current test case.
skipped_name : Option Text → Text
skipped_name none = codes "current testcase"
skipped_name (some []) = codes "current testcase"
skipped_name (some (c ∷ s)) = c ∷ s

unfoldable pub get_ui_testcase_skip : Option Text → Notice
unfolding skipped_name
get_ui_testcase_skip testcase_id = record {
  level = some highlighted;
  field =
      paragraph (
        codes "<" ++ (skipped_name testcase_id ++ codes "> has been chosen to be skipped by user"));
}

-- The number as `%s` shows it.
unfoldable pub get_ui_lossy_context : (number_of_packets_to_drop : Text) → Notice
get_ui_lossy_context n = record {
  level = some highlighted;
  field = paragraph (codes "Test configured to drop the following " ++ (n ++ codes " packet(s)"));
}

unfoldable pub get_ui_message_highlighted_description : Tree → Notice
get_ui_message_highlighted_description description = record {
  level = some highlighted;
  field = paragraph (list_to_str description);
}

-- The three attributes as `%s` shows them.
unfoldable pub get_ui_agent_messages : (name ipv6_prefix ipv6_host : Text) → Notice
get_ui_agent_messages name ipv6_prefix ipv6_host = record {
  level = some (codes "info");
  field = paragraph (
      name
      ++ (codes " TUN started, IPv6 interface " ++ (ipv6_prefix ++ (codes "::" ++ ipv6_host))));
}
