-- ===== src/UiAdaptor/Startup.antt =====
-- `main` of ioppytest/ui_adaptor/__main__.py up to its loop, and `get_session_configuration_from_ui`
-- of ui_tasks.py. What the user interface and the testing tool answer is a parameter; the command
-- line, the connection, the query of the users online and an interruption are left out.
pub mod Subscribed
use ioppytest.Prelude.{
  Bool, true, false, not, List, [], ◌∷◌, ◌++◌, map, Option, none, some, Text, codes, ◌==◌, mem, all,
  values, if◌then◌else◌, Result, ok, raised, Exn, session_error, ui_response_error,
  synch_call_timeout, system_exit,
}
use ioppytest.UiAdaptor.Routing.{Users, update_users}

-- The reply to the request of the configuration: its field `ok`, if it has one, and its keys.
pub record ConfigurationReply : Type 0 where
  pub ok_field : Option Bool
  pub reply_keys : List Text

abbrev pub keys_to_validate : List Text
keys_to_validate = codes "id" ∷ codes "configuration" ∷ codes "testSuite" ∷ codes "users" ∷ []

is_nok : Option Bool → Bool
is_nok (some false) = true
is_nok _ = false

-- The reply may be `None`, or not come in time.
unfoldable pub get_session_configuration_from_ui :
    Result (Option ConfigurationReply) → Result ConfigurationReply
unfolding is_nok
get_session_configuration_from_ui (raised e) = raised e
get_session_configuration_from_ui (ok none) = raised ui_response_error
get_session_configuration_from_ui (ok (some r)) =
    if is_nok r.ok_field
    then raised ui_response_error
    else if all (λ k. mem k r.reply_keys) keys_to_validate
    then ok r
    else raised ui_response_error

-- How the start ends: the process exits, `main` returns, or it enters its loop with a mapping of
-- roles to users, subscribed to the topics of the replies.
pub data Outcome : Type 0 where
  exits returns : Outcome
  fails : Exn → Outcome
  runs : (mapping : Users) (ui_reply_topics : List Text) → Outcome

-- With the errors that all users were shown, and whether the testing tool got the default
-- configuration.
pub record Start : Type 0 where
  pub outcome : Outcome
  pub errors : List Exn
  pub default_configuration : Bool

abbrev pub reply_topic : Text → Text
reply_topic user = codes "ui.user." ++ (user ++ codes ".reply")

-- The topics that `main` subscribes to.
unfoldable pub ui_reply_topics : Users → List Text
ui_reply_topics mapping = codes "ui.user.all.reply" ∷ map reply_topic (values mapping)

-- The bootstrap of the translator, and the subscription.
bootstrapped : Result (Unit {0}) → Users → Outcome
unfolding ui_reply_topics
bootstrapped (raised e) mapping = fails e
bootstrapped (ok u) mapping = runs mapping (ui_reply_topics mapping)

-- An exception of the configuration of the testing tool gives it the default one.
is_raised : Result (Unit {0}) → Bool
is_raised (ok u) = false
is_raised (raised e) = true

-- What `main` does with an exception of the session: it shows it and goes on without the mapping,
-- shows it and returns, or raises it again.
pub data Handler : Type 0 where
  shows stops rethrows : Handler

unfoldable pub handler : Exn → Handler
handler synch_call_timeout = shows
handler ui_response_error = shows
handler session_error = stops
handler _ = rethrows

abbrev pub is_timeout : Exn → Bool
is_timeout synch_call_timeout = true
is_timeout _ = false

module _ (configure bootstrap : Result (Unit {0})) where
  configured : List Exn → Users → Start
  unfolding bootstrapped is_raised
  configured errors mapping = record {
    outcome = bootstrapped bootstrap mapping;
    errors = errors;
    default_configuration = is_raised configure;
  }

  abbrev stopped : Outcome → List Exn → Start
  stopped outcome errors = record {
    outcome = outcome;
    errors = errors;
    default_configuration = false;
  }

  -- The handlers of the exceptions.
  session_raised : Handler → Exn → Start
  unfolding configured
  session_raised shows e = configured (e ∷ []) []
  session_raised stops e = stopped returns (e ∷ [])
  session_raised rethrows e = stopped (fails e) []

  -- The users join and get their roles: the mapping, or what was raised. The publisher of messages
  -- is given the same mapping.
  unfoldable pub start_session : Result Users → Start
  unfolding configured session_raised
  start_session (ok mapping) = configured [] mapping
  start_session (raised e) = session_raised (handler e) e

  start_with : Text → Result ConfigurationReply → Result Users → Start
  unfolding start_session bootstrapped
  start_with test_suite (raised e) session = stopped (if is_timeout e then exits else fails e) []
  start_with test_suite (ok c) session =
      if test_suite == codes "wot"
      then stopped (bootstrapped bootstrap []) []
      else start_session session

  -- `main`, after its arguments. `session` is what `wait_for_all_users_to_join_session` and then
  -- `get_user_ids_and_roles_from_ui` come to, and `configure` what `wait_for_testing_tool_ready` and
  -- then `configure_testing_tool` come to.
  unfoldable pub start : Text → Result (Option ConfigurationReply) → Result Users → Start
  unfolding start_with
  start test_suite reply session =
      start_with test_suite (get_session_configuration_from_ui reply) session
