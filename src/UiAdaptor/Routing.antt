-- ===== src/UiAdaptor/Routing.antt =====
-- `AmqpMessagePublisher` of ioppytest/ui_adaptor/__main__.py: to which user a message goes. The map
-- from the roles of the IUTs to users is `iut_role_to_user_id_mapping`.
pub mod Addressed
use ioppytest.Prelude.{
  ℕ, Bool, true, false, not, ◌||◌, ◌&&◌, List, [], ◌∷◌, ◌++◌, map, filter_by, Option, none, some,
  Text, codes, ◌==◌, mem, set_add, has_code, contains_text, replace, split, Dict, lookup, update,
  values, if◌then◌else◌, Result, ok, raised, key_error, exception,
}
use ioppytest.UiAdaptor.Messages.{Attribute, TtMessage, UiMessage, paragraph}

abbrev pub Users : Type 0
Users = Dict Text

abbrev pub everyone : Text
everyone = codes "all"

-- `update_iut_role_to_user_id_mapping`
unfoldable pub update_users : Users → Users → Users
update_users mapping new = update mapping new

unfoldable pub get_user_id_from_node : Text → Users → Text
get_user_id_from_node node mapping = elim (lookup node mapping) [
  | none ↦ everyone
  | some user ↦ user
]

user_of_terms : List Text → Result Text
user_of_terms (a ∷ b ∷ user ∷ d ∷ []) =
    if a == codes "ui" && b == codes "user" then ok user else raised key_error
user_of_terms _ = raised key_error

unfoldable pub get_user_id_from_rkey : Text → Result Text
unfolding user_of_terms
get_user_id_from_rkey rkey = user_of_terms (split b'.' rkey)

to_set : List Text → List Text
to_set [] = []
to_set (x ∷ xs) = set_add x (to_set xs)

-- The users of the mapping, less one if it is given. The order of a set is not known.
unfoldable pub get_session_users : Option Text → Users → List Text
unfolding to_set
get_session_users none mapping = to_set (values mapping)
get_session_users (some []) mapping = to_set (values mapping)
get_session_users (some (c ∷ s)) mapping =
    filter_by (λ u. not (u == c ∷ s)) (to_set (values mapping))

-- The destination by the node of a message of the testing tool. A node `None` is in no mapping.
unfoldable pub user_of_node : Attribute → Users → Text
unfolding get_user_id_from_node
user_of_node none mapping = everyone
user_of_node (some none) mapping = everyone
user_of_node (some (some node)) mapping = get_user_id_from_node node mapping

-- The node of no message: no argument `tt_message`.
abbrev pub node_of : Option TtMessage → Attribute
node_of none = none
node_of (some m) = m.node

-- The user, if one is given; else the user of the message's node; else all. An empty id is none.
unfoldable pub destination : Option TtMessage → Option Text → Users → Text
unfolding user_of_node
destination m (some (c ∷ s)) mapping = c ∷ s
destination m _ mapping = user_of_node (node_of m) mapping

-- `hasattr(ui_message, 'reply_to')`
unfoldable pub reply_key : Text → Option Text → Option Text
reply_key routing_key none = none
reply_key routing_key (some _) = some (replace (codes ".request") (codes ".reply") routing_key)

unfoldable pub addressed : Text → UiMessage → UiMessage
unfolding reply_key
addressed key m = record m { routing_key = key; reply_to = reply_key key m.reply_to }

-- The argument `node_name` is given by no caller.
unfoldable pub update_ui_message_rkeys :
    UiMessage → Option TtMessage → Option Text → Users → Result UiMessage
unfolding addressed
update_ui_message_rkeys m tt_message user_id mapping =
    let user = destination tt_message user_id mapping in
    if contains_text (codes ".*.") m.routing_key || contains_text (codes ".all.") m.routing_key
    then (if has_code b'*' m.routing_key
        then ok (addressed (replace (codes "*") user m.routing_key) m)
        else ok (
            addressed (replace (codes ".all.") (codes "." ++ (user ++ codes ".")) m.routing_key) m))
    else raised exception

-- The notice to those who wait for the reply of another.
abbrev pub waiting_for : Text → Text
waiting_for user = codes "Waiting for " ++ (user ++ codes " reply..")

-- What `publish_ui_request` publishes before the request: the users who are told to wait.
to_notify : List Text → List Text
to_notify [] = everyone ∷ []
to_notify (u ∷ us) = u ∷ us

notified : Result Text → Users → Result (List Text)
unfolding to_notify
notified (raised e) mapping = raised e
notified (ok user) mapping = ok (to_notify (get_session_users (some user) mapping))

unfoldable pub users_to_notify : Text → Users → Result (List Text)
unfolding notified
users_to_notify routing_key mapping =
    if contains_text (codes "ui.user.") routing_key
      && not (contains_text (codes ".all.") routing_key)
    then notified (get_user_id_from_rkey routing_key) mapping
    else ok []
