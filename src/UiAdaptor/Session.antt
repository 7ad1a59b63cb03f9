-- ===== src/UiAdaptor/Session.antt =====
-- ioppytest/ui_adaptor/ui_tasks.py: the users of a session and the roles of their IUTs. What the
-- interface answers is a parameter: `query k` is what comes of the query of number `k`.
pub mod Waiting
pub mod Roles
use ioppytest.Prelude.{
  ℕ, zero, suc, Bool, true, false, List, [], ◌∷◌, length, ltb, leb, Option, none, some, Text, codes,
  ◌==◌, mem, contains_text, Dict, insert, ◌&&◌, if◌then◌else◌, Result, ok, raised, index_error,
  value_error, session_error, ui_response_error, key_error, assertion_error,
}
use ioppytest.TestConfig.{remove_first}

-- What the interface answers for the users: no configuration, a configuration without them, with
-- something else than a list, or with a list.
pub data Online : Type 0 where
  no_configuration no_users no_list : Online
  listed : List Text → Online

-- What comes of a query: an exception, or the users that the interface lists, less its own.
unfoldable pub get_current_users_online : Result Online → Result (List Text)
get_current_users_online (raised e) = raised e
get_current_users_online (ok no_configuration) = raised ui_response_error
get_current_users_online (ok no_users) = raised key_error
get_current_users_online (ok no_list) = raised assertion_error
get_current_users_online (ok (listed users)) =
    ok (remove_first (codes "my_slice") (remove_first (codes "myslice") users))

-- The keys of the session configuration that are read. `testsuite.additional_session_resource` is
-- one of its `configuration`.
pub record SessionConfiguration : Type 0 where
  pub shared : Bool
  pub has_users : Bool
  pub additional_session_resource : Option Text

-- `WAITING_TIME_FOR_SECOND_USER`
abbrev pub max_retries : ℕ
max_retries = 900

-- The `while` loop, with the number of retries and the users that it starts from: those at its end,
-- or the exception of a query. Without a result the fuel is not enough.
unfoldable pub poll_users :
    (limit fuel retries : ℕ) → List Text → (ℕ → Result Online) → Option (Result (ℕ × List Text))
poll_users limit zero retries users query = none
poll_users limit (suc fuel) retries users query = elim (ltb (length users) 2 && leb retries limit) [
  | true ↦ elim (get_current_users_online (query (suc retries))) [
    | raised e ↦ some (raised e)
    | ok users' ↦ poll_users limit fuel (suc retries) users' query
  ]
  | false ↦ some (ok (retries, users))
]

-- What follows the loop.
joined : (limit : ℕ) → Option (Result (ℕ × List Text)) → Option (Result (List Text))
joined limit none = none
joined limit (some (raised e)) = some (raised e)
joined limit (some (ok (retries, users))) =
    if ltb limit retries then some (raised session_error) else some (ok users)

unfoldable pub first_users :
    (limit fuel : ℕ) → Result (List Text) → (ℕ → Result Online) → Option (Result (List Text))
unfolding joined
first_users limit fuel (raised e) query = some (raised e)
first_users limit fuel (ok users) query = joined limit (poll_users limit fuel 0 users query)

-- The wait of a session that is shared, whose displays are left out.
unfoldable pub wait_for_second_user :
    (limit fuel : ℕ) → (ℕ → Result Online) → Option (Result (List Text))
wait_for_second_user limit fuel query =
    first_users limit fuel (get_current_users_online (query 0)) query

shared_with : Option (Result (List Text)) → Option (Result (Option (List Text)))
shared_with none = none
shared_with (some (raised e)) = some (raised e)
shared_with (some (ok users)) = some (ok (some users))

-- A session that is not shared waits for nobody.
unfoldable pub wait_for_all_users_to_join_session :
    (fuel : ℕ) → SessionConfiguration → (ℕ → Result Online) → Option (Result (Option (List Text)))
unfolding shared_with
wait_for_all_users_to_join_session fuel c query =
    if c.shared
    then (if c.has_users
        then shared_with (wait_for_second_user max_retries fuel query)
        else some (raised ui_response_error))
    else some (ok none)

-- The two roles that a test suite declares.
abbrev pub Roles : Type 0
Roles = Text × Text

-- The mapping that the name of the additional resource gives.
unfoldable pub roles_from_resource : Roles → Text → Option Text → Option (Dict Text)
roles_from_resource (r0, r1) user_lead none = none
roles_from_resource (r0, r1) user_lead (some resource) =
    if contains_text r0 resource
    then some (insert r1 user_lead (insert r0 resource []))
    else if contains_text r1 resource
    then some (insert r0 user_lead (insert r1 resource []))
    else none

-- The options of the question: the roles, and `all`.
unfoldable pub offered_roles : Roles → List Text
offered_roles (r0, r1) = r0 ∷ r1 ∷ codes "all" ∷ []

-- `second_user if second_user else "automated_iut"`
unfoldable pub or_automated : Option Text → Text
or_automated none = codes "automated_iut"
or_automated (some []) = codes "automated_iut"
or_automated (some (c ∷ s)) = c ∷ s

-- `iut_roles.remove(answer)`, then `iut_roles.pop()` is the other one.
unfoldable pub roles_from_answer : Roles → Text → Option Text → Text → Result (Dict Text)
unfolding or_automated
roles_from_answer (r0, r1) user_lead second_user answer =
    if answer == codes "both"
    then ok (insert r1 user_lead (insert r0 user_lead []))
    else if answer == r0
    then ok (insert r1 (or_automated second_user) (insert r0 user_lead []))
    else if answer == r1
    then ok (insert r0 (or_automated second_user) (insert r1 user_lead []))
    else raised value_error

-- The reply to the question may lack the role.
ask_role : Roles → Text → Option Text → Option Text → Result (Dict Text)
unfolding roles_from_answer
ask_role roles user_lead second_user none = raised ui_response_error
ask_role roles user_lead second_user (some answer) =
    roles_from_answer roles user_lead second_user answer

unfoldable pub get_user_ids_and_roles_from_ui :
    Roles → SessionConfiguration → (users : List Text) → (answer : Option Text) → Result (Dict Text)
unfolding ask_role
get_user_ids_and_roles_from_ui roles c [] answer = raised index_error
get_user_ids_and_roles_from_ui roles c (user_lead ∷ []) answer =
    elim (roles_from_resource roles user_lead c.additional_session_resource) [
      | some mapping ↦ ok mapping
      | none ↦ ask_role roles user_lead none answer
    ]
get_user_ids_and_roles_from_ui roles c (user_lead ∷ second_user ∷ rest) answer =
    ask_role roles user_lead (some second_user) answer
