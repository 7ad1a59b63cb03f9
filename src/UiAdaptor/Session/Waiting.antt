-- ===== src/UiAdaptor/Session/Waiting.antt =====
-- The wait for the second user.
use ioppytest.Prelude.{
  ℕ, zero, suc, ◌+◌, ◌≤◌, ◌≡◌, refl, ap, sym, ◌∙◌, true, false, Bool-cases, inl, inr, List, length,
  ltb, leb, Option, none, some, Text, if◌then◌else◌, Result, ok, raised, session_error, arith,
}
use ioppytest.UiAdaptor.Session.{
  Online, get_current_users_online, poll_users, joined, first_users, wait_for_second_user,
}

-- What ends a wait: an exception, or two users.
abbrev pub ending : Result (List Text) → Option (Result (List Text))
ending (raised e) = some (raised e)
ending (ok users) = if ltb (length users) 2 then none else some (ok users)

-- The first ending of `n` queries from the number `k` on.
abbrev pub first_ending : (n k : ℕ) → (ℕ → Result Online) → Option (Result (List Text))
first_ending zero k query = none
first_ending (suc n) k query = elim (ending (get_current_users_online (query k))) [
  | some r ↦ some r
  | none ↦ first_ending n (suc k) query
]

-- The users of the last query are not counted, its exception is raised.
abbrev pub expired : Result (List Text) → Result (List Text)
expired (raised e) = raised e
expired (ok users) = raised session_error

-- What a wait comes to, by its ending and the query that is sent at the end.
abbrev pub decided : Option (Result (List Text)) → Result (List Text) → Result (List Text)
decided (some r) last = r
decided none last = expired last

-- From the users of the query of number `k`, of which `n` are looked at.
abbrev from_here : (n k : ℕ) → Result (List Text) → (ℕ → Result Online) → Result (List Text)
from_here zero k r query = expired r
from_here (suc n) k r query = elim (ending r) [
  | some r' ↦ r'
  | none ↦ from_here n (suc k) (get_current_users_online (query (suc k))) query
]

abbrev going :
    (limit fuel k : ℕ) → Result (List Text) → (ℕ → Result Online) → Option (Result (List Text))
going limit fuel k (raised e) query = some (raised e)
going limit fuel k (ok users) query = joined limit (poll_users limit fuel k users query)

started :
    (limit fuel : ℕ) (r : Result (List Text)) (query : ℕ → Result Online)
    → first_users limit fuel r query ≡ going limit fuel 0 r query
unfolding first_users
started limit fuel (raised e) query = refl
started limit fuel (ok users) query = refl

decided_later :
    (o o' : Option (Result (List Text))) (later last : Result (List Text))
    → later ≡ decided o' last
    → Path
        (Result (List Text))
        (elim o [ some r' ↦ r' | none ↦ later ])
        (decided (elim o [ some r ↦ some r | none ↦ o' ]) last)
decided_later none o' later last h = h
decided_later (some r) o' later last h = refl

poll_past :
    (limit k fuel : ℕ) (users : List Text) (query : ℕ → Result Online)
    → k ≡ suc limit
    → 1 ≤ fuel
    → joined limit (poll_users limit fuel k users query) ≡ some (raised session_error)
unfolding poll_users joined
poll_past limit k zero users query e h = absurd (omega (arith, h))
poll_past limit k (suc fuel) users query e h = ground arith

within : (k limit : ℕ) → k ≤ limit → leb k limit ≡ true
within k limit h = ground arith

not_past : (limit k : ℕ) → k ≤ limit → ltb limit k ≡ false
not_past limit k h = ground arith

joined_again :
    (limit fuel k : ℕ) (r : Result (List Text)) (query : ℕ → Result Online)
    → joined limit
        (elim r [ raised e ↦ some (raised e) | ok users ↦ poll_users limit fuel k users query ])
      ≡ going limit fuel k r query
unfolding joined
joined_again limit fuel k (raised e) query = refl
joined_again limit fuel k (ok users) query = refl

poll_few :
    (limit fuel k : ℕ) (users : List Text) (query : ℕ → Result Online)
    → ltb (length users) 2 ≡ true
    → k ≤ limit
    → joined limit (poll_users limit (suc fuel) k users query)
      ≡ going limit fuel (suc k) (get_current_users_online (query (suc k))) query
unfolding poll_users
poll_few limit fuel k users query few h =
    rw (few, within k limit h, poll_users)
      (joined_again limit fuel (suc k) (get_current_users_online (query (suc k))) query)

poll_two :
    (limit fuel k : ℕ) (users : List Text) (query : ℕ → Result Online)
    → ltb (length users) 2 ≡ false
    → k ≤ limit
    → joined limit (poll_users limit (suc fuel) k users query) ≡ some (ok users)
unfolding poll_users joined
poll_two limit fuel k users query two h =
    rw (two, poll_users) (rw (not_past limit k h, joined) refl)

from_few :
    (n k : ℕ) (users : List Text) (query : ℕ → Result Online)
    → ltb (length users) 2 ≡ true
    → from_here (suc n) k (ok users) query
      ≡ from_here n (suc k) (get_current_users_online (query (suc k))) query
from_few n k users query few = rw (few, from_here) refl

from_two :
    (n k : ℕ) (users : List Text) (query : ℕ → Result Online)
    → ltb (length users) 2 ≡ false
    → from_here (suc n) k (ok users) query ≡ ok users
from_two n k users query two = rw (two, from_here) refl

going_lem :
    (limit n fuel k : ℕ) (r : Result (List Text)) (query : ℕ → Result Online)
    → n + k ≡ suc limit
    → suc n ≤ fuel
    → going limit fuel k r query ≡ some (from_here n k r query)
going_lem limit zero fuel k (raised x) query e h = refl
going_lem limit zero fuel k (ok users) query e h =
    poll_past limit k fuel users query (omega arith) (omega arith)
going_lem limit (suc n) fuel k (raised x) query e h = refl
going_lem limit (suc n) zero k (ok users) query e h = absurd (omega (arith, h))
going_lem limit (suc n) (suc fuel) k (ok users) query e h =
    elim (Bool-cases (ltb (length users) 2)) [
      | inl few ↦
          poll_few limit fuel k users query few (omega arith)
          ∙ going_lem limit n fuel (suc k) (get_current_users_online (query (suc k))) query
              (omega arith) (omega arith)
          ∙ ap some (sym (from_few n k users query few))
      | inr two ↦
          poll_two limit fuel k users query two (omega arith)
          ∙ ap some (sym (from_two n k users query two))
    ]

from_first_ending :
    (n k j : ℕ) (query : ℕ → Result Online)
    → n + k ≡ j
    → from_here n k (get_current_users_online (query k)) query
      ≡ decided (first_ending n k query) (get_current_users_online (query j))
from_first_ending zero k j query e =
    let e' : k ≡ j = omega arith in ap (λ i. expired (get_current_users_online (query i))) e'
from_first_ending (suc n) k j query e =
    decided_later (ending (get_current_users_online (query k))) (first_ending n (suc k) query)
      (from_here n (suc k) (get_current_users_online (query (suc k))) query)
      (get_current_users_online (query j)) (from_first_ending n (suc k) j query (omega arith))

-- The wait ends whatever the queries give, within two rounds more than the limit of retries: with
-- the first of the queries from 0 to the limit that raises an exception or gives two users, that
-- is with its exception or its users. If there is none, one query more is sent, and the wait ends
-- with its exception if it raises one, else with a `SessionError`, whatever users it gives.
pub wait_for_second_user-Ends :
    (limit fuel : ℕ) (query : ℕ → Result Online)
    → suc (suc limit) ≤ fuel
    → wait_for_second_user limit fuel query
      ≡ some (
          decided (first_ending (suc limit) 0 query) (get_current_users_online (query (suc limit))))
unfolding wait_for_second_user
wait_for_second_user-Ends limit fuel query h =
    started limit fuel (get_current_users_online (query 0)) query
    ∙ going_lem limit (suc limit) fuel 0 (get_current_users_online (query 0)) query (omega arith) h
    ∙ ap some (from_first_ending (suc limit) 0 (suc limit) query (omega arith))
