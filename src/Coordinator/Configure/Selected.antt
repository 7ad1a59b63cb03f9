-- ===== src/Coordinator/Configure/Selected.antt =====
-- The URLs of a session's configuration select the test cases that they name.
use mathlib.Core.Option
use ioppytest.Prelude.{
  ◌≡◌, refl, ap, ◌∙◌, false, List, [], ◌∷◌, ◌++◌, map, Option, some, Text, codes, has_code,
  every_in, lstrip, lstrip-append, url_path, ok,
}
use ioppytest.Testsuite.{Testsuite}
use ioppytest.Testsuite.Selection.{configure_testsuite}
use ioppytest.Coordinator.Configure.{
  Configuration, SessionEvent, testcase_of_url, or_all, session_tc_list, configure, configure_with,
  handle_testsuite_config,
}

abbrev pub prefix : Text
prefix = codes "/tests/"

-- An id whose first character is none of the prefix's.
abbrev pub StartsOutside : Text → Type 0
StartsOutside [] = ⊥
StartsOutside (c ∷ s) = has_code c prefix ≡ false

-- Each URL has the path `/tests/` and an id.
abbrev pub Name : List Text → List Text → Type 0
Name [] [] = Unit
Name [] (id ∷ ids) = ⊥
Name (url ∷ urls) [] = ⊥
Name (url ∷ urls) (id ∷ ids) = (url_path url ≡ prefix ++ id) × StartsOutside id × Name urls ids

prefix_stripped : (id : Text) → StartsOutside id → lstrip prefix (prefix ++ id) ≡ id
unfolding every_in has_code
prefix_stripped [] h = absurd h
prefix_stripped (c ∷ s) h = lstrip-append prefix prefix c s refl h

pub testcases_named : (urls ids : List Text) → Name urls ids → map testcase_of_url urls ≡ ids
unfolding testcase_of_url
testcases_named [] [] h = refl
testcases_named [] (id ∷ ids) h = absurd h
testcases_named (url ∷ urls) [] h = absurd h
testcases_named (url ∷ urls) (id ∷ ids) (p, q, h) =
    let e = ap (lstrip prefix) p ∙ prefix_stripped id q in λ i. e i ∷ testcases_named urls ids h i

listed :
    (ts : Testsuite) (urls : List Text) (id : Text) (ids : List Text)
    → Name urls (id ∷ ids)
    → session_tc_list (Configuration.testcases urls) ts ≡ ok (id ∷ ids)
unfolding session_tc_list or_all
listed ts urls id ids h = ap (λ l. ok (or_all l ts)) (testcases_named urls (id ∷ ids) h)

configured :
    (event : SessionEvent) (ts : Testsuite) (urls : List Text) (id : Text) (ids : List Text)
    (session_id users : Option Text)
    → event.configuration ≡ Configuration.testcases urls
    → event.session_id ≡ some session_id
    → event.users ≡ some users
    → Name urls (id ∷ ids)
    → handle_testsuite_config event ts
      ≡ configure_testsuite (some (id ∷ ids)) session_id users event.configuration_text ts
unfolding handle_testsuite_config configure_with configure
configured event ts urls id ids session_id users c s u h =
    ap (λ r. configure_with r event ts) (ap (λ x. session_tc_list x ts) c ∙ listed ts urls id ids h)
    ∙ rw s (rw u refl)
