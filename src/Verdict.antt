-- ===== src/Verdict.antt =====
-- `class Verdict` of ioppytest/test_suite/testsuite.py: the value is an index into the known
-- verdict names, ordered from the mildest to the worst.
pub mod Worst
pub mod Names
pub mod Order
use ioppytest.Prelude.Calls.{◌>>=◌, ◌>>◌}
use ioppytest.Prelude.{
  ℕ, suc, List, [], ◌∷◌, Option, none, some, Text, codes, ◌==◌, leb, if◌then◌else◌, get_elem?,
  Result, ok, raised, assertion_error, index_error,
}

pub record Verdict : Type 0 where
  pub value : ℕ
  pub message : Text

-- `__values`
abbrev pub values : List Text
values =
    codes "none"
    ∷ codes "pass"
    ∷ codes "inconclusive"
    ∷ codes "fail"
    ∷ codes "aborted"
    ∷ codes "error"
    ∷ []

-- `names.index(name)`
unfoldable pub index_of : Text → List Text → Option ℕ
index_of name [] = none
index_of name (v ∷ vs) =
    let rest = index_of name vs in
    if v == name then some 0 else elim rest [ none ↦ none | some n ↦ some (suc n) ]

-- The place of a name among the known ones.
unfoldable pub severity : Text → Option ℕ
unfolding index_of
severity name = index_of name values

-- `if new_value >= self.__value`: the update after its `assert`.
unfoldable pub absorb : ℕ → Text → Verdict → Verdict
absorb new_value new_message v =
    if leb v.value new_value then record { value = new_value; message = new_message } else v

unfoldable pub update : Text → Text → Verdict → Result Verdict
update new_verdict new_message v = elim (severity new_verdict) [
  | none ↦ raised assertion_error
  | some new_value ↦ ok (absorb new_value new_message v)
]

abbrev pub blank : Verdict
blank = record { value = 0; message = [] }

-- `__init__`
unfoldable pub init : Option Text → Result Verdict
init none = ok blank
init (some initial_value) = update initial_value [] blank

-- `self.__values[n]`
unfoldable pub name_at : ℕ → Result Text
name_at n = elim (get_elem? values n) [ none ↦ raised index_error | some t ↦ ok t ]

unfoldable pub get_value : Verdict → Result Text
get_value v = name_at v.value

unfoldable pub get_message : Verdict → Text
get_message v = v.message

-- A run of updates, the loop by which a report collects its partial verdicts.
unfoldable pub update_all : List (Text × Text) → Verdict → Result Verdict
update_all [] v = ok v
update_all ((name, message) ∷ rest) v = do v' ← update name message v; update_all rest v'
