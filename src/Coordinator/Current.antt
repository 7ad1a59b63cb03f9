-- ===== src/Coordinator/Current.antt =====
-- The current test case of a suite, before and after a change of it.
use ioppytest.Prelude.{◌≡◌, refl, ap, ◌∙◌, some, Text, ok, lookup, lookup-modify_key, text_eq_refl}
use ioppytest.Testcase
use ioppytest.Testcase.{Testcase, TcState}
use ioppytest.TestConfig.{TestConfig}
use ioppytest.Testsuite.{
  Testsuite, get_current_testcase, testcase_at, put, on_testcase, set_current_testcase_state,
}
use ioppytest.Testsuite.Queries.{get_current_testcase_configuration}

pub at_key :
    (k : Text) (tc tc' : Testcase) (ts : Testsuite)
    → lookup k ts.test_descriptions_dict ≡ some tc
    → lookup k (put k tc' ts).test_descriptions_dict ≡ some tc'
at_key k tc tc' ts e =
    lookup-modify_key k k (λ _. tc') ts.test_descriptions_dict ∙ rw (e, text_eq_refl k) refl

pub put_current :
    (k : Text) (tc tc' : Testcase) (ts : Testsuite)
    → ts.current_tc ≡ some k
    → lookup k ts.test_descriptions_dict ≡ some tc
    → get_current_testcase (put k tc' ts) ≡ some tc'
unfolding get_current_testcase testcase_at
put_current k tc tc' ts c e = ap (λ o. testcase_at o (put k tc' ts)) c ∙ at_key k tc tc' ts e

pub current_at :
    (k : Text) (tc : Testcase) (ts : Testsuite)
    → ts.current_tc ≡ some k
    → lookup k ts.test_descriptions_dict ≡ some tc
    → get_current_testcase ts ≡ some tc
unfolding get_current_testcase testcase_at
current_at k tc ts c e = ap (λ o. testcase_at o ts) c ∙ e

pub configured_at :
    (tc : Testcase) (ts : Testsuite) (config : TestConfig)
    → get_current_testcase ts ≡ some tc
    → lookup tc.configuration_id ts.tc_configs ≡ some config
    → get_current_testcase_configuration ts ≡ some config
unfolding get_current_testcase_configuration
configured_at tc ts config e f = rw (e, get_current_testcase_configuration) f

pub state_set_at :
    (state : TcState) (ts : Testsuite) (k : Text) (tc : Testcase)
    → ts.current_tc ≡ some k
    → lookup k ts.test_descriptions_dict ≡ some tc
    → set_current_testcase_state (some state) ts
      ≡ (ok tt, put k (Testcase.change_state (some state) tc) ts)
unfolding set_current_testcase_state on_testcase
state_set_at state ts k tc cur at =
    ap (λ o. on_testcase o (λ tc. (ok tt, Testcase.change_state (some state) tc)) ts) cur
    ∙ rw (at, on_testcase) refl
