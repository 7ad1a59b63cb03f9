-- ===== src/Examples/Suites.antt =====
-- Stepping, selection, reports and addresses of the sample suites.
use ioppytest.Prelude.{
  ◌≡◌, ◌≢◌, refl, ap, true, false, [], ◌∷◌, Option, none, some, Text, codes, ok, text_eq, lookup,
  mem, if◌then◌else◌, arith,
}
use mathlib.Core.Option
use ioppytest.Verdict.{blank, absorb}
use ioppytest.Step
use ioppytest.Step.{Step, StepState}
use ioppytest.Testcase
use ioppytest.Testcase.{Testcase, TcState}
use ioppytest.Testsuite
use ioppytest.Testsuite.{Testsuite, next_testcase, check_testsuite_finished, get_current_testcase}
use ioppytest.Testsuite.Order.Pending.{next_testcase_lem}
use ioppytest.Testsuite.Stepping.{take_step, get_current_step, finish_verify_step, shown}
use ioppytest.Testsuite.Stepping.Progress.{Takes, take_step-Takes}
use ioppytest.Testsuite.Stepping.Walk.{walk, walk-reinit}
use ioppytest.Testsuite.Stepping.Answers.{finish_verify_step_lem}
use ioppytest.Testsuite.Selection.{configure_testsuite}
use ioppytest.Testsuite.Selection.Skips.{configure_testsuite_skips, skip_once}
use ioppytest.Testsuite.Queries.{get_current_step_node, get_current_testcase_configuration}
use ioppytest.Step.Lifecycle.{IsWellTyped}
use ioppytest.Examples.{
  stimulus, client, server, config, suite, two_testcases, fresh, done, verify_step,
  verify_under_way,
}

stimulus_lem : (st : Option StepState) → IsWellTyped (stimulus st)
stimulus_lem st = record { verdict = refl; iut = λ e. cc }

walk-reinit_example : walk 3 (Testcase.reinit done) ≡ codes "S1" ∷ codes "S3" ∷ []
walk-reinit_example = walk-reinit 3 done (omega arith)

take_step-Takes_example : Takes fresh (take_step fresh) (some 0)
take_step-Takes_example = take_step-Takes fresh

abbrev verifying_suite : Testsuite
verifying_suite = suite ((codes "TC1", verify_under_way) ∷ []) (some (codes "TC1"))

finish_verify_step_example :
    ((finish_verify_step true verifying_suite).0 ≡ ok tt)
    × (get_current_step (finish_verify_step true verifying_suite).1
        ≡ some (record verify_step {
          partial_verdict = some (absorb 1 shown blank);
          state = some StepState.finished;
        }))
unfolding lookup text_eq Testsuite.Stepping.current_step_of
finish_verify_step_example =
    finish_verify_step_lem true verifying_suite (codes "TC1") verify_under_way verify_step blank
      refl refl refl refl refl refl

abbrev running : Testsuite
running = suite two_testcases (some (codes "TC1"))

configure_example :
    ((configure_testsuite (some (codes "TC1" ∷ [])) none none none running).0 ≡ ok tt)
    × ((j : Text)
        → lookup j
            (configure_testsuite
              (some (codes "TC1" ∷ []))
              none
              none
              none
              running).1.test_descriptions_dict
          ≡ (if mem j (codes "TC1" ∷ [])
              then lookup j two_testcases
              else Option.map skip_once (lookup j two_testcases)))
configure_example = configure_testsuite_skips (codes "TC1") [] none none none running

two_testcases_ne : two_testcases ≢ []
two_testcases_ne e = cc

next_testcase_example :
    next_testcase running
    ≡ (ok (some (codes "TC2")), record running { current_tc = some (codes "TC2") })
next_testcase_example = next_testcase_lem running two_testcases_ne

client≢server : client ≢ server
unfolding text_eq
client≢server e = let t : true ≡ false = ap (text_eq client) e in cc t

node_of_verify : get_current_step_node verifying_suite ≡ some client
unfolding get_current_step_node get_current_step get_current_testcase Testsuite.testcase_at lookup
    text_eq Testsuite.Stepping.current_step_of Step.init_iut
node_of_verify = refl

config_of_verify : get_current_testcase_configuration verifying_suite ≡ some config
unfolding get_current_testcase_configuration get_current_testcase Testsuite.testcase_at lookup
    text_eq
config_of_verify = refl
