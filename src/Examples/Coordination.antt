-- ===== src/Examples/Coordination.antt =====
-- Callbacks of the coordinator on the sample test cases and suites.
use ioppytest.Prelude.{◌≡◌, [], ◌∷◌, codes, ok}
use ioppytest.Testcase.{Report}
use ioppytest.Testcase.Reporting.Final.{Reports}
use ioppytest.Coordinator.{SnifferResponse, TatResponse, conclude_testcase, analyzed}
use ioppytest.Coordinator.Finish.{reported, conclude_testcase-worst}
use ioppytest.Examples.{done}
use ioppytest.Examples.Reports.{done-CanReport, one_pass}

conclude_testcase-worst_example :
    (r : Report) × (conclude_testcase SnifferResponse.captured
        (TatResponse.verdicts ((codes "pass", []) ∷ []))
        done
      ≡ (ok tt, reported (analyzed done) r))
    × Reports 3 r
conclude_testcase-worst_example =
    conclude_testcase-worst done (codes "pass", []) [] (1 ∷ []) done-CanReport one_pass
