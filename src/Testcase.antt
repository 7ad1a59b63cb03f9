-- ===== src/Testcase.antt =====
-- `class TestCase` of ioppytest/test_suite/testsuite.py. Steps are named by their position in
-- `sequence`: `step_it` is the position of the iterator, `current_step` that of the step object.
pub mod State
pub mod Reporting
pub mod Lifecycle
unfoldable pub use State.*
