-- ===== src/Testsuite.antt =====
-- `class TestSuite` of ioppytest/test_suite/testsuite.py. The objects of `test_descriptions_dict`
-- are named by their keys: `current_tc` is the key of the test case that the attribute refers to.
pub mod State
pub mod Order
pub mod Stepping
pub mod Selection
pub mod Reports
pub mod Queries
pub mod Views
unfoldable pub use State.*
unfoldable pub use Order.{next_testcase, go_to_testcase, check_testsuite_finished}
