-- ===== src/Fsm.antt =====
-- ioppytest/test_coordinator/states_and_transitions.py: the tables of the coordinator's state
-- machine, in their order. The machine that runs them is the package `transitions`; what is said
-- here is what the tables offer.
pub mod Tables
pub mod Edges
pub mod Listed
pub mod Graph
pub mod Machine
