-- ===== src/Bars.antt =====
-- src/bar_construction/calibrate.rs: the count of bars per day that the solver calls.
pub mod Daily
