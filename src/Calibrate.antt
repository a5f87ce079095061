-- ===== src/Calibrate.antt =====
-- The staged results of src/bin/nxr_calibrate.rs.
pub mod Weights
pub mod Store
