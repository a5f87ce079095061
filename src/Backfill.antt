-- ===== src/Backfill.antt =====
-- Parts of src/bin/backfill_all.rs that plan the work: the gate for heavy steps, and the months.
pub mod Gate
pub mod Months
