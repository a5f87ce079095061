-- ===== src/Glue.antt =====
-- src/bin/glue_check.rs: the continuity check of the `.idx` shards of one ticker or of all.
pub mod Severity
pub mod Report
pub mod Holes
pub mod Scan
pub mod Check
pub mod Batch
