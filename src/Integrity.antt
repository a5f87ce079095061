-- ===== src/Integrity.antt =====
-- src/bin/integrity_check.rs: the driver of the file checks, the check of volatility files, and the exit code.
pub mod File
pub mod Vol
pub mod Bar
pub mod S10
pub mod Orphan
pub mod Dir
