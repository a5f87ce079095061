-- ===== src/Merge.antt =====
-- src/bin/merge_idx.rs: the records of all providers of a ticker become one composite per cycle.
pub mod Cycle
