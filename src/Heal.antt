-- ===== src/Heal.antt =====
-- The in-place repair of a ticker's shards: src/idx_heal.rs.
pub mod Bins
pub mod Chunk
pub mod Tree
pub mod Run
