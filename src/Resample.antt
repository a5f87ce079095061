-- ===== src/Resample.antt =====
-- src/bin/resample_idx.rs: down-sampling of sharded `.idx` files, last record in each bucket.
pub mod Bucket
pub mod Verify
pub mod Spacing
pub mod Shard
pub mod Run
