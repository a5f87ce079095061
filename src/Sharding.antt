-- ===== src/Sharding.antt =====
-- src/sharding.rs: the per-day rotating writer of the offline jobs, and the entry of
-- a shard in the manifest.
pub mod Writer
pub mod Entry
