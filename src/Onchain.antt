-- ===== src/Onchain.antt =====
-- src/bin/onchain_backfill.rs: swap logs of on-chain pools to a composite index.
pub mod Words
pub mod Blocks
pub mod Pages
pub mod Limiter
pub mod Quote
pub mod Events
pub mod Quorum
pub mod Staged
pub mod Days
