-- ===== src/Tests.antt =====
-- The theorems at concrete inputs, over a sample of the parameters.
pub mod Sample
mod Resample
mod Sharding
mod Glue
mod Merge
mod Seam
mod Sources
mod Onchain
mod Days
mod Heal
mod Bars
mod Integrity
mod Backfill
mod Calibrate
mod Migrate
mod Synth
