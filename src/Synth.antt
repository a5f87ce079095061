-- ===== src/Synth.antt =====
-- Pass A of `run_pair` in src/bin/synth_backfill_from_idx.rs: the s10 bars of a synthetic pair for one
-- day, from the records of its two legs.
pub mod S10
pub mod Legs
pub mod Day
