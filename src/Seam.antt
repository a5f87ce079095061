-- ===== src/Seam.antt =====
-- The s10 check of src/seam.rs, which the continuity binary and the audit share. `F` is the type of f64
-- values, `B` that of bars.
pub mod Grid
use series_factory.Prelude.{ℕ, Bool, ltb}
use series_factory.Prelude.Int.{ℤ, ◌-ℤ◌, abs}

pub record SeamBoundary (F : Type 0) : Type 0 where
  pub last : F
  pub first : F
  pub delta : F
  pub violated : Bool

-- S10_SEAM_JITTER_MS
abbrev pub s10_seam_jitter_ms : ℕ
s10_seam_jitter_ms = 1

-- `bar_ms_s10` is `nxr_sdk::shard::BAR_MS_S10`, and `as_f64` the conversion from i64.
module _ {F : Type 0} (bar_ms_s10 : ℤ) (as_f64 : ℤ → F) where
  unfoldable pub check_s10_cross_shard : ℤ → ℤ → SeamBoundary F
  check_s10_cross_shard prev_close_ts_ms next_close_ts_ms =
      let residual = next_close_ts_ms -ℤ prev_close_ts_ms -ℤ bar_ms_s10 in
      record {
        last = as_f64 prev_close_ts_ms;
        first = as_f64 next_close_ts_ms;
        delta = as_f64 residual;
        violated = ltb s10_seam_jitter_ms (abs residual);
      }

  unfoldable pub check_s10_cross_shard_bars : {B : Type 0} → (B → ℤ) → B → B → SeamBoundary F
  unfolding check_s10_cross_shard
  check_s10_cross_shard_bars close_time_ms prev_last next_first =
      check_s10_cross_shard (close_time_ms prev_last) (close_time_ms next_first)
