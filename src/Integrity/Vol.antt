-- ===== src/Integrity/Vol.antt =====
-- `check_vol` of src/bin/integrity_check.rs. `F` is the type of f64 values; times are epoch milliseconds.
pub mod Accepted
use series_factory.Prelude.{
  ℕ, zero, suc, ◌+◌, ◌-◌, Bool, true, false, not, ◌||◌, Option, none, some, List, [], ◌∷◌, ◌++◌,
  leb, ltb, if◌then◌else◌,
}
use series_factory.Integrity.File.{Finding, Log, FileReport, Content, no_log, validate_file}

-- The tests and operations on f64: `below_zero` is `< 0.0`, `at_ceiling` is `>= VOL_MAX`, and `in_range` is
-- `(0.0..=0.5).contains`.
pub record Sigma (F : Type 0) : Type 0 where
  pub is_finite : F → Bool
  pub below_zero : F → Bool
  pub at_ceiling : F → Bool
  pub in_range : F → Bool
  pub plus : F → F → F
  pub smaller : F → F → Bool
  pub mean : F → ℕ → F
  pub zero_f : F
  pub infinity : F
  pub neg_infinity : F

pub record VolRecord (F : Type 0) : Type 0 where
  pub mts : ℕ
  pub sigma_pct : F

pub data Problem : Type 0 where
  truncated bad_epoch not_increasing not_finite outside_band outside_range : Problem
  vol_gap : ℕ → Problem

pub record VolStats (F : Type 0) : Type 0 where
  pub min_sigma_pct : F
  pub max_sigma_pct : F
  pub mean_sigma_pct : F

pub record VolState (F : Type 0) : Type 0 where
  pub vol_stats : VolStats F
  pub prev_mts : Option ℕ
  pub prev_ts_ms : Option ℕ
  pub sum_sigma : F

abbrev pub epoch_2000_ms : ℕ
epoch_2000_ms = 946684800000

abbrev pub future_slack_ms : ℕ
future_slack_ms = 300000

abbrev pub idx_max_gap_ms : ℕ
idx_max_gap_ms = 60000

-- `to_epoch_ms` is the wire clock's, and `now_ms` the time when the row is read.
module _ {F : Type 0} (fl : Sigma F) (to_epoch_ms : ℕ → ℕ) (now_ms : ℕ → ℕ) where
  abbrev pub at_row : ℕ → Problem → List (Finding Problem)
  at_row i problem = record { record_ix = some i; msg = problem } ∷ []

  abbrev pub epoch_errors : ℕ → ℕ → List (Finding Problem)
  epoch_errors i ts_ms =
      if ltb ts_ms epoch_2000_ms || ltb (now_ms i + future_slack_ms) ts_ms
      then at_row i bad_epoch
      else []

  abbrev pub order_errors : ℕ → Option ℕ → ℕ → List (Finding Problem)
  order_errors i none mts = []
  order_errors i (some prev) mts = if leb mts prev then at_row i not_increasing else []

  abbrev pub gap_warnings : ℕ → Option ℕ → ℕ → List (Finding Problem)
  gap_warnings i none ts_ms = []
  gap_warnings i (some prev) ts_ms =
      if ltb idx_max_gap_ms (ts_ms - prev) then at_row i (vol_gap (ts_ms - prev)) else []

  -- The value is tallied only where it is finite and in the sane band.
  abbrev pub in_band : F → Bool
  in_band sigma =
      if fl.is_finite sigma then not (fl.below_zero sigma || fl.at_ceiling sigma) else false

  abbrev pub sigma_errors : ℕ → F → List (Finding Problem)
  sigma_errors i sigma =
      if not (fl.is_finite sigma)
      then at_row i not_finite
      else if fl.below_zero sigma || fl.at_ceiling sigma
      then at_row i outside_band
      else if not (fl.in_range sigma)
      then at_row i outside_range
      else []

  abbrev pub tally : F → VolState F → VolState F
  tally sigma s = record s {
    sum_sigma = fl.plus s.sum_sigma sigma;
    vol_stats = record s.vol_stats {
      min_sigma_pct =
          if fl.smaller sigma s.vol_stats.min_sigma_pct then sigma else s.vol_stats.min_sigma_pct;
      max_sigma_pct =
          if fl.smaller s.vol_stats.max_sigma_pct sigma then sigma else s.vol_stats.max_sigma_pct;
    };
  }

  unfoldable pub check_vol_row : VolState F → ℕ → VolRecord F → VolState F × Log Problem
  check_vol_row s i r =
      let ts_ms = to_epoch_ms r.mts in
      let seen = record s { prev_mts = some r.mts; prev_ts_ms = some ts_ms } in
      (
        if in_band r.sigma_pct then tally r.sigma_pct seen else seen,
        record {
          errors =
              epoch_errors i ts_ms
              ++ (order_errors i s.prev_mts r.mts ++ sigma_errors i r.sigma_pct);
          warnings = gap_warnings i s.prev_ts_ms ts_ms;
        },
      )

  abbrev pub or_zero : F → F
  or_zero f = if fl.is_finite f then f else fl.zero_f

  abbrev pub finish_vol : VolState F → ℕ → Option (VolStats F) × Log Problem
  finish_vol s zero = (some s.vol_stats, no_log)
  finish_vol s (suc n) = (
    some (record {
      mean_sigma_pct = fl.mean s.sum_sigma (suc n);
      min_sigma_pct = or_zero s.vol_stats.min_sigma_pct;
      max_sigma_pct = or_zero s.vol_stats.max_sigma_pct;
    }),
    no_log,
  )

  abbrev pub vol_start : VolState F
  vol_start = record {
    vol_stats = record {
      min_sigma_pct = fl.infinity;
      max_sigma_pct = fl.neg_infinity;
      mean_sigma_pct = fl.zero_f;
    };
    prev_mts = none;
    prev_ts_ms = none;
    sum_sigma = fl.zero_f;
  }

  unfoldable pub check_vol : Content (VolRecord F) → FileReport Problem (VolStats F)
  unfolding validate_file check_vol_row
  check_vol file = validate_file check_vol_row truncated vol_start finish_vol file
