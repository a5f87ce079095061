-- ===== src/Integrity/S10.antt =====
-- `check_s10` of src/bin/integrity_check.rs: the bars of a .s10 file, a bucket of time each.
pub mod Sane
pub mod Spaced
pub mod Missing
use series_factory.Prelude.{
  ℕ, zero, suc, ◌+◌, ◌-◌, ◌*◌, ◌/◌, ◌%◌, Bool, true, false, not, ◌&&◌, ◌||◌, Option, none, some,
  List, [], ◌∷◌, ◌++◌, ltb, ◌==◌, if◌then◌else◌,
}
use series_factory.Integrity.File.{Finding, Log, FileReport, Content, no_log, flags, validate_file}
use series_factory.Integrity.Bar.{
  Real, Bar, BarProblem, truncated, not_kline, off_grid, imbalance, negative_spread,
  negative_return, large_drift, not_monotone, uneven, gap, gap_fraction, total_missing, Span, seen,
  ohlc_finite, ohlc_tests, span_hours, bars_per_day, zero_f,
}

pub record BarsStats (F : Type 0) : Type 0 where
  pub n_kline : ℕ
  pub rate : F

pub record S10State : Type 0 where
  pub n_kline : ℕ
  pub prev_close_ts_ms : Option ℕ
  pub n_gaps : ℕ
  pub span : Span

abbrev pub s10_start : S10State
s10_start = record {
  n_kline = 0;
  prev_close_ts_ms = none;
  n_gaps = 0;
  span = record { ts_first_ms = none; ts_last_ms = none };
}

abbrev pub kline : ℕ
kline = 0

abbrev pub ms_per_day : ℕ
ms_per_day = 86400000

-- `bucket_ms` is 10 000 in the tool.
module _ {F : Type 0} (fl : Real F) (bucket_ms : ℕ) where
  abbrev pub whole_buckets : ℕ → Bool
  whole_buckets delta = ltb 0 bucket_ms && (ltb 0 delta && delta % bucket_ms == 0)

  -- What the distance to the row before says: an error, or missing buckets.
  abbrev pub spacing_tests : Option ℕ → ℕ → List (Bool × BarProblem)
  spacing_tests none ts = []
  spacing_tests (some prev) ts =
      if ltb ts prev
      then (true, not_monotone) ∷ []
      else if ts - prev == bucket_ms
      then []
      else (not (whole_buckets (ts - prev)), uneven) ∷ []

  abbrev pub missing_before : Option ℕ → ℕ → ℕ
  missing_before none ts = 0
  missing_before (some prev) ts =
      if ltb ts prev
      then 0
      else if ts - prev == bucket_ms
      then 0
      else if whole_buckets (ts - prev)
      then (ts - prev) / bucket_ms - 1
      else 0

  abbrev pub has_gap : Option ℕ → ℕ → Bool
  has_gap none ts = false
  has_gap (some prev) ts =
      not (ltb ts prev) && (not (ts - prev == bucket_ms) && whole_buckets (ts - prev))

  abbrev pub micro_tests : Bar F → List (Bool × BarProblem)
  micro_tests bar =
      (
        fl.is_finite bar.vol_imbalance && fl.lt fl.one_and_slack (fl.abs bar.vol_imbalance),
        imbalance,
      )
      ∷ (fl.is_finite bar.avg_spread_bps && fl.lt bar.avg_spread_bps (zero_f fl), negative_spread)
      ∷ (fl.is_finite bar.max_abs_return && fl.lt bar.max_abs_return (zero_f fl), negative_return)
      ∷ []

  abbrev pub s10_errors : Option ℕ → Bar F → List (Bool × BarProblem)
  s10_errors prev bar =
      ((not (bar.kind == kline), not_kline) ∷ ohlc_tests fl bar)
      ++ ((ltb 0 bucket_ms && not (bar.open_time_ms % bucket_ms == 0), off_grid)
          ∷ (if ohlc_finite fl bar
              then micro_tests bar ++ spacing_tests prev bar.close_time_ms
              else []))

  abbrev pub s10_warnings : Option ℕ → Bar F → List (Bool × BarProblem)
  s10_warnings prev bar =
      if ohlc_finite fl bar
      then (fl.is_finite bar.drift && fl.lt (fl.of_ℕ 1) (fl.abs bar.drift), large_drift)
        ∷ (has_gap prev bar.close_time_ms, gap)
        ∷ []
      else []

  unfoldable pub check_s10_row : S10State → ℕ → Bar F → S10State × Log BarProblem
  check_s10_row s i bar = (
    record {
      n_kline = if bar.kind == kline then s.n_kline + 1 else s.n_kline;
      prev_close_ts_ms = some bar.close_time_ms;
      n_gaps =
          if ohlc_finite fl bar
          then s.n_gaps + missing_before s.prev_close_ts_ms bar.close_time_ms
          else s.n_gaps;
      span = seen fl bar s.span;
    },
    record {
      errors = flags i (s10_errors s.prev_close_ts_ms bar);
      warnings = flags i (s10_warnings s.prev_close_ts_ms bar);
    },
  )

  -- Under strict, a file that is less than half full, or more than full, fails.
  abbrev pub gap_fraction_high : Bool → F → Bool
  gap_fraction_high strict rate =
      let frac = fl.divide rate (fl.divide (fl.of_ℕ ms_per_day) (fl.of_ℕ bucket_ms)) in
      strict && (fl.lt (zero_f fl) rate && not (fl.le fl.half frac && fl.le frac fl.one_and_tiny))

  abbrev pub of_file : Bool → BarProblem → List (Finding BarProblem)
  of_file found problem = if found then record { record_ix = none; msg = problem } ∷ [] else []

  unfoldable pub finish_s10 : Bool → S10State → ℕ → Option (BarsStats F) × Log BarProblem
  finish_s10 strict s n =
      let rate = bars_per_day fl n (span_hours fl s.span) in
      (
        some (record { n_kline = s.n_kline; rate = rate }),
        record {
          errors = of_file (gap_fraction_high strict rate) gap_fraction;
          warnings = of_file (ltb 0 s.n_gaps) (total_missing s.n_gaps);
        },
      )

  unfoldable pub check_s10 : Bool → Content (Bar F) → FileReport BarProblem (BarsStats F)
  unfolding validate_file check_s10_row finish_s10
  check_s10 strict file = validate_file check_s10_row truncated s10_start (finish_s10 strict) file
