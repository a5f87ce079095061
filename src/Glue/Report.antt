-- ===== src/Glue/Report.antt =====
-- `TickerReport`, `base_report` and `mk_err` of src/bin/glue_check.rs. `F` is the type of f64 values.
-- A note is the data that its text is made of.
use series_factory.Prelude.{ℕ, String, Bool, Option, none, some}
use series_factory.Prelude.Int.{ℤ, pos}

-- What a call of the shard store may end in beside its result.
pub data Failure : Type 0 where
  error : String → Failure
  panic : String → Failure

pub data Note : Type 0 where
  no_shards : Bool → Note
  no_records : ℕ → Bool → Note
  decreased : ℕ → Note
  holes : ℕ → ℕ → ℕ → Option ℕ → Note
  gaps : ℕ → ℤ → ℤ → Note
  failure : Failure → Note

pub record TickerReport (F : Type 0) : Type 0 where
  pub ticker : String
  pub ticker_id : Option ℕ
  pub t_cut : ℤ
  pub gap_ms : ℤ
  pub overlap_records : ℕ
  pub max_price_diff_bps : F
  pub max_ci_diff_pct : F
  pub monotone_violation_ix : Option ℕ
  pub shards_present : ℕ
  pub shards_missing : ℕ
  pub max_intra_gap_ms : ℤ
  pub gap_violations : ℕ
  pub status : String
  pub note : Option Note
  pub live_outage_records : ℕ
  pub backfill_outage_records : ℕ
  pub valid_sample_records : ℕ

-- `zero_f64` is 0.0, and `to_string` prints a number in decimal.
module _ {F : Type 0} (zero_f64 : F) (to_string : ℕ → String) where
  unfoldable pub base_report : ℕ → TickerReport F
  base_report ticker_id = record {
    ticker = to_string ticker_id;
    ticker_id = some ticker_id;
    t_cut = pos 0;
    gap_ms = pos 0;
    overlap_records = 0;
    max_price_diff_bps = zero_f64;
    max_ci_diff_pct = zero_f64;
    monotone_violation_ix = none;
    shards_present = 0;
    shards_missing = 0;
    max_intra_gap_ms = pos 0;
    gap_violations = 0;
    status = "";
    note = none;
    live_outage_records = 0;
    backfill_outage_records = 0;
    valid_sample_records = 0;
  }

  abbrev or_zero : Option ℕ → ℕ
  or_zero none = 0
  or_zero (some n) = n

  unfoldable pub mk_err : String → Option ℕ → Note → TickerReport F
  unfolding base_report
  mk_err ticker ticker_id note = record (base_report (or_zero ticker_id)) {
    ticker = ticker;
    ticker_id = ticker_id;
    status = "error";
    note = some note;
  }
