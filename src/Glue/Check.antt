-- ===== src/Glue/Check.antt =====
-- `Scope`, `check_sharded` and `check_sharded_safe` of src/bin/glue_check.rs. `F` is the type of f64
-- values, `P` that of shard paths, `R` that of records; dates are as in `Glue.Holes`.
pub mod Verdict
use series_factory.Prelude.{
  ℕ, zero, suc, ◌+◌, String, Bool, true, false, not, ◌||◌, Option, none, some, List, [], ◌∷◌,
  length, filter, is_empty, leb, ◌==◌, head?, if◌then◌else◌,
}
use series_factory.Prelude.Int.{ℤ}
use series_factory.Prelude.Outcome.{Outcome, ok, err}
use series_factory.Glue.Report.{Failure, error, panic, Note, TickerReport, base_report, mk_err}
use series_factory.Glue.Holes.{contains, missing_dates}
use series_factory.Glue.Scan.{Store, Scan, start, is_some, scan_shards, sharded_gap_ms}

pub record Scope : Type 0 where
  pub cutoff_ms : Option ℤ
  pub primaries : List ℕ

abbrev pub is_primary : Scope → ℕ → Bool
is_primary scope ticker_id = is_empty scope.primaries || contains scope.primaries ticker_id

-- `date_of` is the UTC date of an epoch millisecond.
abbrev pub cutoff_date : (ℤ → ℕ) → Option ℤ → Option ℕ
cutoff_date date_of none = none
cutoff_date date_of (some ms) = some (date_of ms)

abbrev pub in_window : {P : Type 0} → Option ℕ → List (ℕ × P) → List (ℕ × P)
in_window none shards = shards
in_window {P} (some from) shards = filter (λ (p : ℕ × P). leb from p.0) shards

abbrev pub dates : {P : Type 0} → List (ℕ × P) → List ℕ
dates [] = []
dates ((d, path) ∷ shards) = d ∷ dates shards

abbrev pub last_date : {P : Type 0} → ℕ → List (ℕ × P) → ℕ
last_date d [] = d
last_date d ((d', path) ∷ shards) = last_date d' shards

abbrev pub absent : String → Bool → String
absent status primary = if primary then status else "composed"

-- `status` and `note` behind the scan.
abbrev pub verdict : ℤ → Scope → ℕ → ℕ → ℕ → ℕ → List ℕ → Scan → String × Option Note
verdict gap_ms scope ticker_id present min_date max_date missing s =
    if s.total_records == 0
    then (
      absent "empty" (is_primary scope ticker_id),
      some (Note.no_records present (is_some scope.cutoff_ms)),
    )
    else elim s.monotone_violation_ix [
      | some ix ↦ ("monotone_violation", some (Note.decreased ix))
      | none ↦
          if not (is_empty missing)
          then (
            "missing_shards",
            some (Note.holes (length missing) min_date max_date (head? missing)),
          )
          else if not (s.gap_violations == 0)
          then ("gap", some (Note.gaps s.gap_violations gap_ms s.max_gap))
          else ("ok", none)
    ]

module _ {F P R : Type 0} (zero_f64 : F) (to_string : ℕ → String) (last_day : ℕ)
    (store : Store P R) where
  abbrev pub no_shards_report : Scope → ℕ → TickerReport F
  no_shards_report scope ticker_id = record (base_report zero_f64 to_string ticker_id) {
    status = absent "missing_live" (is_primary scope ticker_id);
    note = some (Note.no_shards (is_some scope.cutoff_ms));
  }

  abbrev pub scan_report : Scope → ℕ → ℕ → ℕ → ℕ → List ℕ → Scan → TickerReport F
  scan_report scope ticker_id present min_date max_date missing s =
      let (status, note) =
        verdict (sharded_gap_ms store) scope ticker_id present min_date max_date missing s in
      record (base_report zero_f64 to_string ticker_id) {
        shards_present = present;
        shards_missing = length missing;
        max_intra_gap_ms = s.max_gap;
        gap_violations = s.gap_violations;
        monotone_violation_ix = s.monotone_violation_ix;
        status = status;
        note = note;
      }

  abbrev pub scanned :
      (Scan → TickerReport F) → Outcome Failure Scan → Outcome Failure (TickerReport F)
  scanned report (ok s) = ok (report s)
  scanned report (err e) = err e

  -- The shards in the window.
  unfoldable pub check_shards : Scope → ℕ → List (ℕ × P) → Outcome Failure (TickerReport F)
  check_shards scope ticker_id [] = ok (no_shards_report scope ticker_id)
  check_shards scope ticker_id ((min_date, path) ∷ shards) =
      let all = (min_date, path) ∷ shards in
      let max_date = last_date min_date shards in
      let missing = missing_dates last_day (dates all) min_date max_date in
      scanned (scan_report scope ticker_id (length all) min_date max_date missing)
        (scan_shards store scope.cutoff_ms all start)

  module _ (date_of : ℤ → ℕ) where
    abbrev pub listed :
        Scope → ℕ → Outcome Failure (List (ℕ × P)) → Outcome Failure (TickerReport F)
    listed scope ticker_id (ok shards) =
        check_shards scope ticker_id (in_window (cutoff_date date_of scope.cutoff_ms) shards)
    listed scope ticker_id (err e) = err e

    unfoldable pub check_sharded : ℕ → Scope → Outcome Failure (TickerReport F)
    check_sharded ticker_id scope = listed scope ticker_id (store.list_shards ticker_id)

    -- An error and a panic both become an error report.
    abbrev pub or_error : ℕ → Outcome Failure (TickerReport F) → TickerReport F
    or_error ticker_id (ok r) = r
    or_error ticker_id (err e) =
        mk_err zero_f64 to_string (to_string ticker_id) (some ticker_id) (Note.failure e)

    unfoldable pub check_sharded_safe : ℕ → Scope → TickerReport F
    check_sharded_safe ticker_id scope = or_error ticker_id (check_sharded ticker_id scope)
