-- ===== src/Glue/Batch.antt =====
-- `run_sharded_all` of src/bin/glue_check.rs, and the exit code that `run_sharded` makes of it. The
-- JSON report and the log are not modelled.
pub mod Exit
use text.Mathlib.Text.{◌==◌ as str_eq}
use series_factory.Prelude.{
  ℕ, zero, suc, ◌+◌, String, Bool, true, false, not, ◌&&◌, Option, none, some, List, [], ◌∷◌, ◌++◌,
  length, leb, if◌then◌else◌,
}
use series_factory.Prelude.Sort.{sort_by}
use series_factory.Prelude.Parse.{parse_u64}
use series_factory.Prelude.Outcome.{Outcome, ok, err}
use series_factory.Glue.Severity.{Severity, pass, warn, error, severity, exit_code}
use series_factory.Glue.Report.{Failure, TickerReport}

-- An entry of `<data_root>/indexes`; a name that is no UTF-8 is none.
pub record Entry : Type 0 where
  pub is_dir : Bool
  pub name : Option String

pub record AggregateReport (F : Type 0) : Type 0 where
  pub total : ℕ
  pub checked : ℕ
  pub passed : ℕ
  pub warned : ℕ
  pub errored : ℕ
  -- BTreeMap, by ascending key.
  pub by_status : List (String × ℕ)
  pub tickers : List (TickerReport F)

abbrev pub id_of : Entry → Option ℕ
id_of e = elim e.name [ none ↦ none | some n ↦ if e.is_dir then parse_u64 n else none ]

abbrev pub push_id : Option ℕ → List ℕ → List ℕ
push_id none ids = ids
push_id (some id) ids = id ∷ ids

-- `read_dir`, where each entry may fail.
abbrev pub read_ids : List (Outcome Failure Entry) → Outcome Failure (List ℕ)
read_ids [] = ok []
read_ids (err e ∷ entries) = err e
read_ids (ok e ∷ entries) = elim (read_ids entries) [
  | err f ↦ err f
  | ok ids ↦ ok (push_id (id_of e) ids)
]

-- *by_status.entry(status).or_default() += 1
abbrev pub count_status : (String → String → Bool) → String → List (String × ℕ) → List (String × ℕ)
count_status before status [] = (status, 1) ∷ []
count_status before status ((k, n) ∷ rest) =
    let more = count_status before status rest in
    if str_eq status k
    then (k, suc n) ∷ rest
    else if before status k
    then (status, 1) ∷ (k, n) ∷ rest
    else (k, n) ∷ more

abbrev pub empty_aggregate : {F : Type 0} → ℕ → AggregateReport F
empty_aggregate total = record {
  total = total;
  checked = 0;
  passed = 0;
  warned = 0;
  errored = 0;
  by_status = [];
  tickers = [];
}

abbrev pub count_severity : {F : Type 0} → Severity → AggregateReport F → AggregateReport F
count_severity pass agg = record agg { passed = suc agg.passed }
count_severity warn agg = record agg { warned = suc agg.warned }
count_severity error agg = record agg { errored = suc agg.errored }

-- `before` is the order of strings; `check` is `check_sharded_safe` with the scope.
module _ {F : Type 0} (before : String → String → Bool) (check : ℕ → TickerReport F) where
  abbrev pub add_report : TickerReport F → AggregateReport F → AggregateReport F
  add_report r agg = record (count_severity (severity r.status) agg) {
    checked = suc agg.checked;
    by_status = count_status before r.status agg.by_status;
    tickers = agg.tickers ++ r ∷ [];
  }

  abbrev pub check_ids : List ℕ → AggregateReport F → AggregateReport F
  check_ids [] agg = agg
  check_ids (id ∷ ids) agg = check_ids ids (add_report (check id) agg)

  abbrev pub check_all : Outcome Failure (List ℕ) → Outcome Failure (AggregateReport F)
  check_all (err e) = err e
  check_all (ok ids) = ok (check_ids (sort_by leb ids) (empty_aggregate (length ids)))

  -- `entries` is none where the directory does not exist.
  unfoldable pub run_sharded_all :
      Option (List (Outcome Failure Entry)) → Outcome Failure (AggregateReport F)
  run_sharded_all none = check_all (ok [])
  run_sharded_all (some entries) = check_all (read_ids entries)

  -- The exit code of the process; an error of `run_sharded_all` ends it with code 1.
  abbrev pub exit_of : Bool → Outcome Failure (AggregateReport F) → ℕ
  exit_of strict (err e) = 1
  exit_of strict (ok agg) = exit_code agg.errored agg.warned strict

  unfoldable pub exit_all : Bool → Option (List (Outcome Failure Entry)) → ℕ
  exit_all strict entries = exit_of strict (run_sharded_all entries)

-- `run_sharded` with one ticker.
unfoldable pub exit_one : Bool → String → ℕ
exit_one strict status = elim (severity status) [
  | pass ↦ 0
  | warn ↦ exit_code 0 1 strict
  | error ↦ 2
]
