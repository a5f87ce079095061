-- ===== src/Tests/Glue.antt =====
-- The continuity check at concrete inputs.
use series_factory.Prelude.{
  ℕ, ◌+◌, ◌≡◌, refl, true, none, some, List, [], ◌∷◌, map, arith, length, leb, ◌==◌, if◌then◌else◌,
}
use series_factory.Prelude.Int.{pos}
use series_factory.Prelude.Sort.{sort_by}
use series_factory.Prelude.Parse.{parse_u64}
use series_factory.Prelude.Outcome.{Outcome, ok}
use series_factory.Glue.Severity.{severity}
use series_factory.Glue.Report.{Failure, TickerReport, base_report}
use series_factory.Glue.Holes.{missing_dates}
use series_factory.Glue.Holes.Count.{missing_dates-count}
use series_factory.Glue.Scan.{Store, sharded_gap_ms}
use series_factory.Glue.Scan.Gaps.{times}
use series_factory.Glue.Check.{Scope, is_primary, check_sharded}
use series_factory.Glue.Check.Verdict.{Ends, expected, missing_of, check_sharded-severity}
use series_factory.Glue.Batch.{Entry, AggregateReport, run_sharded_all, exit_all}
use series_factory.Glue.Batch.Exit.{Aggregates, worst_exit, run_sharded_all-exit}

missing_dates-count_example : length (missing_dates 16 (12 ∷ 14 ∷ 16 ∷ []) 12 16) + 3 ≡ 5
missing_dates-count_example =
    missing_dates-count 16 12 (14 ∷ 16 ∷ []) (omega arith, (omega arith, tt)) (omega arith)

two_holes : missing_dates 16 (12 ∷ 14 ∷ 16 ∷ []) 12 16 ≡ 13 ∷ 15 ∷ []
unfolding missing_dates
two_holes = refl

-- Two shards of one record list each; the times are the records.
abbrev store : Store ℕ ℕ
store = record {
  list_shards = λ id. ok ((10, 0) ∷ (11, 1) ∷ []);
  read_shard_aligned = λ p. ok (if p == 0 then 1000 ∷ 2000 ∷ [] else 1500 ∷ []);
  shard_ts_ms = λ r. pos r;
  sentinel_interval_ms = pos 60000;
}

abbrev everything : Scope
everything = record { cutoff_ms = none; primaries = 7 ∷ [] }

check_sharded-severity_example :
    Ends {F = ℕ} (check_sharded 0 (λ n. "7") 99999 store (λ ms. 0) 7 everything) (
      expected
        (sharded_gap_ms store)
        (is_primary everything 7)
        (times store none (1000 ∷ 2000 ∷ 1500 ∷ []))
        (missing_of {P = ℕ} 99999 ((10, 0) ∷ (11, 1) ∷ [])))
check_sharded-severity_example =
    check_sharded-severity 0 (λ n. "7") 99999 store (λ ms. 0) everything 7 ((10, 0) ∷ (11, 1) ∷ [])
      (1000 ∷ 2000 ∷ 1500 ∷ []) refl refl

abbrev check : ℕ → TickerReport ℕ
check id = record (base_report 0 (λ n. "7") id) { status = if id == 5 then "gap" else "ok" }

abbrev entries : List (Outcome Failure Entry)
entries =
    ok (record { is_dir = true; name = some "8" })
    ∷ ok (record { is_dir = true; name = some "notes" })
    ∷ ok (record { is_dir = true; name = some "5" })
    ∷ []

run_sharded_all-exit_example :
    ((agg : AggregateReport ℕ) × (run_sharded_all (λ a b. true) check (some entries) ≡ ok agg)
      × Aggregates (map check (sort_by leb (8 ∷ 5 ∷ []))) agg)
    × (exit_all (λ a b. true) check true (some entries)
        ≡ worst_exit true (map check (sort_by leb (8 ∷ 5 ∷ []))))
unfolding parse_u64
run_sharded_all-exit_example =
    run_sharded_all-exit (λ a b. true) check true entries (8 ∷ 5 ∷ []) refl

strict_gap : worst_exit true (map check (sort_by leb (8 ∷ 5 ∷ []))) ≡ 2
unfolding base_report severity
strict_gap = refl
