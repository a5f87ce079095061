-- ===== src/Glue/Batch/Exit.antt =====
-- The counts of `run_sharded_all` of src/bin/glue_check.rs, and the exit code made of them.

use series_factory.Prelude.{
  ℕ, suc, ◌+◌, ◌≡◌, refl, sym, ◌∙◌, ap, ap₂, String, Bool, ◌&&◌, ◌||◌, some, List, [], ◌∷◌, ◌++◌,
  map, arith, length, filter, any, leb, ltb, if◌then◌else◌, append_assoc, append-nil,
}
use series_factory.Prelude.Sort.{sort_by, insert_sorted}
use series_factory.Prelude.Outcome.{Outcome, ok}
use series_factory.Glue.Severity.{
  Severity, pass, warn, error, is_pass, is_warn, is_error, severity, exit_code,
}
use series_factory.Glue.Report.{Failure, TickerReport}
use series_factory.Glue.Batch.{
  Entry, AggregateReport, read_ids, count_status, empty_aggregate, add_report, check_ids, check_all,
  run_sharded_all, exit_all, exit_of,
}

-- The reports with a severity that a test accepts.
abbrev pub graded : {F : Type 0} → (Severity → Bool) → List (TickerReport F) → ℕ
graded {F} test rs = length (filter (λ (r : TickerReport F). test (severity r.status)) rs)

abbrev pub worst_exit : {F : Type 0} → Bool → List (TickerReport F) → ℕ
worst_exit {F} strict rs =
    let errors = any (λ (r : TickerReport F). is_error (severity r.status)) rs in
    let warnings = any (λ (r : TickerReport F). is_warn (severity r.status)) rs in
    if errors || (strict && warnings) then 2 else if warnings then 1 else 0

abbrev pub sum_counts : List (String × ℕ) → ℕ
sum_counts [] = 0
sum_counts ((status, n) ∷ rest) = n + sum_counts rest

sum-count_status :
    (before : String → String → Bool) (status : String) (counts : List (String × ℕ))
    → sum_counts (count_status before status counts) ≡ suc (sum_counts counts)
sum-count_status before status [] = omega arith
sum-count_status before status ((k, n) ∷ rest) = ground (arith, sum-count_status before status rest)

insert_sorted-length : (a : ℕ) (ids : List ℕ) → length (insert_sorted leb a ids) ≡ suc (length ids)
insert_sorted-length a [] = refl
insert_sorted-length a (b ∷ bs) = ground (arith, insert_sorted-length a bs)

sort_by-length : (ids : List ℕ) → length (sort_by leb ids) ≡ length ids
sort_by-length [] = refl
sort_by-length (a ∷ rest) =
    omega (arith, insert_sorted-length a (sort_by leb rest), sort_by-length rest)

any-graded :
    {F : Type 0} (test : Severity → Bool) (rs : List (TickerReport F))
    → ltb 0 (graded test rs) ≡ any (λ (r : TickerReport F). test (severity r.status)) rs
any-graded test [] = refl
any-graded test (r ∷ rs) = ground (arith, any-graded test rs)

graded_total :
    {F : Type 0} (rs : List (TickerReport F))
    → graded is_pass rs + graded is_warn rs + graded is_error rs ≡ length rs
graded_total [] = refl
graded_total (r ∷ rs) = one (severity r.status) refl (graded_total rs)
  where
    one :
        (sev : Severity)
        → severity r.status ≡ sev
        → graded is_pass rs + graded is_warn rs + graded is_error rs ≡ length rs
        → graded is_pass (r ∷ rs) + graded is_warn (r ∷ rs) + graded is_error (r ∷ rs)
          ≡ suc (length rs)
    one pass h k = rw h (omega (arith, k))
    one warn h k = rw h (omega (arith, k))
    one error h k = rw h (omega (arith, k))

-- The aggregate of the reports `rs`.
abbrev pub Aggregates : {F : Type 0} → List (TickerReport F) → AggregateReport F → Type 0
Aggregates rs agg =
    (agg.tickers ≡ rs)
    × (agg.total ≡ length rs)
    × (agg.checked ≡ length rs)
    × (agg.passed + agg.warned + agg.errored ≡ length rs)
    × (sum_counts agg.by_status ≡ length rs)

module _ {F : Type 0} (before : String → String → Bool) (check : ℕ → TickerReport F) where
  -- What a run of checks adds to the report.
  record Adds (ids : List ℕ) (agg agg' : AggregateReport F) : Type 0 where
    total_eq : agg'.total ≡ agg.total
    checked_eq : agg'.checked ≡ agg.checked + length ids
    passed_eq : agg'.passed ≡ agg.passed + graded is_pass (map check ids)
    warned_eq : agg'.warned ≡ agg.warned + graded is_warn (map check ids)
    errored_eq : agg'.errored ≡ agg.errored + graded is_error (map check ids)
    tickers_eq : agg'.tickers ≡ agg.tickers ++ map check ids

  check_ids-Adds :
      (ids : List ℕ) (agg : AggregateReport F) → Adds ids agg (check_ids before check ids agg)
  check_ids-Adds [] agg = record {
    total_eq = refl;
    checked_eq = omega arith;
    passed_eq = omega arith;
    warned_eq = omega arith;
    errored_eq = omega arith;
    tickers_eq = sym (append-nil agg.tickers);
  }
  check_ids-Adds (id ∷ ids) agg =
      more (severity (check id).status) refl
        (check_ids-Adds ids (add_report before check (check id) agg))
    where
      more :
          (sev : Severity)
          → severity (check id).status ≡ sev
          → Adds ids
              (add_report before check (check id) agg)
              (check_ids before check (id ∷ ids) agg)
          → Adds (id ∷ ids) agg (check_ids before check (id ∷ ids) agg)
      more pass h a = record {
        total_eq = a.total_eq ∙ rw h refl;
        checked_eq = omega (arith, a.checked_eq);
        passed_eq = a.passed_eq ∙ rw h (omega arith);
        warned_eq = a.warned_eq ∙ rw h (omega arith);
        errored_eq = a.errored_eq ∙ rw h (omega arith);
        tickers_eq = a.tickers_eq ∙ append_assoc agg.tickers (check id ∷ []) (map check ids);
      }
      more warn h a = record {
        total_eq = a.total_eq ∙ rw h refl;
        checked_eq = omega (arith, a.checked_eq);
        passed_eq = a.passed_eq ∙ rw h (omega arith);
        warned_eq = a.warned_eq ∙ rw h (omega arith);
        errored_eq = a.errored_eq ∙ rw h (omega arith);
        tickers_eq = a.tickers_eq ∙ append_assoc agg.tickers (check id ∷ []) (map check ids);
      }
      more error h a = record {
        total_eq = a.total_eq ∙ rw h refl;
        checked_eq = omega (arith, a.checked_eq);
        passed_eq = a.passed_eq ∙ rw h (omega arith);
        warned_eq = a.warned_eq ∙ rw h (omega arith);
        errored_eq = a.errored_eq ∙ rw h (omega arith);
        tickers_eq = a.tickers_eq ∙ append_assoc agg.tickers (check id ∷ []) (map check ids);
      }

  summed :
      (ids : List ℕ) (agg : AggregateReport F)
      → sum_counts (check_ids before check ids agg).by_status
        ≡ length ids + sum_counts agg.by_status
  summed [] agg = omega arith
  summed (id ∷ ids) agg = omega (
    arith,
    summed ids (add_report before check (check id) agg),
    sum-count_status before (check id).status agg.by_status,
  )

  -- Where the directory can be listed, every id of it is checked once, in ascending order; the three counts
  -- and the histogram each add up to the number of reports; and the exit code is 2 exactly when some report is
  -- an error, or a warning under `strict`, else 1 when some report is a warning, and 0 else.
  pub run_sharded_all-exit :
      (strict : Bool) (entries : List (Outcome Failure Entry)) (ids : List ℕ)
      → read_ids entries ≡ ok ids
      → ((agg : AggregateReport F) × (run_sharded_all before check (some entries) ≡ ok agg)
          × Aggregates (map check (sort_by leb ids)) agg)
        × (exit_all before check strict (some entries)
            ≡ worst_exit strict (map check (sort_by leb ids)))
  unfolding run_sharded_all exit_all exit_code
  run_sharded_all-exit strict entries ids h = (
    (
      agg,
      ap (check_all before check) h,
      (
        a.tickers_eq,
        omega (arith, a.total_eq, sort_by-length ids, length-map (sort_by leb ids)),
        omega (arith, a.checked_eq, length-map (sort_by leb ids)),
        omega (arith, a.passed_eq, a.warned_eq, a.errored_eq, graded_total reports),
        omega (
          arith,
          summed (sort_by leb ids) (empty_aggregate (length ids)),
          length-map (sort_by leb ids),
        ),
      ),
    ),
    ap (λ o. exit_of before check strict (check_all before check o)) h ∙ exits,
  )
    where
      reports : List (TickerReport F)
      reports = map check (sort_by leb ids)

      agg : AggregateReport F
      agg = check_ids before check (sort_by leb ids) (empty_aggregate (length ids))

      a : Adds (sort_by leb ids) (empty_aggregate (length ids)) agg
      a = check_ids-Adds (sort_by leb ids) (empty_aggregate (length ids))

      length-map : (xs : List ℕ) → length (map check xs) ≡ length xs
      length-map [] = refl
      length-map (x ∷ xs) = omega (arith, length-map xs)

      errored : agg.errored ≡ graded is_error reports
      errored = omega (arith, a.errored_eq)

      warned : agg.warned ≡ graded is_warn reports
      warned = omega (arith, a.warned_eq)

      errors :
          ltb 0 agg.errored ≡ any (λ (r : TickerReport F). is_error (severity r.status)) reports
      errors = ap (ltb 0) errored ∙ any-graded is_error reports

      warnings :
          ltb 0 agg.warned ≡ any (λ (r : TickerReport F). is_warn (severity r.status)) reports
      warnings = ap (ltb 0) warned ∙ any-graded is_warn reports

      exits : exit_code agg.errored agg.warned strict ≡ worst_exit strict reports
      exits = ap₂ (λ e w. if e || (strict && w) then 2 else if w then 1 else 0) errors warnings
