-- ===== src/Glue/Check/Verdict.antt =====
-- The verdict of `check_sharded` of src/bin/glue_check.rs, in terms of the times of the records.
use series_factory.Prelude.{
  ◌≡◌, refl, sym, ◌∙◌, ap, Bool, true, false, not, ◌||◌, Option, none, some, List, [], ◌∷◌, arith,
  ℕ, suc, if◌then◌else◌, length, filter, any, is_empty, ◌==◌, String,
}
use series_factory.Prelude.Int.{ℤ, ltb_ℤ}
use series_factory.Prelude.Outcome.{Outcome, ok}
use series_factory.Glue.Severity.{Severity, pass, warn, error, severity}
use series_factory.Glue.Report.{Failure, TickerReport}
use series_factory.Glue.Holes.{missing_dates}
use series_factory.Glue.Scan.{Store, Scan, start, is_some, scan_records, sharded_gap_ms}
use series_factory.Glue.Scan.Flat.{contents, scan_shards-flat}
use series_factory.Glue.Scan.Gaps.{times, gaps, negative, first_drop, Found, scan-Found}
use series_factory.Glue.Check.{
  Scope, is_primary, cutoff_date, in_window, dates, last_date, absent, verdict, check_shards,
  check_sharded, scan_report, scanned, no_shards_report,
}

-- What is expected of the times `ts` and the missing dates.
abbrev pub expected : ℤ → Bool → List ℤ → List ℕ → Severity
expected gap_ms primary ts missing =
    if is_empty ts
    then if primary then warn else pass
    else if any negative (gaps ts)
    then error
    else if not (is_empty missing) || any (ltb_ℤ gap_ms) (gaps ts)
    then warn
    else pass

any-first_drop : (i : ℕ) (dts : List ℤ) → is_some (first_drop i dts) ≡ any negative dts
any-first_drop i [] = refl
any-first_drop i (dt ∷ dts) = ground (arith, any-first_drop (suc i) dts)

any-filter : (p : ℤ → Bool) (dts : List ℤ) → (length (filter p dts) == 0) ≡ not (any p dts)
any-filter p [] = refl
any-filter p (dt ∷ dts) = ground (arith, any-filter p dts)

severity-absent :
    (primary : Bool) → severity (absent "empty" primary) ≡ (if primary then warn else pass)
unfolding severity
severity-absent true = refl
severity-absent false = refl

severity-live :
    (primary : Bool) → severity (absent "missing_live" primary) ≡ (if primary then warn else pass)
unfolding severity
severity-live true = refl
severity-live false = refl

abbrev outcome_of : Bool → Bool → Bool → Option ℕ → Bool → Severity
outcome_of primary empty clear none none_missing =
    if empty
    then if primary then warn else pass
    else if not none_missing || not clear
    then warn
    else pass
outcome_of primary empty clear (some ix) none_missing =
    if empty then if primary then warn else pass else error

not-not : (a b : Bool) → (if a || not (not b) then warn else pass) ≡ (if a || b then warn else pass)
not-not a true = refl
not-not a false = refl

module _ (gap_ms : ℤ) (scope : Scope) (ticker_id present min_date max_date : ℕ) (s : Scan) where
  abbrev result : List ℕ → Severity
  result missing = severity (verdict gap_ms scope ticker_id present min_date max_date missing s).0

  severity-verdict :
      (missing : List ℕ) (empty clear : Bool) (ix : Option ℕ)
      → (s.total_records == 0) ≡ empty
      → (s.gap_violations == 0) ≡ clear
      → s.monotone_violation_ix ≡ ix
      → result missing ≡ outcome_of (is_primary scope ticker_id) empty clear ix (is_empty missing)
  unfolding severity
  severity-verdict missing true clear none e c h =
      rw e (severity-absent (is_primary scope ticker_id))
  severity-verdict missing true clear (some ix) e c h =
      rw e (severity-absent (is_primary scope ticker_id))
  severity-verdict missing false clear (some ix) e c h = rw (e, h) refl
  severity-verdict [] false true none e c h = rw (e, h, c) refl
  severity-verdict [] false false none e c h = rw (e, h, c) refl
  severity-verdict (d ∷ ds) false clear none e c h = rw (e, h) refl

  -- With what the scan found, that is the expected one.
  severity-Found :
      {P R : Type 0} (store : Store P R) (cutoff : Option ℤ) (missing : List ℕ) (ts : List ℤ)
      (ix : Option ℕ)
      → gap_ms ≡ sharded_gap_ms store
      → Found store cutoff ts s
      → first_drop 1 (gaps ts) ≡ ix
      → result missing ≡ expected gap_ms (is_primary scope ticker_id) ts missing
  severity-Found store cutoff missing [] ix e f h =
      severity-verdict missing true (s.gap_violations == 0) none f.1 refl f.0
  severity-Found store cutoff missing (t ∷ ts) (some ix) e f h =
      severity-verdict missing false (s.gap_violations == 0) (some ix) f.1 refl (f.0 ∙ h)
      ∙ rw (sym (any-first_drop 1 (gaps (t ∷ ts))), h) refl
  severity-Found store cutoff missing (t ∷ ts) none e f h =
      severity-verdict missing false (not (any (ltb_ℤ gap_ms) (gaps (t ∷ ts)))) none f.1 clear
        (f.0 ∙ h)
      ∙ not-not (not (is_empty missing)) (any (ltb_ℤ gap_ms) (gaps (t ∷ ts)))
      ∙ rw (sym (any-first_drop 1 (gaps (t ∷ ts))), h) refl
    where
      clear : (s.gap_violations == 0) ≡ not (any (ltb_ℤ gap_ms) (gaps (t ∷ ts)))
      clear = ap (λ n. n == 0) (f.2 h).1 ∙ rw (sym e) (any-filter (ltb_ℤ gap_ms) (gaps (t ∷ ts)))

abbrev pub missing_of : {P : Type 0} → ℕ → List (ℕ × P) → List ℕ
missing_of last_day [] = []
missing_of last_day ((min_date, path) ∷ shards) =
    missing_dates last_day (dates ((min_date, path) ∷ shards)) min_date (last_date min_date shards)

-- A check that ends with a report of this severity.
abbrev pub Ends : {F : Type 0} → Outcome Failure (TickerReport F) → Severity → Type 0
Ends {F} o sev = (r : TickerReport F) × (o ≡ ok r) × (severity r.status ≡ sev)

module _ {F P R : Type 0} (zero_f64 : F) (to_string : ℕ → String) (last_day : ℕ)
    (store : Store P R) where
  check_shards-Ends :
      (scope : Scope) (ticker_id : ℕ) (shards : List (ℕ × P)) (recs : List R)
      → contents store shards ≡ ok recs
      → Ends (check_shards zero_f64 to_string last_day store scope ticker_id shards) (
          expected
            (sharded_gap_ms store)
            (is_primary scope ticker_id)
            (times store scope.cutoff_ms recs)
            (missing_of last_day shards))
  unfolding check_shards
  check_shards-Ends scope ticker_id [] recs h = (
    no_shards_report zero_f64 to_string last_day store scope ticker_id,
    refl,
    severity-live (is_primary scope ticker_id) ∙ rw (sym empty) refl,
  )
    where
      empty : [] ≡ recs
      empty = cc h
  check_shards-Ends scope ticker_id ((min_date, path) ∷ shards) recs h = (
    scan_report zero_f64 to_string last_day store scope ticker_id (suc (length shards)) min_date
        (last_date min_date shards) missing found,
    ap (scanned zero_f64 to_string last_day store report)
        (scan_shards-flat store scope.cutoff_ms ((min_date, path) ∷ shards) start recs refl h),
    severity-Found (sharded_gap_ms store) scope ticker_id (suc (length shards)) min_date
        (last_date min_date shards) found store scope.cutoff_ms missing
        (times store scope.cutoff_ms recs) (first_drop 1 (gaps (times store scope.cutoff_ms recs)))
        refl (scan-Found store scope.cutoff_ms recs) refl,
  )
    where
      found : Scan
      found = scan_records store scope.cutoff_ms recs start

      missing : List ℕ
      missing = missing_of last_day ((min_date, path) ∷ shards)

      report : Scan → TickerReport F
      report =
          scan_report zero_f64 to_string last_day store scope ticker_id (suc (length shards))
            min_date (last_date min_date shards) missing

-- Where the shards in the window can be read, the check ends with a report, and its severity is decided by
-- the times of their records in the window and by the calendar: without such a time it is a warning for a
-- primary ticker and no finding for another; with a time before its predecessor it is an error, in whatever
-- shard; otherwise a missing date or a gap above the budget is a warning; and all else passes.
pub check_sharded-severity :
    {F P R : Type 0} (zero_f64 : F) (to_string : ℕ → String) (last_day : ℕ) (store : Store P R)
    (date_of : ℤ → ℕ) (scope : Scope) (ticker_id : ℕ) (found : List (ℕ × P)) (recs : List R)
    → store.list_shards ticker_id ≡ ok found
    → contents store (in_window (cutoff_date date_of scope.cutoff_ms) found) ≡ ok recs
    → Ends (check_sharded zero_f64 to_string last_day store date_of ticker_id scope) (
        expected
          (sharded_gap_ms store)
          (is_primary scope ticker_id)
          (times store scope.cutoff_ms recs)
          (missing_of last_day (in_window (cutoff_date date_of scope.cutoff_ms) found)))
unfolding check_sharded
check_sharded-severity zero_f64 to_string last_day store date_of scope ticker_id found recs e h =
    rw e (
      check_shards-Ends zero_f64 to_string last_day store scope ticker_id
        (in_window (cutoff_date date_of scope.cutoff_ms) found) recs h)
