-- ===== src/Tests/Integrity.antt =====
-- The theorems about src/bin/integrity_check.rs at concrete inputs: a volatility is a number of basis points.
use series_factory.Prelude.{
  ℕ, Bool, Option, ◌||◌, ◌+◌, ◌-◌, ◌*◌, ◌/◌, ◌≡◌, refl, ◌≢◌, true, false, none, some, List, [], ◌∷◌,
  ◌++◌, map, arith, if◌then◌else◌, ltb, leb,
}
use series_factory.Prelude.Outcome.{ok, err}
use series_factory.Integrity.File.{Log, Content, whole, no_log, each_record, exit_code}
use series_factory.Integrity.Bar.{Real, Bar, BarProblem, gap, off_grid, uneven, total_missing}
use series_factory.Integrity.S10.{s10_start, check_s10_row, check_s10, of_file}
use series_factory.Integrity.S10.Missing.{check_s10_missing}
use series_factory.Integrity.Orphan.{Entry, scan_entries, scan_orphaned_bak}
use series_factory.Integrity.Orphan.Healed.{AllHealed, scan_orphaned_bak-AllHealed}
use series_factory.Integrity.Dir.{
  file, dir, Nodes, nil, cons, Checks, AggregateReport, collect_files, check_dir, unhealed,
  dir_exit,
}
use series_factory.Integrity.Dir.Exit.{dir_exit-check_dir}
use series_factory.Integrity.Vol.{Sigma, VolRecord, check_vol}

abbrev points : Sigma ℕ
points = record {
  is_finite = λ f. true;
  below_zero = λ f. false;
  at_ceiling = λ f. leb 50000 f;
  in_range = λ f. leb f 5000;
  plus = λ a b. a + b;
  smaller = λ a b. ltb a b;
  mean = λ a n. a / n;
  zero_f = 0;
  infinity = 100000;
  neg_infinity = 0;
}

abbrev clock : ℕ → ℕ
clock t = 1262304000000 + t

abbrev now : ℕ → ℕ
now i = 1793000000000

abbrev rows : Content (VolRecord ℕ)
rows = whole (record { mts = 5; sigma_pct = 40 } ∷ record { mts = 10005; sigma_pct = 60 } ∷ [])

passes : exit_code (map (check_vol points clock now) (rows ∷ [])) true ≢ 2
unfolding exit_code check_vol
passes h = ground arith

-- Prices are whole numbers.
abbrev whole_numbers : Real ℕ
whole_numbers = record {
  is_finite = λ f. true;
  lt = ltb;
  le = leb;
  fmax = λ a b. if ltb a b then b else a;
  fmin = λ a b. if ltb a b then a else b;
  abs = λ f. f;
  divide = λ a b. a / b;
  of_ℕ = λ n. n;
  of_diff = λ b a. b - a;
  one_and_slack = 1;
  half = 1;
  one_and_tiny = 1;
}

abbrev bucket : ℕ → Bar ℕ
bucket t = record {
  kind = 0;
  open_price = 7;
  high = 9;
  low = 6;
  close = 8;
  open_time_ms = t;
  close_time_ms = t + 10000;
  realized_var = 1;
  bipower_var = 1;
  drift = 0;
  vol_imbalance = 1;
  avg_spread_bps = 2;
  max_abs_return = 1;
}

-- Two buckets, three missing, and one more.
abbrev buckets : List (Bar ℕ)
buckets = bucket 20000 ∷ bucket 60000 ∷ []

no_errors : (check_s10 whole_numbers 10000 false (whole (bucket 10000 ∷ buckets))).log.errors ≡ []
unfolding check_s10
no_errors = refl

warns_of_missing :
    (check_s10 whole_numbers 10000 false (whole (bucket 10000 ∷ buckets))).log.warnings
    ≡ record { record_ix = some 2; msg = gap }
      ∷ record { record_ix = none; msg = total_missing 3 }
      ∷ []
unfolding check_s10
warns_of_missing = refl

refuses_uneven :
    (check_s10 whole_numbers 10000 false (whole (bucket 10000 ∷ bucket 10001 ∷ []))).log.errors
    ≡ record { record_ix = some 1; msg = off_grid }
      ∷ record { record_ix = some 1; msg = uneven }
      ∷ []
unfolding check_s10
refuses_uneven = refl

abbrev rows_log : Log BarProblem
rows_log =
    (each_record (check_s10_row whole_numbers 10000) s10_start 0 (bucket 10000 ∷ buckets) no_log).1

check_s10_missing_example :
    (m : ℕ) × (70000 ≡ 20000 + (m + 2) * 10000)
    × ((check_s10 whole_numbers 10000 false (whole (bucket 10000 ∷ buckets))).log.warnings
        ≡ rows_log.warnings ++ of_file whole_numbers 10000 (ltb 0 m) (total_missing m))
check_s10_missing_example =
    check_s10_missing whole_numbers 10000 (omega arith) (bucket 10000) buckets no_errors

-- The shard is staler than its backup in the first directory, and fresher in the second.
abbrev live : List (Entry ℕ)
live =
    record {
      is_dir = true;
      idx = some (record { mtime = some 5; content = 1 });
      bak = some (record { mtime = some 9; content = 2 });
      renames = true;
    }
    ∷ record {
      is_dir = true;
      idx = some (record { mtime = some 9; content = 3 });
      bak = some (record { mtime = some 5; content = 4 });
      renames = true;
    }
    ∷ []

finds_orphan :
    (scan_orphaned_bak true (some live)).1
    ≡ record { idx_mtime = some 5; bak_mtime = 9; promoted = true } ∷ []
unfolding scan_orphaned_bak
finds_orphan = refl

scan_orphaned_bak-AllHealed_example :
    ((scan_orphaned_bak false (some live)).0 ≡ some live)
    × AllHealed live (scan_entries true live).0
    × ((scan_orphaned_bak true (some live)).0 ≡ some (scan_entries true live).0)
    × ((heal : Bool)
        → scan_orphaned_bak heal (scan_orphaned_bak true (some live)).0
          ≡ ((scan_orphaned_bak true (some live)).0, []))
scan_orphaned_bak-AllHealed_example = scan_orphaned_bak-AllHealed live (
  ((5, refl, omega arith), (9, refl, omega arith), refl),
  (((9, refl, omega arith), (5, refl, omega arith), refl), tt),
)

-- A file of bars that no check can open, and one of another kind.
abbrev tree : Nodes
tree =
    cons (dir (cons (file (record { path = "a.idx"; ext = some "idx"; date = some 3 })) nil))
      (cons (file (record { path = "a.json"; ext = some "json"; date = none })) nil)

abbrev checks : Checks ℕ ℕ ℕ
checks = record {
  idx = λ f. ok (record { report = record { records = 4; log = no_log; stats = none }; bytes = 8 });
  bars = λ f. err (some 1);
  s10 = λ f. err (some 1);
  vol = λ f. err (some 1);
}

abbrev of_error : Option ℕ → ℕ
of_error e = 0

abbrev checked : AggregateReport ℕ ℕ
checked = check_dir of_error checks (λ f g. true) none tree false (some live)

exits : dir_exit checked false ≡ 2
unfolding check_dir dir_exit collect_files scan_orphaned_bak exit_code
exits = refl

dir_exit-check_dir_example :
    (checked.summary.n_clean + checked.summary.n_with_errors + checked.summary.n_with_warnings
      ≡ checked.summary.n_files)
    × (dir_exit checked true ≡ (
        if ltb 0 checked.summary.n_with_errors || unhealed checked.orphaned_bak
        then 2
        else if ltb 0 checked.summary.n_with_warnings
        then 2
        else 0))
dir_exit-check_dir_example =
    dir_exit-check_dir of_error checks (λ f g. true) none tree false (some live) true
