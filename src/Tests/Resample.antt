-- ===== src/Tests/Resample.antt =====
-- Down-sampling at concrete inputs.
use series_factory.Prelude.{
  ℕ, zero, suc, ◌≡◌, refl, String, none, some, List, [], ◌∷◌, arith, length, true, false, ltb,
  if◌then◌else◌,
}
use series_factory.Mitch.{IndexRecord}
use series_factory.Files.{FilePath, Files, World, same_path}
use series_factory.Resample.Bucket.{bin_start, stamp, resample_last_in_bucket}
use series_factory.Resample.Verify.{verify_invariants}
use series_factory.Resample.Verify.Passes.{verify_invariants-resample}
use series_factory.Resample.Shard.{Args, ShardRef, resample_shard}
use series_factory.Prelude.Parse.{parse_u64}
use series_factory.Resample.Run.{DirEntry, collect_shards, run}
use series_factory.Resample.Run.Live.{run-live}
use series_factory.Resample.Shard.Commit.{Recoverable, own_records, resample_shard-Recoverable}
use series_factory.Tests.Sample.{Header, wire, wire_laws, shard_io, shard_io_laws, grid, tick}

-- 100 ms is 6250 ticks: two records in one 200 ms bin, and one in a later bin.
abbrev day : List (IndexRecord Header ℕ)
day = tick 0 100 ∷ tick 6250 101 ∷ tick 25000 102 ∷ []

two_rows : length (resample_last_in_bucket wire day 200) ≡ 2
unfolding resample_last_in_bucket bin_start stamp
two_rows = refl

verify_invariants-resample_example :
    verify_invariants wire day (resample_last_in_bucket wire day 200) 200 ≡ []
verify_invariants-resample_example =
    verify_invariants-resample wire wire_laws 200 grid 4 day (omega arith) (omega arith)

abbrev shard : ShardRef
shard = record {
  ticker = "7";
  date = "2010-01-01";
  path = record { dir = "7"; stem = "2010-01-01"; suffix = "idx" };
}

abbrev commit_args : Args
commit_args = record {
  source_ms = 100;
  target_ms = 200;
  ticker = none;
  parallel = 2;
  dry_run = false;
  commit = true;
}

-- The run is killed after the first rename.
abbrev killed : World (IndexRecord Header ℕ)
killed = record { files = λ p. if same_path p shard.path then some day else none; budget = 4 }

resample_shard-Recoverable_example :
    Recoverable shard.path day
      (resample_last_in_bucket wire (own_records (parse_u64 "7") day) 200)
      (resample_shard wire shard_io (λ ds. 100) shard commit_args killed).1.files
resample_shard-Recoverable_example =
    resample_shard-Recoverable wire shard_io_laws (λ ds. 100) shard commit_args refl day killed refl

abbrev before_run : Files (IndexRecord Header ℕ)
before_run p = if same_path p shard.path then some day else none

-- Ticker 7 has the closed day of `shard` (day 0) and the live day 1.
abbrev live_path : FilePath
live_path = record { dir = "7"; stem = "2010-01-02"; suffix = "idx" }

abbrev listing : List (DirEntry ℕ)
listing =
    record { name = "7"; is_dir = true; shards = (0, shard.path) ∷ (1, live_path) ∷ [] }
    ∷ record { name = "report.csv"; is_dir = false; shards = [] }
    ∷ []

abbrev stem_of : ℕ → String
stem_of zero = "2010-01-01"
stem_of (suc n) = "2010-01-02"

run-live_example :
    (run wire shard_io (λ ds. 100) ltb stem_of (λ a b. true) 1 listing commit_args killed).1.files
      live_path
    ≡ killed.files live_path
run-live_example =
    run-live wire shard_io_laws (λ ds. 100) ltb stem_of (λ a b. true) 1 listing commit_args killed
      live_path (((λ past. refl), ((λ past. cc), tt)), (tt, tt))

collected : collect_shards ltb stem_of (λ a b. true) 1 none listing ≡ shard ∷ []
unfolding collect_shards parse_u64
collected = refl
