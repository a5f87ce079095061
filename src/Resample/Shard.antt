-- ===== src/Resample/Shard.antt =====
-- `resample_shard` of src/bin/resample_idx.rs with its helpers: filter, skip, down-sample, verify,
-- write beside the shard, and swap in. A report's `duration_ms` and the log lines are not modelled.
pub mod Commit
pub mod Complete
use series_factory.Prelude.{
  ℕ, zero, suc, ◌+◌, ◌-◌, ◌*◌, ◌^◌, String, Bool, true, false, not, ◌&&◌, Option, none, some, List,
  [], ◌∷◌, map, length, filter, ltb, leb, ◌==◌, if◌then◌else◌, is_empty,
}
use series_factory.Prelude.Parse.{parse_u64}
use series_factory.Mitch.{IndexRecord, Wire}
use series_factory.Files.{
  FilePath, Files, Fault, refused, not_found, Io, done, fault, Action, ◌>>=◌, ◌>>◌, pure, spend,
  rename, ShardIo,
}
use series_factory.Resample.Bucket.{resample_last_in_bucket}
use series_factory.Resample.Spacing.{median_spacing, is_already_target}
use series_factory.Resample.Verify.{Failure, verify_invariants}

pub record Args : Type 0 where
  pub source_ms : ℕ
  pub target_ms : ℕ
  pub ticker : Option String
  pub parallel : ℕ
  pub dry_run : Bool
  pub commit : Bool

pub record ShardRef : Type 0 where
  pub ticker : String
  pub date : String
  pub path : FilePath

-- A line of `invariants_failed`: a failed check, or the error that ended the shard.
pub data Note : Type 0 where
  invariant : Failure → Note
  error : Fault → Note

pub record ShardReport : Type 0 where
  pub ticker : String
  pub date : String
  pub bytes_old : ℕ
  pub count_old : ℕ
  pub count_new : ℕ
  pub bytes_new : ℕ
  pub median_spacing_old_ms : ℕ
  pub median_spacing_new_ms : ℕ
  pub dropped_misrouted : ℕ
  pub skipped_already_target : Bool
  pub invariants_passed : Bool
  pub invariants_failed : List Note

-- core::mem::size_of::<IndexRecord>()
abbrev pub rec_size : ℕ
rec_size = 56

-- `path.with_file_name(stem + "." + suffix)`, for a path whose suffix has one part.
unfoldable pub with_suffix : FilePath → String → FilePath
with_suffix path suffix = record path { suffix = suffix }

unfoldable pub empty_report : ShardRef → ℕ → ℕ → ShardReport
empty_report sh bytes_old dropped_misrouted = record {
  ticker = sh.ticker;
  date = sh.date;
  bytes_old = bytes_old;
  count_old = 0;
  count_new = 0;
  bytes_new = 0;
  median_spacing_old_ms = 0;
  median_spacing_new_ms = 0;
  dropped_misrouted = dropped_misrouted;
  skipped_already_target = false;
  invariants_passed = true;
  invariants_failed = [];
}

unfoldable pub err_report : ShardRef → Note → ShardReport
err_report sh msg = record {
  ticker = sh.ticker;
  date = sh.date;
  bytes_old = 0;
  count_old = 0;
  count_new = 0;
  bytes_new = 0;
  median_spacing_old_ms = 0;
  median_spacing_new_ms = 0;
  dropped_misrouted = 0;
  skipped_already_target = false;
  invariants_passed = false;
  invariants_failed = msg ∷ [];
}

abbrev pub len_of : {R : Type 0} → Option (List R) → Files R → Io ℕ × Files R
len_of none files = (fault not_found, files)
len_of (some content) files = (done (length content * rec_size), files)

-- fs::metadata(path)?.len()
unfoldable pub file_len : {R : Type 0} → FilePath → Action R ℕ
file_len p w = spend w.budget (λ files. len_of (files p) files) w.files

abbrev pub or_fault : {R A : Type 0} → Option A → Action R A
or_fault none w = (fault refused, w)
or_fault (some a) w = (done a, w)

module _ {H F : Type 0} (w : Wire H) (io : ShardIo (IndexRecord H F)) (median : List ℕ → ℕ) where
  -- The write of `.new` and, with `--commit`, the two renames.
  unfoldable pub swap_in :
      ShardRef → Args → List (IndexRecord H F) → Action (IndexRecord H F) (Unit {0})
  unfolding with_suffix
  swap_in sh args resampled = do
    io.write_atomic (with_suffix sh.path "idx.new") resampled
    if args.commit
        then (do
          rename sh.path (with_suffix sh.path "idx.bak")
          rename (with_suffix sh.path "idx.new") sh.path)
        else pure tt

  unfoldable pub skip_report : ShardRef → ℕ → ℕ → ℕ → ℕ → List (IndexRecord H F) → ShardReport
  skip_report sh bytes_old raw_count dropped spacing records = record {
    ticker = sh.ticker;
    date = sh.date;
    bytes_old = bytes_old;
    count_old = raw_count;
    count_new = length records;
    bytes_new = bytes_old;
    median_spacing_old_ms = spacing;
    median_spacing_new_ms = spacing;
    dropped_misrouted = dropped;
    skipped_already_target = true;
    invariants_passed = true;
    invariants_failed = [];
  }

  unfoldable pub final_report :
      ShardRef
      → ℕ
      → ℕ
      → List (IndexRecord H F)
      → List (IndexRecord H F)
      → List Failure
      → ShardReport
  final_report sh bytes_old dropped records resampled failures = record {
    ticker = sh.ticker;
    date = sh.date;
    bytes_old = bytes_old;
    count_old = length records;
    count_new = length resampled;
    bytes_new = length resampled * rec_size;
    median_spacing_old_ms = median_spacing w median records;
    median_spacing_new_ms = median_spacing w median resampled;
    dropped_misrouted = dropped;
    skipped_already_target = false;
    invariants_passed = is_empty failures;
    invariants_failed = map invariant failures;
  }

  -- From the records of the directory's ticker on.
  unfoldable pub resample_records :
      ShardRef → Args → ℕ → ℕ → ℕ → List (IndexRecord H F) → Action (IndexRecord H F) ShardReport
  resample_records sh args bytes_old raw_count dropped [] = pure (empty_report sh bytes_old dropped)
  resample_records sh args bytes_old raw_count dropped (r ∷ rs) =
      let records = r ∷ rs in
      let resampled = resample_last_in_bucket w records args.target_ms in
      let failures = verify_invariants w records resampled args.target_ms in
      if is_already_target w median records args.target_ms
      then pure
          (skip_report sh bytes_old raw_count dropped (median_spacing w median records) records)
      else (do
        if not args.dry_run && is_empty failures then swap_in sh args resampled else pure tt
        pure (final_report sh bytes_old dropped records resampled failures))

  unfoldable pub resample_shard : ShardRef → Args → Action (IndexRecord H F) ShardReport
  unfolding file_len resample_records swap_in
  resample_shard sh args = do
    expected_ticker ← or_fault (parse_u64 sh.ticker)
    bytes_old ← file_len sh.path
    raw ← io.read_shard_aligned sh.path
    let records = filter (λ r. r.index.ticker == expected_ticker) raw
    resample_records sh args bytes_old (length raw) (length raw - length records) records
