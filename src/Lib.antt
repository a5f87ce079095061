-- ===== src/Lib.antt =====
-- Series Factory: the offline tools that build, repair and check the sharded history of price indexes.
-- A shard is one UTC day of fixed-size index records of one ticker, `<root>/indexes/<id>/<date>.idx`. The
-- tools rebuild closed days beside a live process that appends to the current day's shard, so most of what
-- is proved is about what survives: of the originals when a run is killed, of the current day always, and
-- of the records when a run is repeated.
--
-- The parts, and the files that model them:
--   Resample   src/bin/resample_idx.rs: `bin_start`, `stamp` and `resample_last_in_bucket` in
--              Resample/Bucket, `verify_invariants` in Resample/Verify, `median_spacing` and
--              `is_already_target` in Resample/Spacing, `resample_shard` with its renames in
--              Resample/Shard, `collect_shards` and `main` in Resample/Run.
--   Sharding   src/sharding.rs: `ShardedWriter` in Sharding/Writer, the writer that the offline builders
--              share; what one append does is in Sharding/Writer/Step, a whole run in Sharding/Writer/Days.
--              `shard_entry_for_idx` in Sharding/Entry.
--   Glue       src/bin/glue_check.rs: `severity` and `exit_code` in Glue/Severity, the reports in
--              Glue/Report, `check_sharded` in Glue/Holes (the calendar loop), Glue/Scan (the records) and
--              Glue/Check (the verdict), `run_sharded_all` in Glue/Batch.
--   Merge      src/bin/merge_idx.rs: the cycle loop of `main` in Merge/Cycle; what it writes goes to the
--              writer of Sharding.
--   Synth      src/bin/synth_backfill_from_idx.rs: `SynthS10State` in Synth/S10, `PeekStream` and `merge_pop` in
--              Synth/Legs, and one day of the s10 pass of `run_pair` in Synth/Day.
--   Seam       src/seam.rs: the s10 check across a shard boundary; Seam/Grid is what it reports.
--   Sources    src/sources/common.rs: the download with its retries in Sources/Download.
--   Heal       src/idx_heal.rs: `resample_bins` and `dedupe_bins` in Heal/Bins, `merge_chunk` in Heal/Chunk,
--              the directories in Heal/Tree, and `heal_ticker_shards` with what it calls in Heal/Run.
--   Onchain    src/bin/onchain_backfill.rs: the ABI words in Onchain/Words, the search for a block in
--              Onchain/Blocks, `paginate` in Onchain/Pages, `Limiter` in Onchain/Limiter, the agreement of
--              RPC answers in Onchain/Quorum, `Quote` in Onchain/Quote, a pool's events in Onchain/Events,
--              `Staged` in Onchain/Staged, `precheck` and `write_days` in Onchain/Days.
--   Bars       src/bar_construction/calibrate.rs: the count of bars per day in Bars/Daily.
--   Backfill   src/bin/backfill_all.rs: `HeavySemaphore` in Backfill/Gate, `month_windows` in Backfill/Months.
--   Calibrate  src/bin/nxr_calibrate.rs: `Staged` in Calibrate/Weights, `ParamsStore` in Calibrate/Store.
--   Integrity  src/bin/integrity_check.rs: `validate_file` and `exit_code` in Integrity/File, `check_vol` in
--              Integrity/Vol, `check_bar_ohlc` in Integrity/Bar, `check_s10` in Integrity/S10,
--              `scan_orphaned_bak` in Integrity/Orphan, `collect_files`, `check_dir` and the exit of `main`
--              over a directory in Integrity/Dir.
--   Migrate    src/bin/migrate_phantom_ids.rs: `migrate_tree` in Migrate/Phantom; Steps, Moved and Kept below it
--              say what its parts do to the shard of one day.
--   Files      the calls of `std::fs`, where each may fail and a run may stop before any of them; Files/Laws
--              has what a call does to each path.
--   Mitch      the records, the header and the clock of the `mitch` and `nxr_sdk` crates.
--   Prelude    shared names: lists and integers over the native numbers, flag bits, results, sorting.
--   Tests      the theorems at concrete inputs, over a sample of the parameters.
-- An operation has the source's name and takes the state it changes as its last argument; where it can fail
-- it returns the failure beside the state that it leaves. Child modules named for a property hold its proof.
--
-- Parameters. The crates `mitch`, `nxr_sdk`, `chrono`, `serde_json` and `ureq` are not part of the repository.
-- Their functions are the fields of `Wire`, `ShardIo`, `LogIo`, `Calendar`, `Store`, `Vwap`, `Env`,
-- `PoolMath`, `Dates`, `Format`, `Generator`, `BarOps`, `Replay`, `Layout`, `Host`, `Look` and
-- `migrate_tree`'s `Store`, or arguments such as the fetch of a page; what is relied on is stated in
-- `IsWire`, `IsShardIo`, `IsLogIo`, `IsCalendar`, `IsDates`, `IsBarOps`, `IsReal`, `IsHost`, `IsStore` and
-- `IsApart`, or as a hypothesis, and met by the samples in Tests. Values of f64 are of an abstract type,
-- with their operations in `Pooling`, `Float`, `Sigma` and `Real`: no theorem is about
-- their rounding; `IsReal` says what max and min of finite numbers are.
--
-- Bounds. Times are epoch milliseconds: natural numbers where they are decoded from the unsigned wire
-- clock, signed where the source compares or subtracts them. They stay far inside i64, so sums and
-- differences do not wrap here. A shard may hold any number of records.
-- Fuel. The calendar loop of Glue/Holes has two rounds more than there are days between the first and
-- last shard; it moves by a day in each and stops behind the last. The cycle loop of Merge/Cycle has a
-- round for every millisecond that the record is ahead of the boundary, and moves by at least one in each;
-- with a cycle of 0 ms the source's loop does not end, and the theorem asks for a cycle of at least one.
-- The search of Onchain/Blocks has a round for every block and one more, and each makes the range shorter;
-- the pagination of Onchain/Pages has a round for every block, and each page moves on by one at least.
-- The windows of Backfill/Months have a round for every day of the range, and each moves on by one at least.
-- The chunks of Sharding/Entry have a round for every byte and one more, and each takes one at least.
-- The merge of Synth/Legs has a round for each record and one more; the fill of Synth/Day has one for every
-- millisecond of the day that is left.
-- A budget of file calls stands for the moment at which a run is killed.
--
-- Words of the source that overflow wrap where a release build wraps them, and saturate where the source
-- says so (Heal/Chunk, Bars/Daily).
--
-- Not modelled: logs, printed and JSON or CSV reports, command lines, the configuration, and the other programs
-- of src/bin. Threads are modelled in Backfill/Gate; elsewhere shards are processed one by one, each touching
-- files of its own. The writer lock is held for a whole run, and Heal/Run asks whether it is free. In
-- Calibrate/Store the process is alone with its file. In Onchain the grid of prices is missing, in
-- Integrity check_idx and check_bars, in Migrate the journal, the loop of main and the other two migrations, in
-- Synth pass B (the renko bricks) and the writer of the shards.
pub mod Backfill
pub mod Bars
pub mod Calibrate
pub mod Files
pub mod Glue
pub mod Heal
pub mod Integrity
pub mod Merge
pub mod Migrate
pub mod Mitch
pub mod Onchain
pub mod Prelude
pub mod Resample
pub mod Seam
pub mod Sharding
pub mod Sources
pub mod Synth
pub mod Tests
