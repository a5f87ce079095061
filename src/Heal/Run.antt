-- ===== src/Heal/Run.antt =====
-- `heal_ticker_shards` of src/idx_heal.rs, with `merge_into_staging_shard` and `detect_source_ms`.
pub mod Kept
pub mod Swapped
pub mod Committed
use series_factory.Prelude.{
  ℕ, zero, suc, ◌+◌, ◌-◌, ◌*◌, ◌/◌, ◌<◌, max, Bool, true, false, not, ◌&&◌, ◌||◌, Option, none,
  some, List, [], ◌∷◌, ◌++◌, length, filter, find?, any, is_empty, get_elem?, ltb, leb, ◌==◌,
  if◌then◌else◌,
}
use series_factory.Prelude.Int.{ℤ, pos, negsuc}
use series_factory.Prelude.Sort.{sort_by}
use series_factory.Prelude.Outcome.{Outcome, ok, err}
use series_factory.Files.{Io, done, fault, refused}
use series_factory.Mitch.{IndexRecord, Wire}
use series_factory.Resample.Bucket.{bin_start}
use series_factory.Heal.Bins.{group_by, resample_bins, dedupe_bins}
use series_factory.Heal.Chunk.{Pooling, ChunkError, merge_chunk}
use series_factory.Heal.Tree.{
  Dir, Tree, Action, continue, ◌>>=◌, ◌>>◌, pure, throw, shard_of, read_live, read_staging,
  write_staging, remove_staging, create_staging, back_up, promote,
}

pub record HealReport : Type 0 where
  pub ticker_id : ℕ
  pub records_in : ℕ
  pub records_out : ℕ
  pub shards_in : ℕ
  pub shards_out : ℕ
  pub misrouted_dropped : ℕ
  pub source_ms_detected : ℕ
  pub target_ms : ℕ
  pub resampled : Bool

-- The counters of the pass, and the days it has written to.
pub record Tally : Type 0 where
  pub records_in : ℕ
  pub records_out : ℕ
  pub misrouted_dropped : ℕ
  pub touched_dates : List ℕ

-- What the code takes from elsewhere: the time of a record, its day, the median of milliseconds, rounded,
-- and whether the writer lock is free.
pub record Env (H F : Type 0) : Type 0 where
  pub wire : Wire H
  pub pooling : Pooling F
  pub shard_ts_ms : IndexRecord H F → ℕ
  pub ts_ms_to_utc_date : ℕ → ℕ
  pub median_ms : List ℕ → ℕ
  pub lock_free : Bool

module _ {H F : Type 0} (env : Env H F) where
  -- The gaps of consecutive records; one that is not positive is 0 here, and dropped as such.
  abbrev pub deltas : List (IndexRecord H F) → List ℕ
  deltas [] = []
  deltas (a ∷ []) = []
  deltas (a ∷ b ∷ recs) = (env.shard_ts_ms b - env.shard_ts_ms a) ∷ deltas (b ∷ recs)

  abbrev pub median_of : List ℕ → Option ℕ
  median_of [] = none
  median_of (n ∷ ns) = some (env.median_ms (n ∷ ns))

  unfoldable pub detect_median_delta_ms : List (IndexRecord H F) → Option ℕ
  detect_median_delta_ms recs = median_of (filter (λ d. ltb 0 d && ltb d 5000) (deltas recs))

  abbrev pub add_sample : Option ℕ → List ℕ → List ℕ
  add_sample none samples = samples
  add_sample (some n) samples = n ∷ samples

  -- A shard that cannot be read gives no sample.
  abbrev pub sample_of : Io (List (IndexRecord H F)) → Option ℕ
  sample_of (done recs) = detect_median_delta_ms recs
  sample_of (fault e) = none

  abbrev pub samples : List ℕ → Action (IndexRecord H F) (List ℕ)
  samples [] t = (done [], t)
  samples (day ∷ days) t =
      let (r, t') = read_live day t in
      (samples days >>= λ later. pure (add_sample (sample_of r) later)) t'

  abbrev pub day_at : ℕ → List ℕ → List ℕ
  day_at i days = elim (get_elem? days i) [ none ↦ [] | some day ↦ day ∷ [] ]

  -- The indices of a `BTreeSet`, each once.
  abbrev pub first_middle_last : ℕ → List ℕ
  first_middle_last n =
      let middle = n / 2 in
      let last = n - 1 in
      if last == 0 then 0 ∷ [] else if middle == last then 0 ∷ last ∷ [] else 0 ∷ middle ∷ last ∷ []

  abbrev pub days_at : List ℕ → List ℕ → List ℕ
  days_at [] days = []
  days_at (i ∷ is) days = day_at i days ++ days_at is days

  unfoldable pub detect_source_ms : List ℕ → Action (IndexRecord H F) (Option ℕ)
  unfolding detect_median_delta_ms read_live
  detect_source_ms days =
      samples (days_at (first_middle_last (length days)) days) >>= λ found. pure (median_of found)

  abbrev pub by_time : List (IndexRecord H F) → List (IndexRecord H F)
  by_time = sort_by (λ a b. leb (env.shard_ts_ms a) (env.shard_ts_ms b))

  -- The records that the day has in staging, if it has a shard there.
  abbrev pub staged_before :
      ℕ → Option (List (IndexRecord H F)) → Action (IndexRecord H F) (List (IndexRecord H F))
  staged_before day none = pure []
  staged_before day (some _) = read_staging day

  unfoldable pub merge_into_staging_shard :
      ℕ → List (IndexRecord H F) → Action (IndexRecord H F) (Unit {0})
  merge_into_staging_shard day new_recs t =
      (staged_before day (shard_of day t.staging) >>= λ existing.
      write_staging day (by_time (existing ++ new_recs)))
        t

  abbrev pub restamped : IndexRecord H F → IndexRecord H F
  restamped r =
      let wire = env.wire in
      record r {
        header =
            wire.set_sequence
              (wire.header_new wire.type_index (wire.provider_id r.header)
                (wire.from_epoch_ms (env.shard_ts_ms r)) (max (wire.count r.header) 1))
              0;
      }

  abbrev pub stamp_all : List (IndexRecord H F) → List (ℕ × IndexRecord H F)
  stamp_all [] = []
  stamp_all (r ∷ recs) = (env.ts_ms_to_utc_date (env.shard_ts_ms r), restamped r) ∷ stamp_all recs

  abbrev pub strip : List (ℕ × IndexRecord H F) → List (IndexRecord H F)
  strip [] = []
  strip ((day, r) ∷ recs) = r ∷ strip recs

  -- The records by the day of the time that they had before the new header.
  abbrev pub by_date : List (IndexRecord H F) → List (ℕ × List (ℕ × IndexRecord H F))
  by_date recs = group_by (λ (r : ℕ × IndexRecord H F). r.0) (stamp_all recs) []

  abbrev pub touch : ℕ → List ℕ → List ℕ
  touch day days = if any (λ d. d == day) days then days else day ∷ days

  abbrev pub merge_days :
      List (ℕ × List (ℕ × IndexRecord H F)) → List ℕ → Action (IndexRecord H F) (List ℕ)
  merge_days [] touched = pure touched
  merge_days ((day, recs) ∷ rest) touched =
      merge_into_staging_shard day (strip recs) >>= λ _. merge_days rest (touch day touched)

  abbrev pub lift :
      Outcome ChunkError (List (IndexRecord H F))
      → Action (IndexRecord H F) (List (IndexRecord H F))
  lift (ok recs) = pure recs
  lift (err e) = throw refused

  unfoldable pub bins_of :
      Bool → ℕ → List (IndexRecord H F) → Outcome ChunkError (List (IndexRecord H F))
  bins_of resampled target_ms recs =
      let key = λ (r : IndexRecord H F). bin_start (env.shard_ts_ms r) target_ms in
      let merge = merge_chunk env.wire env.pooling env.shard_ts_ms target_ms in
      if resampled then resample_bins key merge recs else dedupe_bins key merge recs

  abbrev pub add_out : ℕ → Tally → Tally
  add_out n c = record c { records_out = c.records_out + n }

  abbrev pub add_in : ℕ → ℕ → Tally → Tally
  add_in n kept c = record c {
    records_in = c.records_in + n;
    misrouted_dropped = c.misrouted_dropped + (n - kept);
  }

  abbrev pub route : Bool → List (IndexRecord H F) → Tally → Action (IndexRecord H F) Tally
  route dry_run out c =
      if dry_run
      then pure c
      else merge_days (by_date out) c.touched_dates >>= λ days.
          pure (record c { touched_dates = days })

  -- The body of the loop for the records of one shard.
  unfoldable pub heal_shard :
      ℕ → ℕ → Bool → Bool → List (IndexRecord H F) → Tally → Action (IndexRecord H F) Tally
  unfolding bins_of merge_into_staging_shard
  heal_shard ticker_id target_ms resampled dry_run all_recs c =
      let recs = filter (λ (r : IndexRecord H F). r.index.ticker == ticker_id) all_recs in
      let c' = add_in (length all_recs) (length recs) c in
      if is_empty recs
      then pure c'
      else lift (bins_of resampled target_ms (by_time recs)) >>= λ out.
          route dry_run out (add_out (length out) c')

  abbrev pub heal_days : ℕ → ℕ → Bool → Bool → List ℕ → Tally → Action (IndexRecord H F) Tally
  heal_days ticker_id target_ms resampled dry_run [] c = pure c
  heal_days ticker_id target_ms resampled dry_run (day ∷ days) c = read_live day >>= λ recs.
      heal_shard ticker_id target_ms resampled dry_run recs c >>= λ c'.
      heal_days ticker_id target_ms resampled dry_run days c'

  abbrev pub days_of : Dir (IndexRecord H F) → List ℕ
  days_of [] = []
  days_of ((day, recs) ∷ dir) = day ∷ days_of dir

  abbrev pub unless :
      Bool → Action (IndexRecord H F) (Unit {0}) → Action (IndexRecord H F) (Unit {0})
  unless b m = if b then pure tt else m

  abbrev pub clear_stale : Action (IndexRecord H F) (Unit {0})
  clear_stale t = elim t.staging [ none ↦ (done tt, t) | some _ ↦ remove_staging t ]

  -- fs::copy of the current day's shard, as a read and a write.
  abbrev pub pass_through : Option ℕ → ℕ → Action (IndexRecord H F) (Unit {0})
  pass_through none today = pure tt
  pass_through (some day) today = read_live day >>= λ recs. write_staging today recs

  abbrev pub swap : Bool → Action (IndexRecord H F) (Unit {0})
  swap commit =
      if commit then (if env.lock_free then back_up >> promote else throw refused) else pure tt

  abbrev pub report_of : ℕ → ℕ → ℕ → ℕ → Bool → Tally → HealReport
  report_of ticker_id shards_in source_ms target resampled c = record {
    ticker_id = ticker_id;
    records_in = c.records_in;
    records_out = c.records_out;
    shards_in = shards_in;
    shards_out = length c.touched_dates;
    misrouted_dropped = c.misrouted_dropped;
    source_ms_detected = source_ms;
    target_ms = target;
    resampled = resampled;
  }

  abbrev pub or_target : ℕ → Option ℕ → ℕ
  or_target target none = target
  or_target target (some ms) = ms

  abbrev pub no_tally : Tally
  no_tally = record { records_in = 0; records_out = 0; misrouted_dropped = 0; touched_dates = [] }

  -- What follows the pass over the closed days.
  abbrev pub publish : Bool → Bool → Option ℕ → ℕ → Action (IndexRecord H F) (Unit {0})
  publish dry_run commit today_src today =
      if dry_run then pure tt else pass_through today_src today >> swap commit

  -- The pass over the closed days, up to the staging directory.
  abbrev pub rebuild : ℕ → ℕ → Bool → List ℕ → Action (IndexRecord H F) HealReport
  rebuild ticker_id target dry_run closed = detect_source_ms closed >>= λ detected.
      clear_stale >>= λ _. unless dry_run create_staging >>= λ _.
      let source_ms = or_target target detected in
      let resampled = ltb (source_ms + 10) target in
      heal_days ticker_id target resampled dry_run closed no_tally >>= λ c.
      pure (report_of ticker_id (length closed) source_ms target resampled c)

  abbrev pub heal_closed :
      ℕ → ℕ → ℕ → Bool → Bool → Option ℕ → List ℕ → Action (IndexRecord H F) HealReport
  heal_closed today ticker_id target dry_run commit today_src [] = throw refused
  heal_closed today ticker_id target dry_run commit today_src (day ∷ days) =
      rebuild ticker_id target dry_run (day ∷ days) >>= λ report.
      publish dry_run commit today_src today >>= λ _. pure report

  -- No directory and an empty one are refused.
  abbrev pub heal_dir :
      ℕ → ℕ → ℕ → Bool → Bool → Option (Dir (IndexRecord H F)) → Action (IndexRecord H F) HealReport
  heal_dir today ticker_id target dry_run commit none = throw refused
  heal_dir today ticker_id target dry_run commit (some dir) =
      heal_closed today ticker_id target dry_run commit (find? (λ d. leb today d) (days_of dir))
        (filter (λ d. ltb d today) (days_of dir))

  unfoldable pub heal_ticker_shards : ℕ → ℕ → ℤ → Bool → Bool → Action (IndexRecord H F) HealReport
  unfolding detect_source_ms heal_shard
  heal_ticker_shards today ticker_id (negsuc n) dry_run commit t = (fault refused, t)
  heal_ticker_shards today ticker_id (pos zero) dry_run commit t = (fault refused, t)
  heal_ticker_shards today ticker_id (pos (suc n)) dry_run commit t =
      heal_dir today ticker_id (suc n) dry_run commit t.live t
