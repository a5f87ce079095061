-- ===== src/Heal/Chunk/Settled.antt =====
-- The bins of src/idx_heal.rs with their own merge.
use series_factory.Prelude.{ℕ, ◌≡◌, sym, ◌∙◌, ap, subst, fun_ext, true, List, [], ◌∷◌, arith, ◌==◌}
use series_factory.Prelude.Outcome.{Outcome, ok, err}
use series_factory.Mitch.{IndexRecord, Wire, IsWire}
use series_factory.Resample.Bucket.{bin_start, ts_of}
use series_factory.Resample.Bucket.Runs.{
  OnGrid, bin-fits, to-from_bin, bin_start_of_aligned, bin_start-mod,
}
use series_factory.Heal.Bins.{dedupe_bins}
use series_factory.Heal.Bins.Again.{StaysInBin, dedupe_bins_idempotent}
use series_factory.Heal.Chunk.{
  Pooling, ChunkError, Pool, pool_chunk, empty_pool, finish, merged, merge_chunk,
}

module _ {H F : Type 0} (w : Wire H) (laws : IsWire w) (fl : Pooling F) (target_ms : ℕ)
    (grid : OnGrid laws target_ms) where
  abbrev pub bin_key : (IndexRecord H F → ℕ) → IndexRecord H F → ℕ
  bin_key shard_ts_ms r = bin_start (shard_ts_ms r) target_ms

  ts-merged :
      (r : IndexRecord H F) (chunk : List (IndexRecord H F)) (p : Pool F)
      → ts_of w (merged w fl (bin_key (ts_of w) r) r chunk p) ≡ bin_key (ts_of w) r
  ts-merged r chunk p =
      ap w.to_epoch_ms (
        laws.timestamp-set_sequence _ 0
        ∙ laws.timestamp-new _ _ _ _ (bin-fits w laws target_ms grid r))
      ∙ to-from_bin w laws target_ms grid r

  bin-bin : (r : IndexRecord H F) → bin_start (bin_key (ts_of w) r) target_ms ≡ bin_key (ts_of w) r
  bin-bin r =
      bin_start_of_aligned (bin_key (ts_of w) r) target_ms (bin_start-mod (ts_of w r) target_ms)
        grid.positive

  finish-stays :
      (k : ℕ) (r : IndexRecord H F) (chunk : List (IndexRecord H F)) (m : IndexRecord H F)
      (o : Outcome ChunkError (Pool F))
      → (bin_key (ts_of w) r == k) ≡ true
      → finish w fl (bin_key (ts_of w) r) r chunk o ≡ ok m
      → bin_key (ts_of w) m ≡ k
  finish-stays k r chunk m (err e) own h = cc h
  finish-stays k r chunk m (ok p) own h =
      let same : merged w fl (bin_key (ts_of w) r) r chunk p ≡ m = cc h in
      let here : bin_key (ts_of w) r ≡ k = ground arith in
      ap (bin_key (ts_of w)) (sym same)
      ∙ ap (λ t. bin_start t target_ms) (ts-merged r chunk p)
      ∙ bin-bin r
      ∙ here

  merge_chunk-StaysInBin : StaysInBin (bin_key (ts_of w)) (merge_chunk w fl (ts_of w) target_ms)
  unfolding merge_chunk
  merge_chunk-StaysInBin k [] m all h = cc h
  merge_chunk-StaysInBin k (r ∷ chunk) m all h =
      finish-stays k r (r ∷ chunk) m (pool_chunk w fl r.index.ticker (r ∷ chunk) (empty_pool w fl))
        all.0 h

  -- Where a record's time is that of its header, and the cadence is one of whole ticks on the grid of the wire
  -- clock, removing duplicates from what a pass gave changes nothing.
  pub dedupe_bins-merge_chunk :
      (shard_ts_ms : IndexRecord H F → ℕ)
      → ((r : IndexRecord H F) → shard_ts_ms r ≡ ts_of w r)
      → (recs out : List (IndexRecord H F))
      → dedupe_bins (bin_key shard_ts_ms) (merge_chunk w fl shard_ts_ms target_ms) recs ≡ ok out
      → dedupe_bins (bin_key shard_ts_ms) (merge_chunk w fl shard_ts_ms target_ms) out ≡ ok out
  dedupe_bins-merge_chunk shard_ts_ms same recs out =
      subst
        (λ (ts : IndexRecord H F → ℕ).
          dedupe_bins (bin_key ts) (merge_chunk w fl ts target_ms) recs ≡ ok out
          → dedupe_bins (bin_key ts) (merge_chunk w fl ts target_ms) out ≡ ok out)
        (sym (fun_ext same))
        (dedupe_bins_idempotent (bin_key (ts_of w)) (merge_chunk w fl (ts_of w) target_ms)
          merge_chunk-StaysInBin recs out)
