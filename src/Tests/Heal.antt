-- ===== src/Tests/Heal.antt =====
-- The theorems about src/idx_heal.rs at concrete inputs: three ticks of one bin and one of the next.
use series_factory.Prelude.{
  ℕ, ◌+◌, ◌*◌, ◌/◌, ◌≡◌, ◌⊎◌, refl, true, false, not, none, some, List, [], ◌∷◌, arith, any, ltb,
  ◌==◌,
}
use series_factory.Prelude.Int.{pos}
use series_factory.Prelude.Outcome.{Outcome, ok, err}
use series_factory.Files.{done}
use series_factory.Mitch.{IndexRecord}
use series_factory.Resample.Bucket.{ts_of, bin_start}
use series_factory.Heal.Bins.{resample_bins, dedupe_bins}
use series_factory.Heal.Bins.Chunks.{IsBinned, resample_bins-IsBinned}
use series_factory.Heal.Chunk.{Pooling, ChunkError, ticker_mismatch, merge_chunk}
use series_factory.Heal.Chunk.Pooled.{Pools, merge_chunk-Pools}
use series_factory.Heal.Chunk.Settled.{dedupe_bins-merge_chunk}
use series_factory.Heal.Tree.{create_staging, write_staging, back_up, promote, Tree, Dir}
use series_factory.Heal.Run.{Env, HealReport, heal_ticker_shards}
use series_factory.Heal.Run.Swapped.{Recoverable, heal_ticker_shards-Recoverable}
use series_factory.Heal.Run.Committed.{Committed, heal_ticker_shards-Committed}
use series_factory.Tests.Sample.{Header, wire, wire_laws, grid, tick}

abbrev pooling : Pooling ℕ
pooling = record {
  of_int = λ n. n;
  plus = λ a b. a + b;
  times = λ a b. a * b;
  over = λ a b. a / b;
  sqrt = λ a. a;
  positive = λ a. ltb 0 a;
  sum = λ xs. 0;
  decode_ci_ubp = λ n. n;
  encode_ci_ubp = λ n. n;
}

abbrev ticks : List (IndexRecord Header ℕ)
ticks = tick 0 10 ∷ tick 2000 20 ∷ tick 4000 30 ∷ tick 30000 40 ∷ []

abbrev key : IndexRecord Header ℕ → ℕ
key r = bin_start (ts_of wire r) 200

abbrev merge : List (IndexRecord Header ℕ) → Outcome ChunkError (IndexRecord Header ℕ)
merge = merge_chunk wire pooling (ts_of wire) 200

resample_bins-IsBinned_example : IsBinned key merge ticks (resample_bins key merge ticks)
resample_bins-IsBinned_example = resample_bins-IsBinned key merge ticks

merge_chunk-Pools_example :
    ((any (λ (r : IndexRecord Header ℕ). not (r.index.ticker == 7)) ticks ≡ true)
      × (merge ticks ≡ err ticker_mismatch))
    ⊎ ((m : IndexRecord Header ℕ) × (merge ticks ≡ ok m) × Pools wire pooling ticks m)
merge_chunk-Pools_example =
    merge_chunk-Pools wire pooling (ts_of wire) 200 (tick 0 10)
      (tick 2000 20 ∷ tick 4000 30 ∷ tick 30000 40 ∷ [])

abbrev pooled : IndexRecord Header ℕ
pooled = record {
  header = record { ty = 4; provider = 1; mts = 0; updates = 3; sequence = 0 };
  index = record {
    ticker = 7;
    bid = 20;
    ask = 21;
    vbid = 6;
    vask = 9;
    ci = 10000;
    tick_count = 3;
    confidence = 5;
    accepted = 1;
    rejected = 0;
    flags = 18;
  };
}

deduped : dedupe_bins key merge ticks ≡ ok (pooled ∷ tick 30000 40 ∷ [])
unfolding dedupe_bins merge_chunk bin_start
deduped = refl

dedupe_bins-merge_chunk_example :
    dedupe_bins key merge (pooled ∷ tick 30000 40 ∷ []) ≡ ok (pooled ∷ tick 30000 40 ∷ [])
dedupe_bins-merge_chunk_example =
    dedupe_bins-merge_chunk wire wire_laws pooling 200 grid (ts_of wire) (λ r. refl) ticks
      (pooled ∷ tick 30000 40 ∷ []) deduped

-- A day is 86,400 s of the record's clock.
abbrev env : Env Header ℕ
env = record {
  wire = wire;
  pooling = pooling;
  shard_ts_ms = ts_of wire;
  ts_ms_to_utc_date = λ ms. ms / 86400000;
  median_ms = λ ns. 100;
  lock_free = true;
}

-- Two closed days and the current one.
abbrev dir : Dir (IndexRecord Header ℕ)
dir = (14610, ticks) ∷ (14611, []) ∷ (14612, tick 9 50 ∷ []) ∷ []

abbrev at_budget : ℕ → Tree (IndexRecord Header ℕ)
at_budget n = record { live = some dir; staging = none; backup = none; budget = n }

-- The run is killed in front of the second rename.
heal_ticker_shards-Recoverable_example :
    Recoverable dir (heal_ticker_shards env 14612 7 (pos 200) false true (at_budget 9)).1
heal_ticker_shards-Recoverable_example =
    heal_ticker_shards-Recoverable env 14612 7 (pos 200) false true dir (at_budget 9) refl

abbrev report : HealReport
report = record {
  ticker_id = 7;
  records_in = 4;
  records_out = 2;
  shards_in = 2;
  shards_out = 1;
  misrouted_dropped = 0;
  source_ms_detected = 100;
  target_ms = 200;
  resampled = true;
}

committed : (heal_ticker_shards env 14612 7 (pos 200) false true (at_budget 50)).0 ≡ done report
unfolding heal_ticker_shards create_staging resample_bins bin_start merge_chunk write_staging
    back_up promote
committed = refl

heal_ticker_shards-Committed_example :
    Committed env 14612
      (tick 9 50 ∷ [])
      dir
      (heal_ticker_shards env 14612 7 (pos 200) false true (at_budget 50)).1
heal_ticker_shards-Committed_example =
    heal_ticker_shards-Committed env 14612 7 (pos 200) (tick 9 50 ∷ []) dir (at_budget 50) report
      refl (omega arith) refl committed
