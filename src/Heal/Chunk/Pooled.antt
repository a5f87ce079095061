-- ===== src/Heal/Chunk/Pooled.antt =====
-- What the record that `merge_chunk` of src/idx_heal.rs makes of a bin has of its records.
use series_factory.Prelude.{
  ℕ, ◌+◌, ◌-◌, ◌^◌, ◌<◌, ◌≡◌, ◌⊎◌, inl, inr, refl, ap, min, max, Bool, true, false, not, List, [],
  ◌∷◌, arith, any, All, bit_and, ◌==◌, if◌then◌else◌,
}
use series_factory.Prelude.Bits.{bit_and-bit_or_self}
use series_factory.Prelude.Outcome.{Outcome, ok, err}
use series_factory.Mitch.{Index, IndexRecord, Wire}
use series_factory.Resample.Bucket.{bin_start}
use series_factory.Heal.Chunk.{
  Pooling, ChunkError, ticker_mismatch, Pool, pool_record, pool_chunk, empty_pool, map_index,
  max_of, finish, merged, merge_chunk,
}

abbrev pub total : List ℕ → ℕ
total [] = 0
total (n ∷ ns) = n + total ns

module _ {H F : Type 0} (w : Wire H) (fl : Pooling F) where
  abbrev pub sum_of : (Index F → ℕ) → List (IndexRecord H F) → ℕ
  sum_of f chunk = total (map_index w fl f chunk)

  abbrev pub largest : (Index F → ℕ) → List (IndexRecord H F) → ℕ
  largest f chunk = max_of w fl (map_index w fl f chunk)

  -- The counters of the loop over `chunk` from `p` on.
  abbrev Counted : List (IndexRecord H F) → Pool F → Pool F → Type 0
  Counted chunk p q =
      (q.vbid_sum ≡ min (p.vbid_sum + sum_of (λ i. i.vbid) chunk) (2 ^ 32 - 1))
      × (q.vask_sum ≡ min (p.vask_sum + sum_of (λ i. i.vask) chunk) (2 ^ 32 - 1))
      × (q.tick_count_sum ≡ min (p.tick_count_sum + sum_of (λ i. i.tick_count) chunk) (2 ^ 16 - 1))
      × (q.confidence_max ≡ max p.confidence_max (largest (λ i. i.confidence) chunk))
      × (q.accepted_max ≡ max p.accepted_max (largest (λ i. i.accepted) chunk))
      × (q.rejected_max ≡ max p.rejected_max (largest (λ i. i.rejected) chunk))

  abbrev Small : Pool F → Type 0
  Small p = (p.vbid_sum < 2 ^ 32) × (p.vask_sum < 2 ^ 32) × (p.tick_count_sum < 2 ^ 16)

  Counted-step :
      (r : IndexRecord H F) (chunk : List (IndexRecord H F)) (p q : Pool F)
      → Counted chunk (pool_record w fl r.index p) q
      → Counted (r ∷ chunk) p q
  Counted-step r chunk p q h = omega arith

  pool_record-Small : (i : Index F) (p : Pool F) → Small (pool_record w fl i p)
  pool_record-Small i p = omega arith

  -- The records have the same ticker, and `m` pools them.
  abbrev pub Pools : List (IndexRecord H F) → IndexRecord H F → Type 0
  Pools chunk m =
      All (λ r. r.index.ticker ≡ m.index.ticker) chunk
      × (m.index.vbid ≡ min (sum_of (λ i. i.vbid) chunk) (2 ^ 32 - 1))
      × (m.index.vask ≡ min (sum_of (λ i. i.vask) chunk) (2 ^ 32 - 1))
      × (m.index.tick_count ≡ min (sum_of (λ i. i.tick_count) chunk) (2 ^ 16 - 1))
      × (m.index.confidence ≡ largest (λ i. i.confidence) chunk)
      × (m.index.accepted ≡ largest (λ i. i.accepted) chunk)
      × (m.index.rejected ≡ largest (λ i. i.rejected) chunk)
      × (bit_and m.index.flags w.flag_idx_healed ≡ w.flag_idx_healed)

  abbrev foreign : ℕ → IndexRecord H F → Bool
  foreign ticker r = not (r.index.ticker == ticker)

  -- The loop ends at the first foreign record, or has counted all.
  abbrev Looped : ℕ → List (IndexRecord H F) → Pool F → Outcome ChunkError (Pool F) → Type 0
  Looped ticker chunk p o =
      ((any (foreign ticker) chunk ≡ true) × (o ≡ err ticker_mismatch))
      ⊎ ((q : Pool F) × (o ≡ ok q) × All (λ r. r.index.ticker ≡ ticker) chunk × Counted chunk p q)

  Looped-step :
      (ticker : ℕ) (r : IndexRecord H F) (chunk : List (IndexRecord H F)) (p : Pool F)
      (o : Outcome ChunkError (Pool F)) (b : Bool)
      → (r.index.ticker == ticker) ≡ b
      → Looped ticker chunk (pool_record w fl r.index p) o
      → Looped ticker (r ∷ chunk) p (if b then o else err ticker_mismatch)
  Looped-step ticker r chunk p o false e h = inl (ground arith, refl)
  Looped-step ticker r chunk p o true e (inl (bad, stop)) = inl (ground arith, stop)
  Looped-step ticker r chunk p o true e (inr (q, done, own, counted)) =
      inr (q, done, (ground arith, own), Counted-step r chunk p q counted)

  pool_chunk-Looped :
      (ticker : ℕ) (chunk : List (IndexRecord H F)) (p : Pool F)
      → Small p
      → Looped ticker chunk p (pool_chunk w fl ticker chunk p)
  pool_chunk-Looped ticker [] p small = inr (p, refl, tt, omega arith)
  pool_chunk-Looped ticker (r ∷ chunk) p small =
      Looped-step ticker r chunk p _ (r.index.ticker == ticker) refl
        (pool_chunk-Looped ticker chunk (pool_record w fl r.index p) (pool_record-Small r.index p))

  -- Merging fails exactly at a foreign ticker. Else the merged record has the ticker of all, the volumes and
  -- tick counts added up as far as their fields reach, the largest of the other counters, and the marker.
  pub merge_chunk-Pools :
      (shard_ts_ms : IndexRecord H F → ℕ) (target_ms : ℕ) (first : IndexRecord H F)
      (rest : List (IndexRecord H F))
      → ((any (λ r. not (r.index.ticker == first.index.ticker)) (first ∷ rest) ≡ true)
          × (merge_chunk w fl shard_ts_ms target_ms (first ∷ rest) ≡ err ticker_mismatch))
        ⊎ ((m : IndexRecord H F) × (merge_chunk w fl shard_ts_ms target_ms (first ∷ rest) ≡ ok m)
            × Pools (first ∷ rest) m)
  unfolding merge_chunk
  merge_chunk-Pools shard_ts_ms target_ms first rest =
      close (pool_chunk w fl first.index.ticker (first ∷ rest) (empty_pool w fl))
        (pool_chunk-Looped first.index.ticker (first ∷ rest) (empty_pool w fl) (omega arith))
    where
      close :
          (o : Outcome ChunkError (Pool F))
          → Looped first.index.ticker (first ∷ rest) (empty_pool w fl) o
          → ((any (foreign first.index.ticker) (first ∷ rest) ≡ true)
              × (finish w fl (bin_start (shard_ts_ms first) target_ms) first (first ∷ rest) o
                  ≡ err ticker_mismatch))
            ⊎ ((m : IndexRecord H F) × (finish w fl
                    (bin_start (shard_ts_ms first) target_ms)
                    first
                    (first ∷ rest)
                    o
                  ≡ ok m)
                × Pools (first ∷ rest) m)
      close o (inl (bad, stop)) = inl (bad, ap (finish w fl _ first (first ∷ rest)) stop)
      close o (inr (q, done, own, counted)) = inr (
        merged w fl _ first (first ∷ rest) q,
        ap (finish w fl _ first (first ∷ rest)) done,
        (
          own,
          omega arith,
          omega arith,
          omega arith,
          omega arith,
          omega arith,
          omega arith,
          bit_and-bit_or_self q.flags_or w.flag_idx_healed,
        ),
      )
