-- ===== src/Heal/Chunk.antt =====
-- `merge_chunk` of src/idx_heal.rs. `F` is the type of f64 values. The `bin_start` of this file is the same
-- function as that of src/bin/resample_idx.rs.
pub mod Pooled
pub mod Settled
use series_factory.Prelude.{
  ℕ, suc, ◌+◌, ◌-◌, ◌%◌, ◌^◌, min, max, Bool, List, [], ◌∷◌, bit_or, length, ltb, ◌==◌,
  if◌then◌else◌,
}
use series_factory.Prelude.Outcome.{Outcome, ok, err}
use series_factory.Mitch.{Index, IndexRecord, Wire}
use series_factory.Resample.Bucket.{bin_start}

-- The operations of f64, and the encoding of confidence intervals of the `nxr_sdk` crate.
pub record Pooling (F : Type 0) : Type 0 where
  pub of_int : ℕ → F
  pub plus : F → F → F
  pub times : F → F → F
  pub over : F → F → F
  pub sqrt : F → F
  pub positive : F → Bool
  pub sum : List F → F
  pub decode_ci_ubp : ℕ → F
  pub encode_ci_ubp : F → ℕ

pub data ChunkError : Type 0 where
  empty_chunk ticker_mismatch : ChunkError

-- The variables of the loop.
pub record Pool (F : Type 0) : Type 0 where
  pub bid_num : F
  pub bid_den : F
  pub ask_num : F
  pub ask_den : F
  pub vbid_sum : ℕ
  pub vask_sum : ℕ
  pub ci_num : F
  pub ci_den : F
  pub tick_count_sum : ℕ
  pub confidence_max : ℕ
  pub accepted_max : ℕ
  pub rejected_max : ℕ
  pub flags_or : ℕ
  pub input_count : ℕ

-- `saturating_add` of a word of `bits` bits.
abbrev pub saturating_add : ℕ → ℕ → ℕ → ℕ
saturating_add bits a b = min (a + b) (2 ^ bits - 1)

module _ {H F : Type 0} (w : Wire H) (fl : Pooling F) where
  abbrev pub weighted : F → F → F → F
  weighted weight term total = if fl.positive weight then fl.plus total term else total

  -- The sum of the volumes is one of u32, and wraps in a release build.
  abbrev pub ci_weight : Index F → F
  ci_weight i =
      let volume = fl.of_int ((i.vbid + i.vask) % 2 ^ 32) in
      if fl.positive volume then volume else fl.of_int i.tick_count

  abbrev pub pool_record : Index F → Pool F → Pool F
  pool_record i p =
      let w_bid = fl.of_int i.vbid in
      let w_ask = fl.of_int i.vask in
      let ci_dec = fl.decode_ci_ubp i.ci in
      let w_ci = ci_weight i in
      record {
        bid_num = weighted w_bid (fl.times i.bid w_bid) p.bid_num;
        bid_den = weighted w_bid w_bid p.bid_den;
        ask_num = weighted w_ask (fl.times i.ask w_ask) p.ask_num;
        ask_den = weighted w_ask w_ask p.ask_den;
        vbid_sum = saturating_add 32 p.vbid_sum i.vbid;
        vask_sum = saturating_add 32 p.vask_sum i.vask;
        ci_num = weighted w_ci (fl.times (fl.times ci_dec ci_dec) w_ci) p.ci_num;
        ci_den = weighted w_ci w_ci p.ci_den;
        tick_count_sum = saturating_add 16 p.tick_count_sum i.tick_count;
        confidence_max = max p.confidence_max i.confidence;
        accepted_max = max p.accepted_max i.accepted;
        rejected_max = max p.rejected_max i.rejected;
        flags_or = bit_or p.flags_or i.flags;
        input_count = saturating_add 8 p.input_count 1;
      }

  abbrev pub pool_chunk : ℕ → List (IndexRecord H F) → Pool F → Outcome ChunkError (Pool F)
  pool_chunk ticker [] p = ok p
  pool_chunk ticker (r ∷ chunk) p =
      let rest = pool_chunk ticker chunk (pool_record r.index p) in
      if r.index.ticker == ticker then rest else err ticker_mismatch

  abbrev pub empty_pool : Pool F
  empty_pool = record {
    bid_num = fl.of_int 0;
    bid_den = fl.of_int 0;
    ask_num = fl.of_int 0;
    ask_den = fl.of_int 0;
    vbid_sum = 0;
    vask_sum = 0;
    ci_num = fl.of_int 0;
    ci_den = fl.of_int 0;
    tick_count_sum = 0;
    confidence_max = 0;
    accepted_max = 0;
    rejected_max = 0;
    flags_or = 0;
    input_count = 0;
  }

  abbrev pub map_index : {B : Type 0} → (Index F → B) → List (IndexRecord H F) → List B
  map_index f [] = []
  map_index f (r ∷ chunk) = f r.index ∷ map_index f chunk

  -- The weighted mean, or the plain one where no weight is positive.
  abbrev pub price_out : F → F → List F → F
  price_out num den prices =
      if fl.positive den
      then fl.over num den
      else fl.over (fl.sum prices) (fl.of_int (length prices))

  abbrev pub max_of : List ℕ → ℕ
  max_of [] = 0
  max_of (n ∷ ns) = max n (max_of ns)

  abbrev pub merged : ℕ → IndexRecord H F → List (IndexRecord H F) → Pool F → IndexRecord H F
  merged bin_ms first chunk p = record {
    header =
        w.set_sequence
          (w.header_new w.type_index (w.provider_id first.header) (w.from_epoch_ms bin_ms)
            (max p.input_count 1))
          0;
    index = record {
      ticker = first.index.ticker;
      bid = price_out p.bid_num p.bid_den (map_index (λ i. i.bid) chunk);
      ask = price_out p.ask_num p.ask_den (map_index (λ i. i.ask) chunk);
      vbid = p.vbid_sum;
      vask = p.vask_sum;
      ci =
          if fl.positive p.ci_den
          then fl.encode_ci_ubp (fl.sqrt (fl.over p.ci_num p.ci_den))
          else max_of (map_index (λ i. i.ci) chunk);
      tick_count = p.tick_count_sum;
      confidence = p.confidence_max;
      accepted = p.accepted_max;
      rejected = p.rejected_max;
      flags = bit_or p.flags_or w.flag_idx_healed;
    };
  }

  abbrev pub finish :
      ℕ
      → IndexRecord H F
      → List (IndexRecord H F)
      → Outcome ChunkError (Pool F)
      → Outcome ChunkError (IndexRecord H F)
  finish bin_ms first chunk (err e) = err e
  finish bin_ms first chunk (ok p) = ok (merged bin_ms first chunk p)

  -- `shard_ts_ms` is the time of a record.
  unfoldable pub merge_chunk :
      (IndexRecord H F → ℕ) → ℕ → List (IndexRecord H F) → Outcome ChunkError (IndexRecord H F)
  unfolding bin_start
  merge_chunk shard_ts_ms target_ms [] = err empty_chunk
  merge_chunk shard_ts_ms target_ms (first ∷ rest) =
      finish (bin_start (shard_ts_ms first) target_ms) first (first ∷ rest)
        (pool_chunk first.index.ticker (first ∷ rest) empty_pool)
