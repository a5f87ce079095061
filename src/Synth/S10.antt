-- ===== src/Synth/S10.antt =====
-- `SynthS10State` of src/bin/synth_backfill_from_idx.rs. `A` is `BarAccumulator`, `B` is `Bar`, `H` the
-- type of headers and `F` of f64 values.
pub mod Flushed
use series_factory.Prelude.{
  ℕ, zero, suc, ◌+◌, ◌-◌, ◌*◌, ◌/◌, ◌%◌, ◌^◌, ◌≤◌, Bool, true, ◌&&◌, Option, none, some, ltb,
  if◌then◌else◌,
}
use series_factory.Mitch.{Index, IndexRecord, Wire}

-- The calls of `nxr_sdk::bar_builder`, of `Bar`, and the f64 operations.
pub record BarOps (A B F : Type 0) : Type 0 where
  pub acc_new : A
  pub flush : A → Option B × A
  -- bid, ask, vbid, vask, ts_ms, ci_ubp, accepted, rejected
  pub ingest : A → F → F → ℕ → ℕ → ℕ → ℕ → ℕ → ℕ → A
  pub decode_ci_ubp : ℕ → ℕ
  pub stamp_s10_grid : B → ℕ → ℕ → B
  pub flat_bar : ℕ → F → B
  -- b.kind = BarKind::Kline as u8
  pub set_kline : B → B
  pub close : B → F
  pub open_time_ms : B → ℕ
  pub add_f64 : F → F → F
  pub mul_f64 : F → F → F
  pub half : F
  pub is_finite : F → Bool
  pub is_positive : F → Bool

-- Within a millisecond: what the 16 µs ticks of the wire clock may make of a time.
abbrev pub Near : ℕ → ℕ → Type 0
Near a t = (a ≤ t + 1) × (t ≤ a + 1)

-- A stamped bar and a flat one open where they are told to, as far as the wire clock says.
pub record IsBarOps {A B F : Type 0} (ops : BarOps A B F) : Type 0 where
  pub open-stamp :
      (b : B) (opens width : ℕ)
      → Near (ops.open_time_ms (ops.set_kline (ops.stamp_s10_grid b opens width))) opens
  pub open-flat :
      (opens : ℕ) (c : F) → Near (ops.open_time_ms (ops.set_kline (ops.flat_bar opens c))) opens

pub record SynthS10State (A F : Type 0) : Type 0 where
  pub acc : A
  pub cur_bucket : Option ℕ
  pub last_close : F

-- MAX_GAPFILL_BUCKETS
abbrev pub max_gapfill_buckets : ℕ
max_gapfill_buckets = 360

abbrev or_else : {B : Type 0} → Option B → Option B → Option B
or_else none out = out
or_else (some b) out = some b

module _ {A B F : Type 0} (ops : BarOps A B F) where
  -- x > 0.0 && x.is_finite()
  abbrev pub usable : F → Bool
  usable x = ops.is_positive x && ops.is_finite x

  abbrev pub new : F → SynthS10State A F
  new last_close = record { acc = ops.acc_new; cur_bucket = none; last_close = last_close }

  abbrev pub keep_close : Option B → F → F
  keep_close none last_close = last_close
  keep_close (some b) last_close = if usable (ops.close b) then ops.close b else last_close

  abbrev pub mid : Index F → F
  mid body = ops.mul_f64 (ops.add_f64 body.bid body.ask) ops.half

module _ {A B F : Type 0} (ops : BarOps A B F) (bar_ms : ℕ) where
  -- The bar of a bucket from what the accumulator gives.
  abbrev pub bar_of : ℕ → Option B → F → Option B
  bar_of cb (some b) last_close = some (ops.set_kline (ops.stamp_s10_grid b cb bar_ms))
  bar_of cb none last_close =
      if usable ops last_close then some (ops.set_kline (ops.flat_bar cb last_close)) else none

  unfoldable pub flush_bucket : ℕ → SynthS10State A F → Option B × SynthS10State A F
  flush_bucket cb s =
      let (ticks, acc) = ops.flush s.acc in
      let last_close = keep_close ops ticks s.last_close in
      let out = bar_of cb ticks last_close in
      (
        out,
        record { acc = acc; cur_bucket = s.cur_bucket; last_close = keep_close ops out last_close },
      )

  -- while cb < bucket: the first bar is kept. The first argument counts the rounds that
  -- `MAX_GAPFILL_BUCKETS` leaves.
  unfoldable pub roll : ℕ → ℕ → ℕ → Option B → SynthS10State A F → Option B × SynthS10State A F
  roll zero bucket cb emitted s =
      (emitted, record s { cur_bucket = some (bucket - max_gapfill_buckets * bar_ms) })
  roll (suc rounds) bucket cb emitted s =
      let (out, s') = flush_bucket cb s in
      let rest = roll rounds bucket (cb + bar_ms) (or_else emitted out) s' in
      if ltb cb bucket then rest else (emitted, s)

module _ {A B H F : Type 0} (w : Wire H) (ops : BarOps A B F) (bar_ms : ℕ) where
  -- ts_ms.div_euclid(BAR_MS) * BAR_MS
  abbrev pub bucket_of : IndexRecord H F → ℕ
  bucket_of rec = w.to_epoch_ms (w.get_timestamp rec.header) / bar_ms * bar_ms

  abbrev pub ingest_tick : IndexRecord H F → SynthS10State A F → SynthS10State A F
  ingest_tick rec s =
      let body = rec.index in
      record {
        acc =
            ops.ingest s.acc body.bid body.ask body.vbid body.vask
              (w.to_epoch_ms (w.get_timestamp rec.header)) (ops.decode_ci_ubp body.ci)
              (body.accepted % 2 ^ 32) (body.rejected % 2 ^ 32);
        cur_bucket = s.cur_bucket;
        last_close = if usable ops (mid ops body) then mid ops body else s.last_close;
      }

  unfoldable pub roll_over : IndexRecord H F → ℕ → SynthS10State A F → Option B × SynthS10State A F
  roll_over rec cb s =
      let bucket = bucket_of rec in
      let (out, s') = roll ops bar_ms max_gapfill_buckets bucket cb none s in
      (out, ingest_tick rec (record s' { cur_bucket = some bucket }))

  abbrev pub at_bucket :
      IndexRecord H F → Option ℕ → SynthS10State A F → Option B × SynthS10State A F
  at_bucket rec none s = (none, ingest_tick rec (record s { cur_bucket = some (bucket_of rec) }))
  at_bucket rec (some cb) s =
      if ltb cb (bucket_of rec)
      then roll_over rec cb s
      else if ltb (bucket_of rec) cb
      then (none, s)
      else (none, ingest_tick rec s)

  unfoldable pub feed_synth_tick :
      IndexRecord H F → SynthS10State A F → Option B × SynthS10State A F
  feed_synth_tick rec s =
      if usable ops (mid ops rec.index) then at_bucket rec s.cur_bucket s else (none, s)
