-- ===== src/Synth/Day.antt =====
-- One day of pass A of `run_pair` in src/bin/synth_backfill_from_idx.rs, behind the test for an existing
-- shard: the merged records of the legs, the bars given to the writer, and the bars that fill the day.
-- `Rp` is `SynthReplayState`. The samples of the benchmark and the monthly counters are left out.
pub mod Opens
pub mod Filled
use series_factory.Prelude.{
  ℕ, zero, suc, ◌+◌, ◌-◌, ◌≡◌, Bool, true, false, ◌&&◌, ◌||◌, not, Option, none, some, List, [],
  ◌∷◌, ◌++◌, ltb, leb, ◌==◌, bit_and, if◌then◌else◌,
}
use series_factory.Mitch.{IndexRecord, Wire}
use series_factory.Synth.S10.{BarOps, SynthS10State, usable, feed_synth_tick, flush_bucket}

-- `FLAG_HEARTBEAT_SENTINEL`, and `feed_leg_tick` with its record and its time.
pub record Replay (Rp H F : Type 0) : Type 0 where
  pub flag_heartbeat_sentinel : ℕ
  pub feed_leg_tick : Rp → IndexRecord H F → ℕ → Option (IndexRecord H F) × Rp

pub record DayState (A B F Rp : Type 0) : Type 0 where
  pub merge_state : Rp
  pub s10 : SynthS10State A F
  pub ticks_in_merge : ℕ
  pub synth_emits : ℕ
  pub s10_today : ℕ
  pub written : List B

module _ {A B H F Rp : Type 0} (w : Wire H) (ops : BarOps A B F) (replay : Replay Rp H F)
    (bar_ms d_start d_end : ℕ) where
  abbrev pub in_day : ℕ → Bool
  in_day t = leb d_start t && ltb t d_end

  -- if let Some(bar): only a bar that opens in the day is written.
  abbrev pub write_bar : Option B → DayState A B F Rp → DayState A B F Rp
  write_bar none day = day
  write_bar (some b) day =
      if in_day (ops.open_time_ms b)
      then record day { s10_today = day.s10_today + 1; written = day.written ++ b ∷ [] }
      else day

  abbrev pub on_synth : Option (IndexRecord H F) → DayState A B F Rp → DayState A B F Rp
  on_synth none day = day
  on_synth (some rec) day =
      let (out, s10) = feed_synth_tick w ops bar_ms rec day.s10 in
      write_bar out (record day { s10 = s10; synth_emits = day.synth_emits + 1 })

  abbrev pub rec_ts_ms : IndexRecord H F → ℕ
  rec_ts_ms rec = w.to_epoch_ms (w.get_timestamp rec.header)

  abbrev pub is_skipped : IndexRecord H F → Bool
  is_skipped rec =
      not (bit_and rec.index.flags replay.flag_heartbeat_sentinel == 0)
      || (ltb (rec_ts_ms rec) d_start || leb d_end (rec_ts_ms rec))

  -- The body of the loop over the merged records.
  unfoldable pub feed_leg : IndexRecord H F → DayState A B F Rp → DayState A B F Rp
  feed_leg rec day =
      let (synth, merge_state) = replay.feed_leg_tick day.merge_state rec (rec_ts_ms rec) in
      if is_skipped rec
      then day
      else on_synth synth
          (record day { merge_state = merge_state; ticks_in_merge = day.ticks_in_merge + 1 })

  unfoldable pub feed_legs : List (IndexRecord H F × Bool) → DayState A B F Rp → DayState A B F Rp
  feed_legs [] day = day
  feed_legs ((rec, was_base) ∷ legs) day = feed_legs legs (feed_leg rec day)

  -- The bucket from which the day is filled.
  abbrev pub seeded : SynthS10State A F → Option ℕ
  seeded s = elim s.cur_bucket [
    | none ↦ if usable ops s.last_close then some d_start else none
    | some cb ↦ some cb
  ]

  abbrev pub fill_one : ℕ → DayState A B F Rp → DayState A B F Rp
  fill_one cb day =
      let (out, s10) = flush_bucket ops bar_ms cb day.s10 in
      let day' = write_bar out (record day { s10 = s10 }) in
      record day' { s10 = record day'.s10 { cur_bucket = some (cb + bar_ms) } }

  -- while let Some(cb): each round moves the bucket on, so these rounds are enough.
  unfoldable pub fill : ℕ → ℕ → DayState A B F Rp → DayState A B F Rp
  fill zero cb day = day
  fill (suc fuel) cb day =
      let rest = fill fuel (cb + bar_ms) (fill_one cb day) in if leb d_end cb then day else rest

  abbrev pub fill_from : Option ℕ → DayState A B F Rp → DayState A B F Rp
  fill_from none day = day
  fill_from (some cb) day = fill (d_end - cb) cb day

  unfoldable pub gap_fill : DayState A B F Rp → DayState A B F Rp
  gap_fill day =
      let cur = seeded day.s10 in
      fill_from cur (record day { s10 = record day.s10 { cur_bucket = cur } })

  -- The day, its counters reset, over the merged records; none where a leg has no shard.
  unfoldable pub synth_day :
      List (IndexRecord H F × Bool) → Rp → SynthS10State A F → List B → DayState A B F Rp
  synth_day legs merge_state s10 written = gap_fill (
      feed_legs legs (record {
        merge_state = merge_state;
        s10 = s10;
        ticks_in_merge = 0;
        synth_emits = 0;
        s10_today = 0;
        written = written;
      }))
