-- ===== src/Tests/Synth.antt =====
-- A short day of a synthetic pair at concrete inputs.
use series_factory.Prelude.{
  ℕ, ◌+◌, ◌*◌, ◌/◌, ◌≡◌, refl, Bool, true, false, Option, none, some, List, [], ◌∷◌, arith, ltb,
  map,
}
use series_factory.Prelude.Outcome.{ok}
use series_factory.Mitch.{IndexRecord}
use series_factory.Synth.S10.{BarOps, IsBarOps, new, flush_bucket, roll, roll_over, feed_synth_tick}
use series_factory.Synth.S10.Flushed.{Ready}
use series_factory.Synth.Legs.{Next, PeekStream, open_peek, advance, merge_pop, drain}
use series_factory.Synth.Legs.Merged.{Merges, open_peek-Merges}
use series_factory.Synth.Day.{Replay, DayState, feed_leg, feed_legs, fill, gap_fill, synth_day}
use series_factory.Synth.Day.Opens.{Writes}
use series_factory.Synth.Day.Filled.{synth_day-opens}
use series_factory.Tests.Sample.{Header, wire, tick}

-- A bar is its open with its close; the accumulator has the last mid.
pub record Candle : Type 0 where
  pub open_ms : ℕ
  pub close : ℕ

abbrev flushed : Option ℕ → Option Candle × Option ℕ
flushed none = (none, none)
flushed (some c) = (some (record { open_ms = 0; close = c }), none)

abbrev ops : BarOps (Option ℕ) Candle ℕ
ops = record {
  acc_new = none;
  flush = flushed;
  ingest = λ acc bid ask vbid vask ts ci accepted rejected. some ((bid + ask) / 2);
  decode_ci_ubp = λ ci. ci;
  stamp_s10_grid = λ b opens width. record b { open_ms = opens + 1 };
  flat_bar = λ opens c. record { open_ms = opens + 1; close = c };
  set_kline = λ b. b;
  close = λ b. b.close;
  open_time_ms = λ b. b.open_ms;
  add_f64 = λ a b. a + b;
  mul_f64 = λ a h. a * h / 2;
  half = 1;
  is_finite = λ x. true;
  is_positive = λ x. ltb 0 x;
}

ops_laws : IsBarOps ops
ops_laws = record {
  open-stamp = λ b opens width. (omega arith, omega arith);
  open-flat = λ opens c. (omega arith, omega arith);
}

abbrev replay : Replay ℕ Header ℕ
replay = record { flag_heartbeat_sentinel = 0x80; feed_leg_tick = λ m rec ts. (some rec, m + 1) }

abbrev day_ms : ℕ
day_ms = 1262304000000

-- Ticks in the first bucket of the day and in the fourth; 625000 wire ticks are ten seconds.
abbrev legs : List (IndexRecord Header ℕ × Bool)
legs = (tick 100 50, true) ∷ (tick 200 52, false) ∷ (tick 1875100 54, true) ∷ []

abbrev day_end : DayState (Option ℕ) Candle ℕ ℕ
day_end = synth_day wire ops replay 10000 day_ms (day_ms + 60000) legs 0 (new ops 0) []

synth_day-opens_example :
    Writes wire ops replay 10000 day_ms
      (day_ms + 60000)
      []
      day_end.written
      (1262304000000 ∷ 1262304030000 ∷ 1262304040000 ∷ 1262304050000 ∷ [])
    × Ready ops 0 day_end.s10.cur_bucket day_end.s10.last_close
synth_day-opens_example =
    synth_day-opens wire ops_laws replay 10000 day_ms (day_ms + 60000) (omega arith) legs 0
      (new ops 0) [] refl

-- No bar opens at the second and the third bucket. The clock here makes every open a millisecond later.
bars_written :
    map (λ b. b.open_ms) day_end.written
    ≡ 1262304000001 ∷ 1262304030001 ∷ 1262304040001 ∷ 1262304050001 ∷ []
unfolding synth_day feed_legs feed_leg feed_synth_tick roll_over roll flush_bucket gap_fill fill
bars_written = refl

-- The shard of a leg is the list of what is left of it.
abbrev next : Next ℕ ℕ (List ℕ)
next [] = ok (none, [])
next (t ∷ ts) = ok (some t, ts)

open_peek-Merges_example :
    (b q : PeekStream ℕ (List ℕ)) × (open_peek next (1 ∷ 4 ∷ []) ≡ ok b)
    × (open_peek next (2 ∷ 4 ∷ 9 ∷ []) ≡ ok q)
    × Merges next (λ t. t) 0 (1 ∷ 4 ∷ []) (2 ∷ 4 ∷ 9 ∷ []) (drain next (λ t. t) 6 b q)
open_peek-Merges_example =
    open_peek-Merges next (λ t. t) 0 (1 ∷ 4 ∷ []) (2 ∷ 4 ∷ 9 ∷ []) (1 ∷ 4 ∷ []) (2 ∷ 4 ∷ 9 ∷ [])
      (4 ∷ [], refl, ([], refl, ([], refl)))
      (4 ∷ 9 ∷ [], refl, (9 ∷ [], refl, ([], refl, ([], refl)))) (omega arith, (omega arith, tt))
      (omega arith, (omega arith, (omega arith, tt)))

-- The base leg first, also at equal times.
drained :
    drain next
      (λ t. t)
      6
      (record { inner = 4 ∷ []; next = some 1 })
      (record { inner = 4 ∷ 9 ∷ []; next = some 2 })
    ≡ some (ok ((1, true) ∷ (2, false) ∷ (4, true) ∷ (4, false) ∷ (9, false) ∷ []))
unfolding drain merge_pop advance
drained = refl
