-- ===== src/Synth/S10/Flushed.antt =====
-- The bars that `flush_bucket` and `feed_synth_tick` of src/bin/synth_backfill_from_idx.rs give.
use series_factory.Prelude.{
  ℕ, zero, suc, ◌+◌, ◌≤◌, ◌++◌, ◌≡◌, refl, ◌∙◌, ap, Bool, true, false, Option, none, some, List, [],
  ◌∷◌, ltb, arith, if◌then◌else◌, Bool-cases, inl, inr,
}
use series_factory.Mitch.{IndexRecord, Wire}
use series_factory.Synth.S10.{
  BarOps, Near, IsBarOps, SynthS10State, usable, keep_close, bar_of, flush_bucket, roll, mid,
  bucket_of, ingest_tick, at_bucket, roll_over, feed_synth_tick,
}

-- The bucket that is open behind a tick, and the one that it closes. No bucket stands for a tick
-- without a usable price.
abbrev pub move : Option ℕ → Option ℕ → Option ℕ
move cur none = cur
move none (some b) = some b
move (some c) (some b) = some (if ltb c b then b else c)

abbrev pub left : Option ℕ → Option ℕ → List ℕ
left cur none = []
left none (some b) = []
left (some c) (some b) = if ltb c b then c ∷ [] else []

module _ {A B F : Type 0} (ops : BarOps A B F) where
  abbrev pub bars_of : Option B → List B
  bars_of none = []
  bars_of (some b) = b ∷ []

  -- One bar for each of the buckets, in order, which opens there.
  abbrev pub OpenAt : List B → List ℕ → Type 0
  OpenAt [] [] = Unit {0}
  OpenAt [] (t ∷ ts) = 1 ≤ 0
  OpenAt (b ∷ bs) [] = 1 ≤ 0
  OpenAt (b ∷ bs) (t ∷ ts) = Near (ops.open_time_ms b) t × OpenAt bs ts

  pub OpenAt-append :
      (bs cs : List B) (ss ts : List ℕ) → OpenAt bs ss → OpenAt cs ts → OpenAt (bs ++ cs) (ss ++ ts)
  OpenAt-append [] cs [] ts h k = k
  OpenAt-append [] cs (s ∷ ss) ts h k = absurd (omega arith)
  OpenAt-append (b ∷ bs) cs [] ts h k = absurd (omega arith)
  OpenAt-append (b ∷ bs) cs (s ∷ ss) ts h k = (h.0, OpenAt-append bs cs ss ts h.1 k)

  -- Where a bucket is open the last close is usable; else it is the seed.
  abbrev pub Ready : F → Option ℕ → F → Type 0
  Ready seed none c = c ≡ seed
  Ready seed (some b) c = usable ops c ≡ true

module _ {A B F : Type 0} (ops : BarOps A B F) (bar_ms : ℕ) where
  pub record Flushed (cb : ℕ) (s : SynthS10State A F) : Type 0 where
    pub bar : B
    pub state : SynthS10State A F
    pub result : flush_bucket ops bar_ms cb s ≡ (some bar, state)
    pub opens : Near (ops.open_time_ms bar) cb
    pub still : usable ops state.last_close ≡ true

module _ {A B H F : Type 0} (w : Wire H) (ops : BarOps A B F) (bar_ms : ℕ) where
  abbrev pub tick_of : IndexRecord H F → Option ℕ
  tick_of rec = if usable ops (mid ops rec.index) then some (bucket_of w ops bar_ms rec) else none

  pub record Fed (seed : F) (rec : IndexRecord H F) (cur : Option ℕ) (s : SynthS10State A F)
      : Type 0 where
    pub out : Option B
    pub state : SynthS10State A F
    pub result : feed_synth_tick w ops bar_ms rec s ≡ (out, state)
    pub opens : OpenAt ops (bars_of ops out) (left cur (tick_of rec))
    pub cur_bucket : state.cur_bucket ≡ move cur (tick_of rec)
    pub ready : Ready ops seed (move cur (tick_of rec)) state.last_close

module _ {A B F : Type 0} {ops : BarOps A B F} (laws : IsBarOps ops) (bar_ms : ℕ) where
  if-usable :
      (b : Bool) (x y : F)
      → usable ops x ≡ b
      → usable ops y ≡ true
      → usable ops (if b then x else y) ≡ true
  if-usable true x y h k = h
  if-usable false x y h k = k

  keep_close-usable :
      (out : Option B) (c : F) → usable ops c ≡ true → usable ops (keep_close ops out c) ≡ true
  keep_close-usable none c h = h
  keep_close-usable (some b) c h = if-usable _ (ops.close b) c refl h

  bar_of-opens :
      (cb : ℕ) (ticks : Option B) (c : F)
      → usable ops c ≡ true
      → (b : B) × (bar_of ops bar_ms cb ticks c ≡ some b) × Near (ops.open_time_ms b) cb
  bar_of-opens cb (some b) c h = (_, refl, laws.open-stamp b cb bar_ms)
  bar_of-opens cb none c h = (_, rw h, laws.open-flat cb c)

  -- With a usable last close every flush gives a bar, which opens at the bucket.
  pub flush_bucket-Flushed :
      (cb : ℕ) (s : SynthS10State A F) → usable ops s.last_close ≡ true → Flushed ops bar_ms cb s
  unfolding flush_bucket
  flush_bucket-Flushed cb s h =
      let (ticks, acc) = ops.flush s.acc in
      let c = keep_close ops ticks s.last_close in
      let h' : usable ops c ≡ true = keep_close-usable ticks s.last_close h in
      let (b, is_bar, at) = bar_of-opens cb ticks c h' in
      record {
        bar = b;
        state = record {
          acc = acc;
          cur_bucket = s.cur_bucket;
          last_close = keep_close ops (bar_of ops bar_ms cb ticks c) c;
        };
        result =
            ap
              (λ (o : Option B). (
                o,
                record {
                  acc = acc;
                  cur_bucket = s.cur_bucket;
                  last_close = keep_close ops (bar_of ops bar_ms cb ticks c) c;
                },
              ))
              is_bar;
        opens = at;
        still = keep_close-usable (bar_of ops bar_ms cb ticks c) c h';
      }

  record Rolled (emitted : Option B) (rounds bucket cb : ℕ) (s : SynthS10State A F) : Type 0 where
    pub state : SynthS10State A F
    pub result : roll ops bar_ms rounds bucket cb emitted s ≡ (emitted, state)
    pub still : usable ops state.last_close ≡ true

  -- Behind the first bar the loop changes the state only.
  roll-some :
      (rounds bucket cb : ℕ) (b : B) (s : SynthS10State A F)
      → usable ops s.last_close ≡ true
      → Rolled (some b) rounds bucket cb s
  unfolding roll
  roll-some zero bucket cb b s h = record { state = _; result = refl; still = h }
  roll-some (suc rounds) bucket cb b s h =
      let f : Flushed ops bar_ms cb s = flush_bucket-Flushed cb s h in
      let r : Rolled (some b) rounds bucket (cb + bar_ms) f.state =
        roll-some rounds bucket (cb + bar_ms) b f.state f.still in
      elim (Bool-cases (ltb cb bucket)) [
        | inl more ↦ record {
          state = r.state;
          result = rw (more, f.result) r.result;
          still = r.still;
        }
        | inr done ↦ record { state = s; result = rw done; still = h }
      ]

  -- Where a bucket is to be closed, the loop gives its bar.
  record Closed (rounds bucket cb : ℕ) (s : SynthS10State A F) : Type 0 where
    pub bar : B
    pub state : SynthS10State A F
    pub result : roll ops bar_ms rounds bucket cb none s ≡ (some bar, state)
    pub opens : Near (ops.open_time_ms bar) cb
    pub still : usable ops state.last_close ≡ true

  roll-Closed :
      (rounds bucket cb : ℕ) (s : SynthS10State A F)
      → usable ops s.last_close ≡ true
      → ltb cb bucket ≡ true
      → Closed (suc rounds) bucket cb s
  unfolding roll
  roll-Closed rounds bucket cb s h more =
      let f : Flushed ops bar_ms cb s = flush_bucket-Flushed cb s h in
      let r : Rolled (some f.bar) rounds bucket (cb + bar_ms) f.state =
        roll-some rounds bucket (cb + bar_ms) f.bar f.state f.still in
      record {
        bar = f.bar;
        state = r.state;
        result = rw (more, f.result) r.result;
        opens = f.opens;
        still = r.still;
      }

  module _ {H : Type 0} (w : Wire H) (seed : F) where
    roll_over-Fed :
        (rec : IndexRecord H F) (cb : ℕ) (s : SynthS10State A F)
        → usable ops s.last_close ≡ true
        → usable ops (mid ops rec.index) ≡ true
        → ltb cb (bucket_of w ops bar_ms rec) ≡ true
        → (b : B) × (s' : SynthS10State A F) × (roll_over w ops bar_ms rec cb s ≡ (some b, s'))
          × Near (ops.open_time_ms b) cb
          × (s'.cur_bucket ≡ some (bucket_of w ops bar_ms rec))
          × (usable ops s'.last_close ≡ true)
    unfolding roll_over
    roll_over-Fed rec cb s h good more =
        let c : Closed 360 (bucket_of w ops bar_ms rec) cb s = roll-Closed 359 _ cb s h more in
        (
          c.bar,
          ingest_tick w ops bar_ms rec
              (record c.state { cur_bucket = some (bucket_of w ops bar_ms rec) }),
          rw c.result,
          c.opens,
          refl,
          if-usable _ (mid ops rec.index) _ refl c.still,
        )

    at_bucket-Fed :
        (rec : IndexRecord H F) (cur : Option ℕ) (s : SynthS10State A F)
        → s.cur_bucket ≡ cur
        → Ready ops seed cur s.last_close
        → usable ops (mid ops rec.index) ≡ true
        → (out : Option B) × (s' : SynthS10State A F) × (at_bucket w ops bar_ms rec cur s
            ≡ (out, s'))
          × OpenAt ops (bars_of ops out) (left cur (some (bucket_of w ops bar_ms rec)))
          × (s'.cur_bucket ≡ move cur (some (bucket_of w ops bar_ms rec)))
          × Ready ops seed (move cur (some (bucket_of w ops bar_ms rec))) s'.last_close
    at_bucket-Fed rec none s is_cur ready good = (
      none,
      ingest_tick w ops bar_ms rec (record s { cur_bucket = some (bucket_of w ops bar_ms rec) }),
      refl,
      tt,
      refl,
      rw good good,
    )
    at_bucket-Fed rec (some cb) s is_cur ready good =
        elim (Bool-cases (ltb cb (bucket_of w ops bar_ms rec))) [
          | inl more ↦
              let (b, s', e, opens, cur, still) = roll_over-Fed rec cb s ready good more in
              (some b, s', rw more e, rw more (opens, tt), rw more cur, still)
          | inr no_more ↦ elim (Bool-cases (ltb (bucket_of w ops bar_ms rec) cb)) [
            | inl late ↦ (none, s, rw (no_more, late), rw no_more tt, rw no_more is_cur, ready)
            | inr same ↦ (
              none,
              ingest_tick w ops bar_ms rec s,
              rw (no_more, same),
              rw no_more tt,
              rw no_more is_cur,
              rw good good,
            )
          ]
        ]

    -- A tick gives the bar of the bucket that it closes, and none of the buckets behind that one.
    pub feed_synth_tick-Fed :
        (rec : IndexRecord H F) (cur : Option ℕ) (s : SynthS10State A F)
        → s.cur_bucket ≡ cur
        → Ready ops seed cur s.last_close
        → Fed w ops bar_ms seed rec cur s
    unfolding feed_synth_tick
    feed_synth_tick-Fed rec cur s is_cur ready =
        elim (Bool-cases (usable ops (mid ops rec.index))) [
          | inl good ↦
              let (out, s', e, opens, moved, still) = at_bucket-Fed rec cur s is_cur ready good in
              record {
                out = out;
                state = s';
                result = rw good (ap (λ c. at_bucket w ops bar_ms rec c s) is_cur ∙ e);
                opens = rw good opens;
                cur_bucket = rw good moved;
                ready = rw good still;
              }
          | inr bad ↦ record {
            out = none;
            state = s;
            result = rw bad;
            opens = rw bad tt;
            cur_bucket = rw bad is_cur;
            ready = rw bad ready;
          }
        ]
