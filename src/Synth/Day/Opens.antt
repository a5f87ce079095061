-- ===== src/Synth/Day/Opens.antt =====
-- Where the bars of a day of src/bin/synth_backfill_from_idx.rs open, as far as its ticks go.
use series_factory.Prelude.{
  ℕ, zero, suc, ◌+◌, ◌-◌, ◌/◌, ◌≡◌, refl, sym, ◌∙◌, ap, Bool, Option, none, some, List, [], ◌∷◌,
  ◌++◌, if◌then◌else◌, Bool-cases, inl, inr, filter, append-nil, append_assoc, filter-append, subst,
}
use series_factory.Mitch.{IndexRecord, Wire}
use series_factory.Synth.S10.{BarOps, IsBarOps}
use series_factory.Synth.S10.Flushed.{
  move, left, OpenAt, OpenAt-append, bars_of, Ready, Fed, tick_of, feed_synth_tick-Fed,
}
use series_factory.Synth.Day.{
  Replay, DayState, in_day, write_bar, on_synth, rec_ts_ms, is_skipped, feed_leg, feed_legs,
}

-- The buckets that a row of ticks closes, in order, and the one that is open behind it.
abbrev pub closed : Option ℕ → List (Option ℕ) → List ℕ
closed cur [] = []
closed cur (t ∷ ts) = left cur t ++ closed (move cur t) ts

abbrev pub still_open : Option ℕ → List (Option ℕ) → Option ℕ
still_open cur [] = cur
still_open cur (t ∷ ts) = still_open (move cur t) ts

abbrev pub grid : ℕ → ℕ → ℕ → List ℕ
grid bar_ms zero c = []
grid bar_ms (suc n) c = c ∷ grid bar_ms n (c + bar_ms)

-- Every `bar_ms` from `c` on, below `d_end`.
abbrev pub grid_from : ℕ → ℕ → ℕ → List ℕ
grid_from bar_ms d_end c = grid bar_ms ((d_end - c + (bar_ms - 1)) / bar_ms) c

abbrev pub grid_of : ℕ → ℕ → Option ℕ → List ℕ
grid_of bar_ms d_end none = []
grid_of bar_ms d_end (some c) = grid_from bar_ms d_end c

abbrev pub start : Bool → ℕ → Option ℕ → Option ℕ
start has_close d_start none = if has_close then some d_start else none
start has_close d_start (some c) = some c

module _ {A B H F Rp : Type 0} (w : Wire H) (ops : BarOps A B F) (replay : Replay Rp H F)
    (bar_ms d_start d_end : ℕ) where
  abbrev synth_tick : Option (IndexRecord H F) → List (Option ℕ) → List (Option ℕ)
  synth_tick none ts = ts
  synth_tick (some rec) ts = tick_of w ops bar_ms rec ∷ ts

  -- The buckets of the ticks that the replay makes of the records which are not skipped.
  abbrev pub ticks_of : List (IndexRecord H F × Bool) → Rp → List (Option ℕ)
  ticks_of [] m = []
  ticks_of ((rec, was_base) ∷ legs) m =
      let (synth, m') =
        replay.feed_leg_tick m rec (rec_ts_ms w ops replay bar_ms d_start d_end rec) in
      let kept = synth_tick synth (ticks_of legs m') in
      let rest = ticks_of legs m in
      if is_skipped w ops replay bar_ms d_start d_end rec then rest else kept

  abbrev pub in_today : B → Bool
  in_today b = in_day w ops replay bar_ms d_start d_end (ops.open_time_ms b)

  -- Of a bar for each of the buckets `ts`, in order, which opens there within a millisecond, those that open in the
  -- day are what `after` has behind `before`.
  pub record Writes (before after : List B) (ts : List ℕ) : Type 0 where
    pub bars : List B
    pub open_at : OpenAt ops bars ts
    pub grown : after ≡ before ++ filter in_today bars

  pub Writes-nil : (before : List B) → Writes before before []
  Writes-nil before = record { bars = []; open_at = tt; grown = sym (append-nil before) }

  pub Writes-append :
      (before between after : List B) (ss ts : List ℕ)
      → Writes before between ss
      → Writes between after ts
      → Writes before after (ss ++ ts)
  Writes-append before between after ss ts a b = record {
    bars = a.bars ++ b.bars;
    open_at = OpenAt-append ops a.bars b.bars ss ts a.open_at b.open_at;
    grown =
        b.grown
        ∙ ap (λ bs. bs ++ filter in_today b.bars) a.grown
        ∙ append_assoc before (filter in_today a.bars) (filter in_today b.bars)
        ∙ ap (λ bs. before ++ bs) (sym (filter-append in_today a.bars b.bars));
  }

  pub record Wrote (out : Option B) (day : DayState A B F Rp) : Type 0 where
    pub count : ℕ
    pub written : List B
    pub result :
        write_bar w ops replay bar_ms d_start d_end out day
        ≡ record day { s10_today = count; written = written }
    pub new : (ts : List ℕ) → OpenAt ops (bars_of ops out) ts → Writes day.written written ts

  pub write_bar-Wrote : (out : Option B) (day : DayState A B F Rp) → Wrote out day
  write_bar-Wrote none day = record {
    count = day.s10_today;
    written = day.written;
    result = refl;
    new = λ ts h. record { bars = []; open_at = h; grown = sym (append-nil day.written) };
  }
  write_bar-Wrote (some b) day = elim (Bool-cases (in_today b)) [
    | inl today ↦ record {
      count = day.s10_today + 1;
      written = day.written ++ b ∷ [];
      result = rw today;
      new = λ ts h. record { bars = b ∷ []; open_at = h; grown = rw today };
    }
    | inr other ↦ record {
      count = day.s10_today;
      written = day.written;
      result = rw other;
      new = λ ts h. record {
        bars = b ∷ [];
        open_at = h;
        grown = rw other (sym (append-nil day.written));
      };
    }
  ]

  -- What a part of the day adds, from the bucket `cur` on over the ticks `ts`.
  pub record Adds (seed : F) (cur : Option ℕ) (ts : List (Option ℕ)) (before : List B)
      (day' : DayState A B F Rp) : Type 0 where
    pub cur_bucket : day'.s10.cur_bucket ≡ still_open cur ts
    pub ready : Ready ops seed (still_open cur ts) day'.s10.last_close
    pub new : Writes before day'.written (closed cur ts)

  closed_tick :
      (synth : Option (IndexRecord H F)) (cur : Option ℕ) (ts : List (Option ℕ))
      → closed cur (synth_tick synth ts)
        ≡ closed cur (synth_tick synth []) ++ closed (still_open cur (synth_tick synth [])) ts
  closed_tick none cur ts = refl
  closed_tick (some rec) cur ts = rw (append-nil (left cur (tick_of w ops bar_ms rec))) refl

  open_tick :
      (synth : Option (IndexRecord H F)) (cur : Option ℕ) (ts : List (Option ℕ))
      → still_open cur (synth_tick synth ts) ≡ still_open (still_open cur (synth_tick synth [])) ts
  open_tick none cur ts = refl
  open_tick (some rec) cur ts = refl

  module _ (laws : IsBarOps ops) (seed : F) where
    on_synth-Adds :
        (synth : Option (IndexRecord H F)) (day : DayState A B F Rp) (cur : Option ℕ)
        → day.s10.cur_bucket ≡ cur
        → Ready ops seed cur day.s10.last_close
        → (day' : DayState A B F Rp) × (on_synth w ops replay bar_ms d_start d_end synth day ≡ day')
          × (day'.merge_state ≡ day.merge_state)
          × Adds seed cur (synth_tick synth []) day.written day'
    on_synth-Adds none day cur is_cur ready = (
      day,
      refl,
      refl,
      record { cur_bucket = is_cur; ready = ready; new = Writes-nil day.written },
    )
    on_synth-Adds (some rec) day cur is_cur ready =
        let f : Fed w ops bar_ms seed rec cur day.s10 =
          feed_synth_tick-Fed laws bar_ms w seed rec cur day.s10 is_cur ready in
        let day1 : DayState A B F Rp = record day {
          s10 = f.state;
          synth_emits = day.synth_emits + 1;
        } in
        let wrote : Wrote f.out day1 = write_bar-Wrote f.out day1 in
        (
          record day1 { s10_today = wrote.count; written = wrote.written },
          rw f.result wrote.result,
          refl,
          record {
            cur_bucket = f.cur_bucket;
            ready = f.ready;
            new =
                wrote.new (left cur (tick_of w ops bar_ms rec) ++ [])
                  (rw (append-nil (left cur (tick_of w ops bar_ms rec))) f.opens);
          },
        )

    then-Adds :
        (synth : Option (IndexRecord H F)) (cur : Option ℕ) (ts : List (Option ℕ)) (before : List B)
        (day' day'' : DayState A B F Rp)
        → Adds seed cur (synth_tick synth []) before day'
        → Adds seed (still_open cur (synth_tick synth [])) ts day'.written day''
        → Adds seed cur (synth_tick synth ts) before day''
    then-Adds synth cur ts before day' day'' a b = record {
      cur_bucket = b.cur_bucket ∙ sym (open_tick synth cur ts);
      ready =
          subst (λ c. Ready ops seed c day''.s10.last_close) (sym (open_tick synth cur ts)) b.ready;
      new = subst (Writes before day''.written) (sym (closed_tick synth cur ts)) (
          Writes-append before day'.written day''.written (closed cur (synth_tick synth []))
            (closed (still_open cur (synth_tick synth [])) ts) a.new b.new);
    }

    pub feed_legs-Adds :
        (legs : List (IndexRecord H F × Bool)) (day : DayState A B F Rp) (cur : Option ℕ)
        → day.s10.cur_bucket ≡ cur
        → Ready ops seed cur day.s10.last_close
        → Adds seed cur
            (ticks_of legs day.merge_state)
            day.written
            (feed_legs w ops replay bar_ms d_start d_end legs day)
    unfolding feed_legs feed_leg
    feed_legs-Adds [] day cur is_cur ready = record {
      cur_bucket = is_cur;
      ready = ready;
      new = Writes-nil day.written;
    }
    feed_legs-Adds ((rec, was_base) ∷ legs) day cur is_cur ready =
        elim (Bool-cases (is_skipped w ops replay bar_ms d_start d_end rec)) [
          | inl skipped ↦ rw skipped (feed_legs-Adds legs day cur is_cur ready)
          | inr kept ↦
              let fed =
                replay.feed_leg_tick day.merge_state rec
                  (rec_ts_ms w ops replay bar_ms d_start d_end rec) in
              let day1 : DayState A B F Rp = record day {
                merge_state = fed.1;
                ticks_in_merge = day.ticks_in_merge + 1;
              } in
              let (day', e, same, added) = on_synth-Adds fed.0 day1 cur is_cur ready in
              rw (kept, e)
                (then-Adds fed.0 cur (ticks_of legs fed.1) day.written day' _ added (
                  subst
                    (λ m.
                      Adds seed (still_open cur (synth_tick fed.0 [])) (ticks_of legs m)
                        day'.written (feed_legs w ops replay bar_ms d_start d_end legs day'))
                    same
                    (feed_legs-Adds legs day' (still_open cur (synth_tick fed.0 []))
                      added.cur_bucket added.ready)))
        ]
