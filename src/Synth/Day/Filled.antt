-- ===== src/Synth/Day/Filled.antt =====
-- The whole of a day of src/bin/synth_backfill_from_idx.rs: the bars of its ticks, and the fill behind them.
use native.Mathlib.Nat.{add-div_left, div-eq_of_lt}
use series_factory.Prelude.{
  ℕ, zero, suc, ◌+◌, ◌-◌, ◌/◌, ◌≤◌, ◌<◌, ◌≡◌, refl, sym, ◌∙◌, ap, subst, Bool, true, Option, none,
  some, List, [], ◌∷◌, ◌++◌, arith, leb, Bool-cases, inl, inr, leb→le,
}
use series_factory.Mitch.{IndexRecord, Wire}
use series_factory.Synth.S10.{BarOps, IsBarOps, SynthS10State, usable}
use series_factory.Synth.S10.Flushed.{Ready, Flushed, flush_bucket-Flushed}
use series_factory.Synth.Day.{
  Replay, DayState, fill_one, fill, fill_from, seeded, gap_fill, feed_legs, synth_day,
}
use series_factory.Synth.Day.Opens.{
  closed, still_open, grid, grid_from, grid_of, start, ticks_of, Writes, Writes-nil, Writes-append,
  Wrote, write_bar-Wrote, feed_legs-Adds,
}

module _ (bar_ms : ℕ) (positive : 1 ≤ bar_ms) where
  count_step :
      (d_end c : ℕ)
      → c < d_end
      → (d_end - c + (bar_ms - 1)) / bar_ms ≡ suc ((d_end - (c + bar_ms) + (bar_ms - 1)) / bar_ms)
  count_step d_end c h = ap (λ n. n / bar_ms) whole ∙ add-div_left (d_end - c - 1) positive ∙ rest
    where
      whole : d_end - c + (bar_ms - 1) ≡ bar_ms + (d_end - c - 1)
      whole = omega arith

      rest : (d_end - c - 1) / bar_ms + 1 ≡ suc ((d_end - (c + bar_ms) + (bar_ms - 1)) / bar_ms)
      rest = elim (Bool-cases (leb bar_ms (d_end - c))) [
        | inl long ↦
            let e : d_end - c - 1 ≡ d_end - (c + bar_ms) + (bar_ms - 1) =
              omega (arith, leb→le bar_ms (d_end - c) long) in
            omega (arith, ap (λ n. n / bar_ms) e)
        | inr short ↦
            let lt : d_end - c < bar_ms = ground arith in
            omega (
              arith,
              div-eq_of_lt {n = d_end - c - 1} {m = bar_ms} (omega arith),
              div-eq_of_lt {n = d_end - (c + bar_ms) + (bar_ms - 1)} {m = bar_ms} (omega arith),
            )
      ]

  grid_from-suc :
      (d_end c : ℕ) → c < d_end → grid_from bar_ms d_end c ≡ c ∷ grid_from bar_ms d_end (c + bar_ms)
  grid_from-suc d_end c h = ap (λ n. grid bar_ms n c) (count_step d_end c h)

  grid_from-nil : (d_end c : ℕ) → d_end ≤ c → grid_from bar_ms d_end c ≡ []
  grid_from-nil d_end c h = ap (λ n. grid bar_ms n c) (div-eq_of_lt (omega arith))

module _ {A B H F Rp : Type 0} (w : Wire H) {ops : BarOps A B F} (laws : IsBarOps ops)
    (replay : Replay Rp H F) (bar_ms d_start d_end : ℕ) (seed : F) where
  abbrev Grows : List B → List B → List ℕ → Type 0
  Grows = Writes w ops replay bar_ms d_start d_end

  record Fills (c : ℕ) (day day' : DayState A B F Rp) : Type 0 where
    pub new : Grows day.written day'.written (grid_from bar_ms d_end c)
    pub ready : Ready ops seed day'.s10.cur_bucket day'.s10.last_close

  record FillsOne (c : ℕ) (day : DayState A B F Rp) : Type 0 where
    pub state : DayState A B F Rp
    pub result : fill_one w ops replay bar_ms d_start d_end c day ≡ state
    pub new : Grows day.written state.written (c ∷ [])
    pub still : usable ops state.s10.last_close ≡ true
    pub cur_bucket : state.s10.cur_bucket ≡ some (c + bar_ms)

  fill_one-FillsOne :
      (c : ℕ) (day : DayState A B F Rp) → usable ops day.s10.last_close ≡ true → FillsOne c day
  fill_one-FillsOne c day h =
      let f : Flushed ops bar_ms c day.s10 = flush_bucket-Flushed laws bar_ms c day.s10 h in
      let day1 : DayState A B F Rp = record day { s10 = f.state } in
      let wrote : Wrote w ops replay bar_ms d_start d_end (some f.bar) day1 =
        write_bar-Wrote w ops replay bar_ms d_start d_end (some f.bar) day1 in
      record {
        state = record day1 {
          s10 = record f.state { cur_bucket = some (c + bar_ms) };
          s10_today = wrote.count;
          written = wrote.written;
        };
        result = rw (f.result, wrote.result) refl;
        new = wrote.new (c ∷ []) (f.opens, tt);
        still = f.still;
        cur_bucket = refl;
      }

  module _ (positive : 1 ≤ bar_ms) where
    nothing :
        (c : ℕ) (day : DayState A B F Rp)
        → d_end ≤ c
        → Grows day.written day.written (grid_from bar_ms d_end c)
    nothing c day h =
        subst (Grows day.written day.written) (sym (grid_from-nil bar_ms positive d_end c h))
          (Writes-nil w ops replay bar_ms d_start d_end day.written)

    fill-Fills :
        (fuel c : ℕ) (day : DayState A B F Rp)
        → d_end - c ≤ fuel
        → usable ops day.s10.last_close ≡ true
        → day.s10.cur_bucket ≡ some c
        → Fills c day (fill w ops replay bar_ms d_start d_end fuel c day)
    unfolding fill
    fill-Fills zero c day enough h is_cur = record {
      new = nothing c day (omega arith);
      ready = subst (λ cur. Ready ops seed cur day.s10.last_close) (sym is_cur) h;
    }
    fill-Fills (suc fuel) c day enough h is_cur = elim (Bool-cases (leb d_end c)) [
      | inl done ↦ rw done (record {
        new = nothing c day (leb→le d_end c done);
        ready = subst (λ cur. Ready ops seed cur day.s10.last_close) (sym is_cur) h;
      })
      | inr more ↦
          let lt : c < d_end = ground arith in
          let one : FillsOne c day = fill_one-FillsOne c day h in
          let all : Fills (c + bar_ms) one.state
              (fill w ops replay bar_ms d_start d_end fuel (c + bar_ms) one.state) =
            fill-Fills fuel (c + bar_ms) one.state (omega arith) one.still one.cur_bucket in
          rw (more, one.result)
            (record {
              new =
                  subst
                    (Grows day.written
                      (fill w ops replay bar_ms d_start d_end fuel (c + bar_ms) one.state).written)
                    (sym (grid_from-suc bar_ms positive d_end c lt))
                    (Writes-append w ops replay bar_ms d_start d_end day.written one.state.written _
                      (c ∷ []) (grid_from bar_ms d_end (c + bar_ms)) one.new all.new);
              ready = all.ready;
            })
    ]

    FillsFrom : Option ℕ → DayState A B F Rp → DayState A B F Rp → Type 0
    FillsFrom c day day' =
        Grows day.written day'.written (grid_of bar_ms d_end c)
        × Ready ops seed day'.s10.cur_bucket day'.s10.last_close

    fill_from-FillsFrom :
        (c : Option ℕ) (day : DayState A B F Rp)
        → Ready ops seed c day.s10.last_close
        → day.s10.cur_bucket ≡ c
        → FillsFrom c day (fill_from w ops replay bar_ms d_start d_end c day)
    unfolding FillsFrom
    fill_from-FillsFrom none day ready is_cur = (
      Writes-nil w ops replay bar_ms d_start d_end day.written,
      subst (λ cur. Ready ops seed cur day.s10.last_close) (sym is_cur) ready,
    )
    fill_from-FillsFrom (some c) day ready is_cur =
        let f : Fills c day (fill w ops replay bar_ms d_start d_end (d_end - c) c day) =
          fill-Fills (d_end - c) c day (omega arith) ready is_cur in
        (f.new, f.ready)

    start-Ready :
        (cur : Option ℕ) (c : F)
        → Ready ops seed cur c
        → Ready ops seed (start (usable ops seed) d_start cur) c
    start-Ready none c ready = elim (Bool-cases (usable ops seed)) [
      | inl good ↦ rw good (ap (usable ops) ready ∙ good)
      | inr bad ↦ rw bad ready
    ]
    start-Ready (some b) c ready = ready

    seeded-start :
        (cur : Option ℕ) (s : SynthS10State A F)
        → s.cur_bucket ≡ cur
        → Ready ops seed cur s.last_close
        → seeded w ops replay bar_ms d_start d_end s ≡ start (usable ops seed) d_start cur
    seeded-start none s is_cur ready = rw (is_cur, ready) refl
    seeded-start (some b) s is_cur ready = rw is_cur refl

    gap_fill-FillsFrom :
        (cur : Option ℕ) (day : DayState A B F Rp)
        → day.s10.cur_bucket ≡ cur
        → Ready ops seed cur day.s10.last_close
        → FillsFrom
            (start (usable ops seed) d_start cur)
            day
            (gap_fill w ops replay bar_ms d_start d_end day)
    unfolding gap_fill FillsFrom
    gap_fill-FillsFrom cur day is_cur ready =
        subst
          (λ c. FillsFrom (start (usable ops seed) d_start cur) day (
            fill_from w ops replay bar_ms d_start d_end c
              (record day { s10 = record day.s10 { cur_bucket = c } })))
          (sym (seeded-start cur day.s10 is_cur ready))
          (fill_from-FillsFrom (start (usable ops seed) d_start cur)
            (record day {
              s10 = record day.s10 { cur_bucket = start (usable ops seed) d_start cur };
            })
            (start-Ready cur day.s10.last_close ready) refl)

module _ {A B H F Rp : Type 0} (w : Wire H) {ops : BarOps A B F} (laws : IsBarOps ops)
    (replay : Replay Rp H F) (bar_ms d_start d_end : ℕ) (positive : 1 ≤ bar_ms) where
  -- From a state in which an open bucket has a usable last close, and where stamped and flat bars open within a
  -- millisecond of where they are told to: a day writes, of one bar for each of these buckets, in order, which opens
  -- within a millisecond of it, those that open in the day: the buckets that a later tick closes, and no empty one
  -- in between, and then every bucket from the one that is open behind the ticks (without one, from the start of the
  -- day if the last close is usable) to the end of the day; and the state behind the day is such a state again.
  pub synth_day-opens :
      (legs : List (IndexRecord H F × Bool)) (m : Rp) (s : SynthS10State A F) (before : List B)
      → Ready ops s.last_close s.cur_bucket s.last_close
      → let day = synth_day w ops replay bar_ms d_start d_end legs m s before in
        let ts = ticks_of w ops replay bar_ms d_start d_end legs m in
        Writes w ops replay bar_ms d_start d_end before day.written (
          closed s.cur_bucket ts
          ++ grid_of bar_ms d_end
              (start (usable ops s.last_close) d_start (still_open s.cur_bucket ts)))
        × Ready ops s.last_close day.s10.cur_bucket day.s10.last_close
  unfolding synth_day FillsFrom
  synth_day-opens legs m s before ready =
      let day : DayState A B F Rp = record {
        merge_state = m;
        s10 = s;
        ticks_in_merge = 0;
        synth_emits = 0;
        s10_today = 0;
        written = before;
      } in
      let fed =
        feed_legs-Adds w ops replay bar_ms d_start d_end laws s.last_close legs day s.cur_bucket
          refl ready in
      let filled =
        gap_fill-FillsFrom w laws replay bar_ms d_start d_end s.last_close positive
          (still_open s.cur_bucket (ticks_of w ops replay bar_ms d_start d_end legs m))
          (feed_legs w ops replay bar_ms d_start d_end legs day) fed.cur_bucket fed.ready in
      let ts = ticks_of w ops replay bar_ms d_start d_end legs m in
      let ticked = closed s.cur_bucket ts in
      let grid_after =
        grid_of bar_ms d_end
          (start (usable ops s.last_close) d_start (still_open s.cur_bucket ts)) in
      (
        Writes-append w ops replay bar_ms d_start d_end before _ _ ticked grid_after fed.new
            filled.0,
        filled.1,
      )
