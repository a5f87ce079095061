-- ===== src/Sharding/Writer/Window.antt =====
-- The cached window of the current day in src/sharding.rs against the calendar.
use series_factory.Prelude.{
  ◌≡◌, refl, sym, subst, Bool, true, false, Option, none, some, arith, if◌then◌else◌, Bool-cases,
  inl, inr,
}
use series_factory.Prelude.Int.{ℤ, ◌+ℤ◌, ◌≤ℤ◌, ltb_ℤ}
use series_factory.Files.{World, Io, done, fault, not_found, failed, refused, remove_file}
use series_factory.Sharding.Writer.{
  Calendar, IsCalendar, LogIo, Writer, new, Result, touch, moved_to, open_log, after_remove,
  append_to, append_dated, append_fast, in_window, rotate, append, after_open, contains,
}

-- The window is that of the open log's day.
abbrev pub Windowed : {D : Type 0} → Calendar D → Writer D → Type 0
Windowed c wr =
    (date : _)
    → wr.current ≡ some date
    → (wr.cur_day_start_ms ≡ c.day_start_ms date)
      × (wr.cur_day_end_ms ≡ c.day_start_ms date +ℤ c.ms_per_day)

pub Windowed-new : {D : Type 0} (c : Calendar D) → Windowed c new
unfolding new
Windowed-new c date h = cc

module _ {D R : Type 0} (c : Calendar D) (io : LogIo R) where
  -- The window survives every way that an append can end.
  opened-Windowed :
      (date : D) (rec : R) (wr : Writer D) (p : Io (Unit {0}) × World R)
      → wr.current ≡ none
      → wr.cur_day_start_ms ≡ c.day_start_ms date
      → wr.cur_day_end_ms ≡ c.day_start_ms date +ℤ c.ms_per_day
      → Windowed c (after_open c io date rec wr p).1
  opened-Windowed date rec wr (done u, d) h s e = λ x k. ground arith
  opened-Windowed date rec wr (fault f, d) h s e = λ x k. ground arith

  rotate-Windowed :
      (today date : D) (rec : R) (wr : Writer D) (d : World R)
      → Windowed c (rotate c io today date rec wr d).1
  unfolding rotate
  rotate-Windowed today date rec wr d = choose (c.at_or_after date today) _ _ (opened d) (
      choose (contains c io wr.touched date) _ _ (opened d)
        (removed (remove_file (c.shard_path date) d)))
    where
      wr' : Writer D
      wr' = touch c io date (moved_to c io date wr)

      choose :
          (b : Bool) (x y : Result c io)
          → Windowed c x.1
          → Windowed c y.1
          → Windowed c (if b then x else y).1
      choose true x y h k = h
      choose false x y h k = k

      opened : (d' : World R) → Windowed c (open_log c io date rec wr' d').1
      opened d' =
          opened-Windowed date rec wr' (io.open_buffered (c.shard_path date) d') refl refl refl

      removed : (p : Io (Unit {0}) × World R) → Windowed c (after_remove c io date rec wr' p).1
      removed (done u, d') = opened d'
      removed (fault not_found, d') = opened d'
      removed (fault failed, d') = λ x k. cc
      removed (fault refused, d') = λ x k. cc

  append_to-Windowed :
      (date : D) (rec : R) (wr : Writer D) (d : World R)
      → Windowed c wr
      → Windowed c (append_to c io date rec wr d).1
  append_to-Windowed date rec wr d h = h

  dated-Windowed :
      (today date : D) (rec : R) (current : Option D) (wr : Writer D) (d : World R)
      → Windowed c wr
      → Windowed c (append_dated c io today date rec current wr d).1
  dated-Windowed today date rec none wr d h = rotate-Windowed today date rec wr d
  dated-Windowed today date rec (some day) wr d h = elim (Bool-cases (c.same_date day date)) [
    | inl same ↦ rw same h
    | inr other ↦ rw other (rotate-Windowed today date rec wr d)
  ]

  fast-Windowed :
      (b : Bool) (today date : D) (rec : R) (current : Option D) (wr : Writer D) (d : World R)
      → Windowed c wr
      → Windowed c (append_fast c io b today date rec current wr d).1
  fast-Windowed true today date rec none wr d h = rotate-Windowed today date rec wr d
  fast-Windowed true today date rec (some day) wr d h = h
  fast-Windowed false today date rec current wr d h = dated-Windowed today date rec current wr d h

  -- Every append keeps the window in step with the open log, also one that fails.
  pub append-Windowed :
      (today : D) (ts_ms : ℤ) (rec : R) (wr : Writer D) (d : World R)
      → Windowed c wr
      → Windowed c (append c io today ts_ms rec wr d).1
  unfolding append
  append-Windowed today ts_ms rec wr d h =
      fast-Windowed (in_window c io ts_ms wr) today (c.date_of ts_ms) rec wr.current wr d h

  fast-eq-dated :
      (laws : IsCalendar c) (b : Bool) (today : D) (ts_ms : ℤ) (rec : R) (current : Option D)
      (wr : Writer D) (d : World R)
      → ((day : D) → current ≡ some day → b ≡ true → c.date_of ts_ms ≡ day)
      → append_fast c io b today (c.date_of ts_ms) rec current wr d
        ≡ append_dated c io today (c.date_of ts_ms) rec current wr d
  fast-eq-dated laws false today ts_ms rec current wr d h = refl
  fast-eq-dated laws true today ts_ms rec none wr d h = refl
  fast-eq-dated laws true today ts_ms rec (some day) wr d h =
      rw ((laws.same_iff day (c.date_of ts_ms)).1 (sym (h day refl refl)))

-- While the window is that of the open log's day, the append with the cached window does what it would
-- do by asking the calendar for the date of every record.
pub append-eq-dated :
    {D R : Type 0} (c : Calendar D)
    → IsCalendar c
    → (io : LogIo R) (today : D) (ts_ms : ℤ) (rec : R) (wr : Writer D) (d : World R) → Windowed c wr
    → append c io today ts_ms rec wr d
      ≡ append_dated c io today (c.date_of ts_ms) rec wr.current wr d
unfolding append
append-eq-dated c laws io today ts_ms rec wr d h =
    fast-eq-dated c io laws (in_window c io ts_ms wr) today ts_ms rec wr.current wr d
      λ day k inside.
        laws.window_date day ts_ms (subst (λ t. t ≤ℤ ts_ms) (h day k).0 (lower inside))
          (subst (λ t. ltb_ℤ ts_ms t ≡ true) (h day k).1 (upper inside))
  where
    lower : in_window c io ts_ms wr ≡ true → wr.cur_day_start_ms ≤ℤ ts_ms
    lower e = ground arith

    upper : in_window c io ts_ms wr ≡ true → ltb_ℤ ts_ms wr.cur_day_end_ms ≡ true
    upper e = ground arith
