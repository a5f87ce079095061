-- ===== src/Sharding/Writer.antt =====
-- `ShardedWriter` of src/sharding.rs. `D` is `NaiveDate`, `R` the record type. The writer lock is held
-- for the writer's whole life by its owner and is no part of the state here; log lines are left out.
-- The buffer of an `AppendLog` is not modelled: nothing reads a shard while its log is open, and the
-- log is flushed when it is dropped or closed.
pub mod Window
pub mod Live
pub mod Step
pub mod Days
use series_factory.Prelude.{
  ℕ, suc, ◌^◌, ◌-◌, ◌≡◌, ◌↔◌, ◌⊎◌, Bool, true, false, not, ◌&&◌, Option, none, some, List, [], ◌∷◌,
  ◌++◌, if◌then◌else◌,
}
use series_factory.Prelude.Int.{ℤ, pos, negsuc, ◌+ℤ◌, ◌≤ℤ◌, ltb_ℤ, leb_ℤ}
use series_factory.Files.{
  FilePath, same_path, Files, write, World, Fault, Io, done, fault, not_found, Action, remove_file,
}

-- The calendar of `chrono` and `nxr_sdk::shard`, the path of a day's shard, and the shard's log.
pub record Calendar (D : Type 0) : Type 0 where
  pub date_of : ℤ → D
  pub day_start_ms : D → ℤ
  pub ms_per_day : ℤ
  pub same_date : D → D → Bool
  -- date >= today
  pub at_or_after : D → D → Bool
  pub shard_path : D → FilePath

-- A day is the window of its milliseconds, and has a file of its own.
pub record IsCalendar {D : Type 0} (c : Calendar D) : Type 0 where
  pub window_date :
      (d : D) (ts : ℤ)
      → c.day_start_ms d ≤ℤ ts
      → ltb_ℤ ts (c.day_start_ms d +ℤ c.ms_per_day) ≡ true
      → c.date_of ts ≡ d
  pub same_iff : (a b : D) → (c.same_date a b ≡ true) ↔ (a ≡ b)
  pub path_ne :
      (a b : D) → c.same_date a b ≡ false → same_path (c.shard_path a) (c.shard_path b) ≡ false

pub record LogIo (R : Type 0) : Type 0 where
  pub open_buffered : FilePath → Action R (Unit {0})
  pub append : FilePath → R → Action R (Unit {0})
  pub flush : FilePath → Action R (Unit {0})

abbrev pub or_empty : {R : Type 0} → Option (List R) → List R
or_empty none = []
or_empty (some rs) = rs

-- `later` holds what `earlier` did, and perhaps more behind it.
abbrev pub Extends : {R : Type 0} → Option (List R) → Option (List R) → Type 0
Extends {R} earlier later =
    (later ≡ earlier) ⊎ ((more : List R) × (later ≡ some (or_empty earlier ++ more)))

-- The log opens in append mode: it creates a missing file and only ever adds behind what is there. A
-- call on one file touches no other, and succeeds where the file system lets it.
pub record IsLogIo {R : Type 0} (io : LogIo R) : Type 0 where
  pub open_other :
      (p q : FilePath) (w : World R)
      → same_path p q ≡ false
      → (io.open_buffered p w).1.files q ≡ w.files q
  pub open_extends :
      (p : FilePath) (w : World R) → Extends (w.files p) ((io.open_buffered p w).1.files p)
  pub open_total :
      (p : FilePath) (files : Files R) (n : ℕ)
      → io.open_buffered p (record { files = files; budget = suc n })
        ≡ (done tt, record { files = write p (some (or_empty (files p))) files; budget = n })
  pub append_other :
      (p q : FilePath) (r : R) (w : World R)
      → same_path p q ≡ false
      → (io.append p r w).1.files q ≡ w.files q
  pub append_extends :
      (p : FilePath) (r : R) (w : World R) → Extends (w.files p) ((io.append p r w).1.files p)
  pub append_total :
      (p : FilePath) (r : R) (files : Files R) (n : ℕ)
      → io.append p r (record { files = files; budget = suc n }) ≡ (
        done tt,
        record { files = write p (some (or_empty (files p) ++ r ∷ [])) files; budget = n },
      )

-- `current` is the date of the open log.
pub record Writer (D : Type 0) : Type 0 where
  pub current : Option D
  pub touched : List D
  pub cur_day_start_ms : ℤ
  pub cur_day_end_ms : ℤ

-- `new`: i64::MAX and i64::MIN, so that no time is in the window.
unfoldable pub new : {D : Type 0} → Writer D
new = record {
  current = none;
  touched = [];
  cur_day_start_ms = pos (2 ^ 63 - 1);
  cur_day_end_ms = negsuc (2 ^ 63 - 1);
}

abbrev pub is_some : {A : Type 0} → Option A → Bool
is_some none = false
is_some (some a) = true

module _ {D R : Type 0} (c : Calendar D) (io : LogIo R) where
  abbrev pub Result : Type 0
  Result = Io (Unit {0}) × Writer D × World R

  abbrev pub contains : List D → D → Bool
  contains [] d = false
  contains (t ∷ ts) d = if c.same_date t d then true else contains ts d

  -- self.current.as_mut().unwrap().1.append(rec)?
  abbrev pub append_to : D → R → Writer D → World R → Result
  append_to date rec wr d = let (r, d') = io.append (c.shard_path date) rec d in (r, wr, d')

  -- `AppendLog::open_buffered`, and the append behind it.
  abbrev pub after_open : D → R → Writer D → Io (Unit {0}) × World R → Result
  after_open date rec wr (done u, d) = append_to date rec (record wr { current = some date }) d
  after_open date rec wr (fault e, d) = (fault e, wr, d)

  abbrev pub open_log : D → R → Writer D → World R → Result
  open_log date rec wr d = after_open date rec wr (io.open_buffered (c.shard_path date) d)

  -- A file that was not there is no error.
  abbrev pub after_remove : D → R → Writer D → Io (Unit {0}) × World R → Result
  after_remove date rec wr (done u, d) = open_log date rec wr d
  after_remove date rec wr (fault not_found, d) = open_log date rec wr d
  after_remove date rec wr (fault e, d) = (fault e, wr, d)

  -- The closed log, and the window of the new date.
  abbrev pub moved_to : D → Writer D → Writer D
  moved_to date wr = record wr {
    current = none;
    cur_day_start_ms = c.day_start_ms date;
    cur_day_end_ms = c.day_start_ms date +ℤ c.ms_per_day;
  }

  -- self.touched.insert(date)
  abbrev pub touch : D → Writer D → Writer D
  touch date wr = record wr {
    touched = if contains wr.touched date then wr.touched else date ∷ wr.touched;
  }

  unfoldable pub rotate : D → D → R → Writer D → World R → Result
  unfolding remove_file
  rotate today date rec wr d =
      let wr' = touch date (moved_to date wr) in
      if c.at_or_after date today
      then open_log date rec wr' d
      else if contains wr.touched date
      then open_log date rec wr' d
      else after_remove date rec wr' (remove_file (c.shard_path date) d)

  -- `Some((d, _)) if *d == date`
  abbrev pub append_dated : D → D → R → Option D → Writer D → World R → Result
  append_dated today date rec none wr d = rotate today date rec wr d
  append_dated today date rec (some day) wr d =
      if c.same_date day date then append_to day rec wr d else rotate today date rec wr d

  abbrev pub in_window : ℤ → Writer D → Bool
  in_window ts_ms wr = leb_ℤ wr.cur_day_start_ms ts_ms && ltb_ℤ ts_ms wr.cur_day_end_ms

  -- The same-day fast path, if a log is open.
  abbrev pub append_fast : Bool → D → D → R → Option D → Writer D → World R → Result
  append_fast true today date rec (some day) wr d = append_to day rec wr d
  append_fast inside today date rec current wr d = append_dated today date rec current wr d

  unfoldable pub append : D → ℤ → R → Writer D → World R → Result
  append today ts_ms rec wr d =
      append_fast (in_window ts_ms wr) today (c.date_of ts_ms) rec wr.current wr d

  unfoldable pub close : Writer D → World R → Result
  close wr d = elim wr.current [
    | none ↦ (done tt, wr, d)
    | some date ↦
        let (r, d') = io.flush (c.shard_path date) d in (r, record wr { current = none }, d')
  ]
