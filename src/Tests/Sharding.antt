-- ===== src/Tests/Sharding.antt =====
-- The shard writer at concrete inputs: three days, the last of which is today.
use series_factory.Prelude.{
  ◌↔◌, ◌∙◌, ap, sym, append-nil, ℕ, zero, suc, ◌≡◌, refl, String, Bool, true, false, none, some,
  List, [], ◌∷◌, ◌++◌, arith, if◌then◌else◌, inl, inr, leb,
}
use series_factory.Prelude.Int.{ℤ, pos, negsuc, ◌+ℤ◌, ◌≤ℤ◌, ltb_ℤ}
use series_factory.Files.{FilePath, same_path, Files, write, World, Io, done, spend}
use series_factory.Files.Laws.{write_self, write_ne}
use series_factory.Sharding.Writer.{
  Calendar, IsCalendar, LogIo, IsLogIo, Writer, new, or_empty, Extends, append, append_dated,
}
use series_factory.Sharding.Writer.Window.{Windowed, append-eq-dated}
use series_factory.Sharding.Writer.Live.{append-Extends}
use series_factory.Sharding.Writer.Days.{append_each, of_day, shard_after, append_each-days}

data Day : Type 0 where
  first second third : Day

abbrev same_day : Day → Day → Bool
same_day first first = true
same_day second second = true
same_day third third = true
same_day a b = false

abbrev start : Day → ℕ
start first = 0
start second = 86400000
start third = 172800000

abbrev stem_of : Day → String
stem_of first = "1970-01-01"
stem_of second = "1970-01-02"
stem_of third = "1970-01-03"

abbrev calendar : Calendar Day
calendar = record {
  date_of = λ ts.
      if ltb_ℤ ts (pos 86400000) then first else if ltb_ℤ ts (pos 172800000) then second else third;
  day_start_ms = λ d. pos (start d);
  ms_per_day = pos 86400000;
  same_date = same_day;
  at_or_after = λ a b. leb (start b) (start a);
  shard_path = λ d. record { dir = "7"; stem = stem_of d; suffix = "idx" };
}

window :
    (d : Day) (ts : ℤ)
    → pos (start d) ≤ℤ ts
    → ltb_ℤ ts (pos (start d) +ℤ pos 86400000) ≡ true
    → calendar.date_of ts ≡ d
unfolding ◌+ℤ◌
window first (pos t) h k = ground arith
window second (pos t) h k = ground arith
window third (pos t) h k = ground arith
window first (negsuc t) h k = ground arith
window second (negsuc t) h k = ground arith
window third (negsuc t) h k = ground arith

same : (a b : Day) → (same_day a b ≡ true) ↔ (a ≡ b)
same first first = (λ h. refl, λ h. refl)
same second second = (λ h. refl, λ h. refl)
same third third = (λ h. refl, λ h. refl)
same first second = (λ h. cc, λ h. cc)
same first third = (λ h. cc, λ h. cc)
same second first = (λ h. cc, λ h. cc)
same second third = (λ h. cc, λ h. cc)
same third first = (λ h. cc, λ h. cc)
same third second = (λ h. cc, λ h. cc)

apart :
    (a b : Day)
    → same_day a b ≡ false
    → same_path (calendar.shard_path a) (calendar.shard_path b) ≡ false
apart first second h = refl
apart first third h = refl
apart second first h = refl
apart second third h = refl
apart third first h = refl
apart third second h = refl
apart first first h = cc
apart second second h = cc
apart third third h = cc

calendar_laws : IsCalendar calendar
calendar_laws = record { window_date = window; same_iff = same; path_ne = apart }

abbrev append_content : {R : Type 0} → FilePath → List R → World R → Io (Unit {0}) × World R
append_content p rs d =
    spend d.budget (λ files. (done tt, write p (some (or_empty (files p) ++ rs)) files)) d.files

-- Appending no record creates the file if it is not there.
abbrev log_io : LogIo ℕ
log_io = record {
  open_buffered =
      λ p d. spend d.budget (λ files. (done tt, write p (some (or_empty (files p))) files)) d.files;
  append = λ p r d. append_content p (r ∷ []) d;
  flush = λ p d. (done tt, d);
}

log_laws : IsLogIo log_io
log_laws = record {
  open_other = λ p q d h. open_ne p q d.budget d.files h;
  open_extends = λ p d. open_more p d.budget d.files;
  open_total = λ p files n. refl;
  append_other = λ p q r d h. append_ne p q r d.budget d.files h;
  append_extends = λ p r d. append_more p r d.budget d.files;
  append_total = λ p r files n. refl;
}
  where
    open_ne :
        (p q : FilePath) (n : ℕ) (files : Files ℕ)
        → same_path p q ≡ false
        → (log_io.open_buffered p (record { files = files; budget = n })).1.files q ≡ files q
    open_ne p q zero files h = refl
    open_ne p q (suc n) files h = write_ne p q _ files h

    append_ne :
        (p q : FilePath) (r n : ℕ) (files : Files ℕ)
        → same_path p q ≡ false
        → (log_io.append p r (record { files = files; budget = n })).1.files q ≡ files q
    append_ne p q r zero files h = refl
    append_ne p q r (suc n) files h = write_ne p q _ files h

    open_more :
        (p : FilePath) (n : ℕ) (files : Files ℕ)
        → Extends
            (files p)
            ((log_io.open_buffered p (record { files = files; budget = n })).1.files p)
    open_more p zero files = inl refl
    open_more p (suc n) files =
        inr ([], write_self p _ files ∙ ap some (sym (append-nil (or_empty (files p)))))

    append_more :
        (p : FilePath) (r n : ℕ) (files : Files ℕ)
        → Extends (files p) ((log_io.append p r (record { files = files; budget = n })).1.files p)
    append_more p r zero files = inl refl
    append_more p r (suc n) files = inr (r ∷ [], write_self p _ files)

abbrev stale : Files ℕ
stale p = if same_path p (calendar.shard_path first) then some (77 ∷ []) else none

-- A straggler of the first day behind a record of the second.
abbrev straggling : List (ℤ × ℕ)
straggling = (pos 5, 10) ∷ (pos 86400005, 20) ∷ (pos 86399999, 11) ∷ []

append_each-days_example :
    let res =
      append_each calendar log_io third straggling new (record { files = stale; budget = 9 }) in
    (res.0 ≡ done tt)
    × ((e : Day)
        → res.2.files (calendar.shard_path e)
          ≡ shard_after false (stale (calendar.shard_path e)) (of_day calendar e straggling))
append_each-days_example =
    append_each-days calendar calendar_laws log_laws third straggling stale 9
      (refl, (refl, (refl, tt))) (omega arith)

first_shard :
    shard_after false (some (77 ∷ [])) (of_day calendar first straggling) ≡ some (10 ∷ 11 ∷ [])
first_shard = refl

append-Extends_example : Extends (stale (calendar.shard_path first)) (
    (append calendar log_io first (pos 7) 78 new (record { files = stale; budget = 2 })).2.files
      (calendar.shard_path first))
append-Extends_example =
    append-Extends calendar calendar_laws log_laws first first refl (pos 7) 78 new
      (record { files = stale; budget = 2 })

-- The log of the first day is open.
abbrev running : Writer Day
running = record {
  current = some first;
  touched = first ∷ [];
  cur_day_start_ms = pos 0;
  cur_day_end_ms = pos 86400000;
}

running-Windowed : Windowed calendar running
unfolding ◌+ℤ◌
running-Windowed first h = (refl, refl)
running-Windowed second h = cc
running-Windowed third h = cc

append-eq-dated_example :
    append calendar log_io third (pos 8) 12 running (record { files = stale; budget = 2 })
    ≡ append_dated calendar log_io third first 12
        (some first)
        running
        (record { files = stale; budget = 2 })
append-eq-dated_example =
    append-eq-dated calendar calendar_laws log_io third (pos 8) 12 running
      (record { files = stale; budget = 2 }) running-Windowed
