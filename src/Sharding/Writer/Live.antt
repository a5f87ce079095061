-- ===== src/Sharding/Writer/Live.antt =====
-- What one `append` of src/sharding.rs does to shards of the current day and later ones.
use series_factory.Prelude.{
  ◌≡◌, refl, sym, ◌∙◌, ap, inl, inr, Bool, true, false, Option, none, some, List, ◌++◌,
  append_assoc, if◌then◌else◌, Bool-cases,
}
use series_factory.Prelude.Int.{ℤ}
use series_factory.Files.{World, Io, done, fault, not_found, failed, refused, remove_file}
use series_factory.Files.Laws.{remove_file_other}
use series_factory.Sharding.Writer.{
  Calendar, IsCalendar, LogIo, IsLogIo, Writer, Extends, or_empty, Result, open_log, after_remove,
  append_to, append_dated, append_fast, in_window, rotate, append, after_open, contains,
}

Extends-trans : {R : Type 0} {x y z : Option (List R)} → Extends x y → Extends y z → Extends x z
Extends-trans (inl e) (inl f) = inl (f ∙ e)
Extends-trans (inl e) (inr (more, f)) = inr (more, f ∙ ap (λ t. some (or_empty t ++ more)) e)
Extends-trans (inr (more, e)) (inl f) = inr (more, f ∙ e)
Extends-trans {x = x} (inr (more, e)) (inr (more', f)) = inr (
  more ++ more',
  f ∙ ap (λ t. some (or_empty t ++ more')) e ∙ ap some (append_assoc (or_empty x) more more'),
)

module _ {D R : Type 0} (c : Calendar D) (laws : IsCalendar c) {io : LogIo R} (log : IsLogIo io)
    (e : D) where
  abbrev at_e : World R → Option (List R)
  at_e d = d.files (c.shard_path e)

  append_to-Extends :
      (date : D) (rec : R) (wr : Writer D) (d : World R)
      → Extends (at_e d) (at_e (append_to c io date rec wr d).2)
  append_to-Extends date rec wr d = elim (Bool-cases (c.same_date date e)) [
    | inl same ↦ rw ((laws.same_iff date e).0 same) (log.append_extends (c.shard_path e) rec d)
    | inr other ↦ inl (log.append_other _ _ rec d (laws.path_ne date e other))
  ]

  open-Extends :
      (date : D) (d : World R) → Extends (at_e d) (at_e (io.open_buffered (c.shard_path date) d).1)
  open-Extends date d = elim (Bool-cases (c.same_date date e)) [
    | inl same ↦ rw ((laws.same_iff date e).0 same) (log.open_extends (c.shard_path e) d)
    | inr other ↦ inl (log.open_other _ _ d (laws.path_ne date e other))
  ]

  after_open-Extends :
      (date : D) (rec : R) (wr : Writer D) (p : Io (Unit {0}) × World R)
      → Extends (at_e p.1) (at_e (after_open c io date rec wr p).2)
  after_open-Extends date rec wr (done u, d) =
      append_to-Extends date rec (record wr { current = some date }) d
  after_open-Extends date rec wr (fault f, d) = inl refl

  open_log-Extends :
      (date : D) (rec : R) (wr : Writer D) (d : World R)
      → Extends (at_e d) (at_e (open_log c io date rec wr d).2)
  open_log-Extends date rec wr d =
      Extends-trans (open-Extends date d)
        (after_open-Extends date rec wr (io.open_buffered (c.shard_path date) d))

  after_remove-Extends :
      (date : D) (rec : R) (wr : Writer D) (p : Io (Unit {0}) × World R)
      → Extends (at_e p.1) (at_e (after_remove c io date rec wr p).2)
  after_remove-Extends date rec wr (done u, d) = open_log-Extends date rec wr d
  after_remove-Extends date rec wr (fault not_found, d) = open_log-Extends date rec wr d
  after_remove-Extends date rec wr (fault failed, d) = inl refl
  after_remove-Extends date rec wr (fault refused, d) = inl refl

  -- From here on `e` is today or later.
  module _ (today : D) (live : c.at_or_after e today ≡ true) where
    closed-ne-live : (date : D) → c.at_or_after date today ≡ false → c.same_date date e ≡ false
    closed-ne-live date past = elim (Bool-cases (c.same_date date e)) [
      | inl same ↦
          cc (
            sym live ∙ ap (λ t. c.at_or_after t today) (sym ((laws.same_iff date e).0 same)) ∙ past)
      | inr other ↦ other
    ]

    choice-Extends :
        (b : Bool) (x y : Result c io) (d : World R)
        → (b ≡ true → Extends (at_e d) (at_e x.2))
        → (b ≡ false → Extends (at_e d) (at_e y.2))
        → Extends (at_e d) (at_e (if b then x else y).2)
    choice-Extends true x y d h k = h refl
    choice-Extends false x y d h k = k refl

    rotate-Extends :
        (date : D) (rec : R) (wr : Writer D) (d : World R)
        → Extends (at_e d) (at_e (rotate c io today date rec wr d).2)
    unfolding rotate
    rotate-Extends date rec wr d =
        choice-Extends (c.at_or_after date today) _ _ d (λ _. open_log-Extends date rec _ d)
          (λ past.
            choice-Extends (contains c io wr.touched date) _ _ d
              (λ _. open_log-Extends date rec _ d)
              (λ _.
                Extends-trans
                  (inl (remove_file_other _ _ d (laws.path_ne date e (closed-ne-live date past))))
                  (after_remove-Extends date rec _ (remove_file (c.shard_path date) d))))

    dated-Extends :
        (date : D) (rec : R) (current : Option D) (wr : Writer D) (d : World R)
        → Extends (at_e d) (at_e (append_dated c io today date rec current wr d).2)
    dated-Extends date rec none wr d = rotate-Extends date rec wr d
    dated-Extends date rec (some day) wr d =
        choice-Extends (c.same_date day date) _ _ d (λ _. append_to-Extends day rec wr d)
          (λ _. rotate-Extends date rec wr d)

    fast-Extends :
        (b : Bool) (date : D) (rec : R) (current : Option D) (wr : Writer D) (d : World R)
        → Extends (at_e d) (at_e (append_fast c io b today date rec current wr d).2)
    fast-Extends true date rec none wr d = rotate-Extends date rec wr d
    fast-Extends true date rec (some day) wr d = append_to-Extends day rec wr d
    fast-Extends false date rec current wr d = dated-Extends date rec current wr d

-- Whatever the state of the writer and whatever fails, an append never takes anything away from the
-- shard of the current day or of a later one: it is unchanged, or has more records at its end.
pub append-Extends :
    {D R : Type 0} (c : Calendar D)
    → IsCalendar c
    → {io : LogIo R} → IsLogIo io
    → (today e : D) → c.at_or_after e today ≡ true
    → (ts_ms : ℤ) (rec : R) (wr : Writer D) (d : World R)
    → Extends
        (d.files (c.shard_path e))
        ((append c io today ts_ms rec wr d).2.files (c.shard_path e))
unfolding append
append-Extends c laws {io} log today e live ts_ms rec wr d =
    fast-Extends c laws log e today live (in_window c io ts_ms wr) (c.date_of ts_ms) rec wr.current
      wr d
