-- ===== src/Sharding/Writer/Step.antt =====
-- What one `append` of src/sharding.rs does to the shard of a closed day and to the others.
use series_factory.Prelude.{
  ℕ, suc, ◌≤◌, ◌≡◌, refl, sym, subst, ◌∙◌, ap, Bool, true, false, Option, none, some, [], ◌∷◌, ◌++◌,
  arith, if◌then◌else◌, Bool-cases, Option-cases, inl, inr,
}
use series_factory.Prelude.Int.{ℤ}
use series_factory.Files.{FilePath, same_path, Files, write, done, remove_file}
use series_factory.Files.Laws.{same_path_refl, write_self, write_ne}
use series_factory.Sharding.Writer.{
  Calendar, IsCalendar, LogIo, IsLogIo, Writer, or_empty, Result, touch, moved_to, open_log,
  append_to, append_dated, rotate, append, contains, after_remove,
}
use series_factory.Sharding.Writer.Window.{Windowed, append-eq-dated}

-- The files after `p` was opened and had a record appended.
abbrev reopened : {R : Type 0} → FilePath → R → Files R → Files R
reopened p rec files =
    write p (some (or_empty (files p) ++ rec ∷ [])) (write p (some (or_empty (files p))) files)

reopened_self :
    {R : Type 0} (p : FilePath) (rec : R) (files : Files R)
    → reopened p rec files p ≡ some (or_empty (files p) ++ rec ∷ [])
reopened_self p rec files = rw (same_path_refl p)

reopened_ne :
    {R : Type 0} (p q : FilePath) (rec : R) (files : Files R)
    → same_path p q ≡ false
    → reopened p rec files q ≡ files q
reopened_ne p q rec files h = rw h

module _ {D R : Type 0} (c : Calendar D) (laws : IsCalendar c) {io : LogIo R} (log : IsLogIo io)
    (today : D) where
  -- What one append of a record of `date` does, with `n` calls left to spend behind it.
  pub record Appended (date : D) (rec : R) (wr : Writer D) (files : Files R) (n : ℕ)
      (res : Result c io) : Type 0 where
    pub done_eq : res.0 ≡ done tt
    pub here :
        res.2.files (c.shard_path date)
        ≡ some (
            (if contains c io wr.touched date then or_empty (files (c.shard_path date)) else [])
            ++ rec ∷ [])
    pub there :
        (e : D) → c.same_date date e ≡ false → res.2.files (c.shard_path e) ≡ files (c.shard_path e)
    pub budget_left : n ≤ res.2.budget
    pub current_eq : res.1.current ≡ some date
    pub touched_here : contains c io res.1.touched date ≡ true
    pub touched_there :
        (e : D)
        → c.same_date date e ≡ false
        → contains c io res.1.touched e ≡ contains c io wr.touched e

  touch_here : (date : D) (wr : Writer D) → contains c io (touch c io date wr).touched date ≡ true
  touch_here date wr = elim (Bool-cases (contains c io wr.touched date)) [
    | inl h ↦ rw (h, h)
    | inr h ↦ rw (h, (laws.same_iff date date).1 refl)
  ]

  touch_there :
      (date e : D) (wr : Writer D)
      → c.same_date date e ≡ false
      → contains c io (touch c io date wr).touched e ≡ contains c io wr.touched e
  touch_there date e wr h = ground arith

  -- An open log of a touched day.
  append_to-Appended :
      (date : D) (rec : R) (wr : Writer D) (files : Files R) (n : ℕ)
      → wr.current ≡ some date
      → contains c io wr.touched date ≡ true
      → Appended date rec wr files n
          (append_to c io date rec wr (record { files = files; budget = suc n }))
  append_to-Appended date rec wr files n cur seen =
      rw (log.append_total (c.shard_path date) rec files n) (record {
        done_eq = refl;
        here = rw seen (write_self (c.shard_path date) _ files);
        there = λ e h. write_ne _ _ _ files (laws.path_ne date e h);
        budget_left = omega arith;
        current_eq = cur;
        touched_here = seen;
        touched_there = λ e h. refl;
      })

  -- The log of `date` is opened, over a file that holds `before`.
  open_log-eq :
      (date : D) (rec : R) (wr : Writer D) (files : Files R) (n : ℕ)
      → open_log c io date rec wr (record { files = files; budget = suc (suc n) }) ≡ (
        done tt,
        record wr { current = some date },
        record { files = reopened (c.shard_path date) rec files; budget = n },
      )
  open_log-eq date rec wr files n = rw (
    log.open_total (c.shard_path date) files (suc n),
    log.append_total (c.shard_path date) rec
        (write (c.shard_path date) (some (or_empty (files (c.shard_path date)))) files) n,
    write_self (c.shard_path date) (some (or_empty (files (c.shard_path date)))) files,
  )

  opened-Appended :
      (date : D) (rec : R) (wr : Writer D) (files before : Files R) (n : ℕ)
      → ((e : D) → c.same_date date e ≡ false → files (c.shard_path e) ≡ before (c.shard_path e))
      → or_empty (files (c.shard_path date))
        ≡ (if contains c io wr.touched date then or_empty (before (c.shard_path date)) else [])
      → Appended date rec wr before n (
          open_log c io date rec
            (touch c io date (moved_to c io date wr))
            (record { files = files; budget = suc (suc n) }))
  opened-Appended date rec wr files before n same kept =
      rw (open_log-eq date rec (touch c io date (moved_to c io date wr)) files n) (record {
        done_eq = refl;
        here = reopened_self (c.shard_path date) rec files ∙ ap (λ t. some (t ++ rec ∷ [])) kept;
        there = λ e h.
            reopened_ne (c.shard_path date) (c.shard_path e) rec files (laws.path_ne date e h)
            ∙ same e h;
        budget_left = omega arith;
        current_eq = refl;
        touched_here = touch_here date (moved_to c io date wr);
        touched_there = λ e h. touch_there date e (moved_to c io date wr) h;
      })

  Appended-weaken :
      {date : D} {rec : R} {wr : Writer D} {files : Files R} {n : ℕ} {res : Result c io}
      → Appended date rec wr files (suc n) res
      → Appended date rec wr files n res
  Appended-weaken {n = n} a = record {
    done_eq = a.done_eq;
    here = a.here;
    there = a.there;
    budget_left = weaker a.budget_left;
    current_eq = a.current_eq;
    touched_here = a.touched_here;
    touched_there = a.touched_there;
  }
    where
      weaker : {k : ℕ} → suc n ≤ k → n ≤ k
      weaker h = omega arith

  Appended-choice :
      {date : D} {rec : R} {wr : Writer D} {files : Files R} {n : ℕ} (b : Bool) (x y : Result c io)
      → (b ≡ true → Appended date rec wr files n x)
      → (b ≡ false → Appended date rec wr files n y)
      → Appended date rec wr files n (if b then x else y)
  Appended-choice true x y h k = h refl
  Appended-choice false x y h k = k refl

  -- The stale shard goes, if there is one.
  removed-Appended :
      (date : D) (rec : R) (wr : Writer D) (files : Files R) (n : ℕ)
      → contains c io wr.touched date ≡ false
      → Appended date rec wr files n (
          after_remove c io date rec (touch c io date (moved_to c io date wr)) (
            remove_file (c.shard_path date) (record { files = files; budget = suc (suc (suc n)) })))
  unfolding remove_file
  removed-Appended date rec wr files n fresh = elim (Option-cases (files (c.shard_path date))) [
    | inl h ↦
        rw h (opened-Appended date rec wr files files n (λ e k. refl) (ap or_empty h ∙ rw fresh))
    | inr (rs, h) ↦ rw h (
        opened-Appended date rec wr (write (c.shard_path date) none files) files n
          (λ e k. write_ne (c.shard_path date) (c.shard_path e) none files (laws.path_ne date e k))
          (ap or_empty (write_self (c.shard_path date) none files) ∙ rw fresh))
  ]

  rotate-Appended :
      (date : D) (rec : R) (wr : Writer D) (files : Files R) (n : ℕ)
      → c.at_or_after date today ≡ false
      → Appended date rec wr files n
          (rotate c io today date rec wr (record { files = files; budget = suc (suc (suc n)) }))
  unfolding rotate
  rotate-Appended date rec wr files n closed =
      Appended-choice (c.at_or_after date today) _ _ (λ live. cc (sym live ∙ closed))
        λ past.
          Appended-choice (contains c io wr.touched date) _ _
            (λ seen.
              Appended-weaken
                (opened-Appended date rec wr files files (suc n) (λ e k. refl) (rw seen)))
            (removed-Appended date rec wr files n)

  -- The day of the open log is a touched one.
  abbrev pub Open : Writer D → Type 0
  Open wr = (date : D) → wr.current ≡ some date → contains c io wr.touched date ≡ true

  dated-Appended :
      (date : D) (rec : R) (current : Option D) (wr : Writer D) (files : Files R) (n : ℕ)
      → current ≡ wr.current
      → Open wr
      → c.at_or_after date today ≡ false
      → Appended date rec wr files n (
          append_dated c io today date rec current wr
            (record { files = files; budget = suc (suc (suc n)) }))
  dated-Appended date rec none wr files n cur op closed = rotate-Appended date rec wr files n closed
  dated-Appended date rec (some day) wr files n cur op closed =
      Appended-choice (c.same_date day date) _ _ (λ same. stay ((laws.same_iff day date).0 same))
        λ other. rotate-Appended date rec wr files n closed
    where
      stay :
          day ≡ date
          → Appended date rec wr files n
              (append_to c io day rec wr (record { files = files; budget = suc (suc (suc n)) }))
      stay e = rw e (
          Appended-weaken (
            Appended-weaken (
              append_to-Appended date rec wr files (suc (suc n)) (sym cur ∙ ap some e)
                (op date (sym cur ∙ ap some e)))))

  pub append-Appended :
      (ts_ms : ℤ) (rec : R) (wr : Writer D) (files : Files R) (n : ℕ)
      → Windowed c wr
      → Open wr
      → c.at_or_after (c.date_of ts_ms) today ≡ false
      → Appended
          (c.date_of ts_ms)
          rec
          wr
          files
          n
          (append c io today ts_ms rec wr (record { files = files; budget = suc (suc (suc n)) }))
  append-Appended ts_ms rec wr files n win op closed =
      rw
        (append-eq-dated c laws io today ts_ms rec wr
          (record { files = files; budget = suc (suc (suc n)) }) win)
        (dated-Appended (c.date_of ts_ms) rec wr.current wr files n refl op closed)

  pub Appended-Open :
      {date : D} {rec : R} {wr : Writer D} {files : Files R} {n : ℕ} {res : Result c io}
      → Appended date rec wr files n res
      → Open res.1
  Appended-Open {res = res} a day h =
      subst (λ t. contains c io res.1.touched t ≡ true) (cc (sym a.current_eq ∙ h)) a.touched_here
