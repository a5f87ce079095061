-- ===== src/Sharding/Writer/Days.antt =====
-- What a run over closed days leaves in their shards: `append` of src/sharding.rs, record after record.
use series_factory.Prelude.{
  ℕ, zero, suc, ◌*◌, ◌≤◌, ◌≡◌, refl, subst, ◌∙◌, ap, Bool, true, false, Option, some, List, [], ◌∷◌,
  ◌++◌, append_assoc, arith, length, All, if◌then◌else◌, Bool-cases, inl, inr,
}
use series_factory.Prelude.Int.{ℤ}
use series_factory.Files.{Files, World, done, fault}
use series_factory.Sharding.Writer.{
  Calendar, IsCalendar, LogIo, IsLogIo, Writer, new, or_empty, Result, append, contains,
}
use series_factory.Sharding.Writer.Window.{Windowed, Windowed-new, append-Windowed}
use series_factory.Sharding.Writer.Step.{Open, Appended, append-Appended, Appended-Open}

-- writer.append(ts_ms, rec)? for each record, in order.
module _ {D R : Type 0} (c : Calendar D) (io : LogIo R) (today : D) where
  abbrev next : (Writer D → World R → Result c io) → Result c io → Result c io
  next f (done u, wr, d) = f wr d
  next f (fault e, wr, d) = (fault e, wr, d)

  abbrev pub append_each : List (ℤ × R) → Writer D → World R → Result c io
  append_each [] wr d = (done tt, wr, d)
  append_each ((ts_ms, rec) ∷ rs) wr d = next (append_each rs) (append c io today ts_ms rec wr d)

-- The records of one day.
abbrev pub of_day : {D R : Type 0} → Calendar D → D → List (ℤ × R) → List R
of_day c e [] = []
of_day c e ((ts_ms, rec) ∷ rs) =
    let rest = of_day c e rs in if c.same_date (c.date_of ts_ms) e then rec ∷ rest else rest

-- A shard after the records of its day: without one it stays; a shard that this run has not touched
-- before starts anew.
abbrev pub shard_after : {R : Type 0} → Bool → Option (List R) → List R → Option (List R)
shard_after seen before [] = before
shard_after seen before (r ∷ rs) = some ((if seen then or_empty before else []) ++ r ∷ rs)

shard_after-next :
    {R : Type 0} (kept : List R) (rec : R) (rs : List R)
    → shard_after true (some (kept ++ rec ∷ [])) rs ≡ some (kept ++ rec ∷ rs)
shard_after-next kept rec [] = refl
shard_after-next kept rec (r ∷ rs) = ap some (append_assoc kept (rec ∷ []) (r ∷ rs))

next-done :
    {D R : Type 0} (c : Calendar D) (io : LogIo R) (today : D)
    (f : Writer D → World R → Result c io) (res : Result c io)
    → res.0 ≡ done tt
    → next c io today f res ≡ f res.1 res.2
next-done c io today f (done u, wr, d) h = refl
next-done c io today f (fault e, wr, d) h = cc

module _ {D R : Type 0} (c : Calendar D) (laws : IsCalendar c) {io : LogIo R} (log : IsLogIo io)
    (today : D) where
  -- Every shard after the rest of a run.
  abbrev Shards : List (ℤ × R) → Writer D → World R → Result c io → Type 0
  Shards rs wr d res =
      (res.0 ≡ done tt)
      × ((e : D)
          → res.2.files (c.shard_path e)
            ≡ shard_after (contains c io wr.touched e) (d.files (c.shard_path e)) (of_day c e rs))

  abbrev Closed : List (ℤ × R) → Type 0
  Closed = All (λ (p : ℤ × R). c.at_or_after (c.date_of p.0) today ≡ false)

  step-Shards :
      (ts_ms : ℤ) (rec : R) (rs : List (ℤ × R)) (wr : Writer D) (files : Files R) (n : ℕ)
      (mid res : Result c io)
      → Appended c laws log today (c.date_of ts_ms) rec wr files n mid
      → Shards rs mid.1 mid.2 res
      → (e : D)
      → res.2.files (c.shard_path e)
        ≡ shard_after
            (contains c io wr.touched e)
            (files (c.shard_path e))
            (of_day c e ((ts_ms, rec) ∷ rs))
  step-Shards ts_ms rec rs wr files n mid res a h e =
      elim (Bool-cases (c.same_date (c.date_of ts_ms) e)) [
        | inl same ↦ rw same (same_day ((laws.same_iff (c.date_of ts_ms) e).0 same))
        | inr other ↦ h.1 e ∙ rw (other, a.there e other, a.touched_there e other)
      ]
    where
      same_day :
          c.date_of ts_ms ≡ e
          → res.2.files (c.shard_path e)
            ≡ shard_after
                (contains c io wr.touched e)
                (files (c.shard_path e))
                (rec ∷ of_day c e rs)
      same_day p =
          h.1 e
          ∙ ap (λ t. shard_after t (mid.2.files (c.shard_path e)) (of_day c e rs))
              (subst (λ t. contains c io mid.1.touched t ≡ true) p a.touched_here)
          ∙ ap (λ t. shard_after true t (of_day c e rs))
              (subst
                (λ t.
                  mid.2.files (c.shard_path t)
                  ≡ some (
                      (if contains c io wr.touched t then or_empty (files (c.shard_path t)) else [])
                      ++ rec ∷ []))
                p a.here)
          ∙ shard_after-next _ rec (of_day c e rs)

  abbrev Runs : List (ℤ × R) → Writer D → World R → Type 0
  Runs rs wr d =
      Windowed c wr
      → Open c laws log today wr
      → 3 * length rs ≤ d.budget
      → Shards rs wr d (append_each c io today rs wr d)

  more-Runs :
      (ts_ms : ℤ) (rec : R) (rs : List (ℤ × R)) (wr : Writer D) (files : Files R) (n : ℕ)
      → c.at_or_after (c.date_of ts_ms) today ≡ false
      → ((wr' : Writer D) (d : World R) → Runs rs wr' d)
      → Runs ((ts_ms, rec) ∷ rs) wr (record { files = files; budget = n })
  more-Runs ts_ms rec rs wr files zero closed rest win op le = elim (three le) [ ]
    where
      three : 3 * suc (length rs) ≤ 0 → 1 ≤ 0
      three h = omega arith
  more-Runs ts_ms rec rs wr files (suc zero) closed rest win op le = elim (two le) [ ]
    where
      two : 3 * suc (length rs) ≤ 1 → 1 ≤ 0
      two h = omega arith
  more-Runs ts_ms rec rs wr files (suc (suc zero)) closed rest win op le = elim (one le) [ ]
    where
      one : 3 * suc (length rs) ≤ 2 → 1 ≤ 0
      one h = omega arith
  more-Runs ts_ms rec rs wr files (suc (suc (suc n))) closed rest win op le =
      rw (next-done c io today (append_each c io today rs) mid here.done_eq) (
        behind.0,
        step-Shards ts_ms rec rs wr files n mid (append_each c io today rs mid.1 mid.2) here behind,
      )
    where
      mid : Result c io
      mid = append c io today ts_ms rec wr (record { files = files; budget = suc (suc (suc n)) })

      here : Appended c laws log today (c.date_of ts_ms) rec wr files n mid
      here = append-Appended c laws log today ts_ms rec wr files n win op closed

      enough : 3 * length rs ≤ mid.2.budget
      enough = omega (arith, here.budget_left, le)

      behind : Shards rs mid.1 mid.2 (append_each c io today rs mid.1 mid.2)
      behind =
          rest mid.1 mid.2 (append-Windowed c io today ts_ms rec wr _ win)
            (Appended-Open c laws log today here) enough

  append_each-Shards : (rs : List (ℤ × R)) (wr : Writer D) (d : World R) → Closed rs → Runs rs wr d
  append_each-Shards [] wr d closed win op le = (refl, λ e. refl)
  append_each-Shards ((ts_ms, rec) ∷ rs) wr d closed win op le =
      more-Runs ts_ms rec rs wr d.files d.budget closed.0
        (λ wr' d'. append_each-Shards rs wr' d' closed.1) win op le

-- A new writer that is given records of closed days, in any order, and can make three calls for each,
-- succeeds, and leaves in the shard of every day exactly the records of that day, in the order they came,
-- whatever the shard held before; the shard of a day without records is as it was.
pub append_each-days :
    {D R : Type 0} (c : Calendar D)
    → IsCalendar c
    → {io : LogIo R} → IsLogIo io
    → (today : D) (rs : List (ℤ × R)) (files : Files R) (n : ℕ)
    → All (λ (p : ℤ × R). c.at_or_after (c.date_of p.0) today ≡ false) rs
    → 3 * length rs ≤ n
    → let res = append_each c io today rs new (record { files = files; budget = n }) in
      (res.0 ≡ done tt)
      × ((e : D)
          → res.2.files (c.shard_path e)
            ≡ shard_after false (files (c.shard_path e)) (of_day c e rs))
unfolding new
append_each-days c laws log today rs files n closed le =
    append_each-Shards c laws log today rs new (record { files = files; budget = n }) closed
      (Windowed-new c) (λ date h. cc) le
