-- ===== src/Glue/Scan/Gaps.antt =====
-- What the scan of src/bin/glue_check.rs finds, in terms of the gaps between neighbouring times.
use series_factory.Prelude.{
  ◌≡◌, refl, sym, subst, ◌∙◌, ap, Bool, false, Option, none, some, List, [], ◌∷◌, arith, ℕ, suc,
  ◌+◌, ◌≤◌, if◌then◌else◌, length, filter, Bool-cases, inl, inr, is_empty, ◌==◌,
}
use series_factory.Prelude.Int.{ℤ, ltb_ℤ, pos, ◌-ℤ◌}
use series_factory.Glue.Scan.{
  Store, Scan, start, go, halt, visit_next, visit_gap, note_gap, proceed, scan_records,
  sharded_gap_ms, advance, before_cutoff,
}

-- The times of the records in the window, and the gaps behind `p` and from the first time on.
abbrev pub times : {P R : Type 0} → Store P R → Option ℤ → List R → List ℤ
times store cutoff [] = []
times store cutoff (r ∷ rs) =
    let rest = times store cutoff rs in
    if before_cutoff cutoff (store.shard_ts_ms r) then rest else store.shard_ts_ms r ∷ rest

abbrev pub gaps_behind : ℤ → List ℤ → List ℤ
gaps_behind p [] = []
gaps_behind p (t ∷ ts) = (t -ℤ p) ∷ gaps_behind t ts

abbrev pub gaps : List ℤ → List ℤ
gaps [] = []
gaps (t ∷ ts) = gaps_behind t ts

abbrev pub negative : ℤ → Bool
negative dt = ltb_ℤ dt (pos 0)

-- The place of the first negative gap, counted from `i`.
abbrev pub first_drop : ℕ → List ℤ → Option ℕ
first_drop i [] = none
first_drop i (dt ∷ dts) = let rest = first_drop (suc i) dts in if negative dt then some i else rest

module _ {P R : Type 0} (store : Store P R) (cutoff : Option ℤ) where
  -- The scan behind a record at `p`.
  abbrev Follows : ℤ → List ℤ → Scan → Scan → Type 0
  Follows p ts s s' =
      (s'.monotone_violation_ix ≡ first_drop s.global_ix (gaps_behind p ts))
      × (s.total_records ≤ s'.total_records)
      × (first_drop s.global_ix (gaps_behind p ts) ≡ none
          → (s'.total_records ≡ s.total_records + length ts)
            × (s'.gap_violations
                ≡ s.gap_violations
                  + length (filter (ltb_ℤ (sharded_gap_ms store)) (gaps_behind p ts))))

  gap-Follows :
      (rs : List R) (p t : ℤ) (ts : List ℤ) (s : Scan)
      → s.monotone_violation_ix ≡ none
      → ((s' : Scan)
          → s'.prev_ts ≡ some t
          → s'.monotone_violation_ix ≡ none
          → Follows t ts s' (scan_records store cutoff rs s'))
      → Follows p
          (t ∷ ts)
          s
          (proceed (scan_records store cutoff rs) (visit_gap (sharded_gap_ms store) t (t -ℤ p) s))
  gap-Follows rs p t ts s h ih = elim (Bool-cases (negative (t -ℤ p))) [
    | inl drop ↦ rw drop (refl, omega arith, λ k. cc)
    | inr rise ↦
        subst
          (λ b. Follows p (t ∷ ts) s (
            proceed (scan_records store cutoff rs)
              (if b then halt (record s { monotone_violation_ix = some s.global_ix }) else go mid)))
          (sym rise) (later (ih mid refl h) rise)
  ]
    where
      mid : Scan
      mid = advance t (note_gap (sharded_gap_ms store) (t -ℤ p) s)

      violations :
          {n : ℕ}
          → n
            ≡ mid.gap_violations + length (filter (ltb_ℤ (sharded_gap_ms store)) (gaps_behind t ts))
          → n
            ≡ s.gap_violations
              + length (filter (ltb_ℤ (sharded_gap_ms store)) (gaps_behind p (t ∷ ts)))
      violations e = ground arith

      later :
          Follows t ts mid (scan_records store cutoff rs mid)
          → negative (t -ℤ p) ≡ false
          → Follows p (t ∷ ts) s (scan_records store cutoff rs mid)
      later f rise = (
        f.0 ∙ sym (rw rise refl),
        omega (arith, f.1),
        λ k. (
          omega (arith, (f.2 (sym (rw rise refl) ∙ k)).0),
          violations (f.2 (sym (rw rise refl) ∙ k)).1,
        ),
      )

  enters :
      (r : R) (rs : List R) (p : ℤ) (s : Scan)
      → s.prev_ts ≡ some p
      → before_cutoff cutoff (store.shard_ts_ms r) ≡ false
      → scan_records store cutoff (r ∷ rs) s
        ≡ proceed
            (scan_records store cutoff rs)
            (visit_gap (sharded_gap_ms store) (store.shard_ts_ms r) (store.shard_ts_ms r -ℤ p) s)
  enters r rs p s e kept =
      ap
        (λ b.
          proceed (scan_records store cutoff rs) (
            if b
            then go s
            else visit_next (sharded_gap_ms store) (store.shard_ts_ms r) s.prev_ts s))
        kept
      ∙ ap
          (λ o.
            proceed (scan_records store cutoff rs)
              (visit_next (sharded_gap_ms store) (store.shard_ts_ms r) o s))
          e

  scan-Follows :
      (rs : List R) (p : ℤ) (s : Scan)
      → s.prev_ts ≡ some p
      → s.monotone_violation_ix ≡ none
      → Follows p (times store cutoff rs) s (scan_records store cutoff rs s)
  scan-Follows [] p s e h = (h, omega arith, λ k. (omega arith, omega arith))
  scan-Follows (r ∷ rs) p s e h = elim (Bool-cases (before_cutoff cutoff (store.shard_ts_ms r))) [
    | inl skipped ↦ rw skipped (scan-Follows rs p s e h)
    | inr kept ↦
        rw (enters r rs p s e kept, kept)
          (gap-Follows rs p (store.shard_ts_ms r) (times store cutoff rs) s h
            (scan-Follows rs (store.shard_ts_ms r)))
  ]

  -- What the whole scan found among the times `ts`.
  abbrev pub Found : List ℤ → Scan → Type 0
  Found ts s =
      (s.monotone_violation_ix ≡ first_drop 1 (gaps ts))
      × ((s.total_records == 0) ≡ is_empty ts)
      × (first_drop 1 (gaps ts) ≡ none
          → (s.total_records ≡ length ts)
            × (s.gap_violations ≡ length (filter (ltb_ℤ (sharded_gap_ms store)) (gaps ts))))

  first-Found :
      (t : ℤ) (ts : List ℤ) (s : Scan) → Follows t ts (advance t start) s → Found (t ∷ ts) s
  first-Found t ts s f =
      (f.0, ground (arith, f.1), λ k. (omega (arith, (f.2 k).0), omega (arith, (f.2 k).1)))

  pub scan-Found :
      (rs : List R) → Found (times store cutoff rs) (scan_records store cutoff rs start)
  scan-Found [] = (refl, refl, λ k. (refl, refl))
  scan-Found (r ∷ rs) = elim (Bool-cases (before_cutoff cutoff (store.shard_ts_ms r))) [
    | inl skipped ↦ rw skipped (scan-Found rs)
    | inr kept ↦ rw kept (
        first-Found (store.shard_ts_ms r) (times store cutoff rs)
          (scan_records store cutoff rs (advance (store.shard_ts_ms r) start))
          (scan-Follows rs (store.shard_ts_ms r) (advance (store.shard_ts_ms r) start) refl refl))
  ]
