-- ===== src/Glue/Scan/Flat.antt =====
-- The scan of src/bin/glue_check.rs over shards against a scan over their records in one row.
use series_factory.Prelude.{
  ◌≡◌, refl, sym, ◌∙◌, ap, Bool, true, false, Option, none, some, List, [], ◌∷◌, ◌++◌, ℕ,
  if◌then◌else◌,
}
use series_factory.Prelude.Int.{ℤ, ltb_ℤ, pos, ◌-ℤ◌}
use series_factory.Prelude.Outcome.{Outcome, ok, err}
use series_factory.Glue.Report.{Failure}
use series_factory.Glue.Scan.{
  Store, Scan, is_some, Flow, go, halt, visit, visit_next, proceed, before_cutoff, scan_records,
  scan_shard, scan_shards, sharded_gap_ms,
}

-- All records of the shards, in order.
abbrev pub behind : {R : Type 0} → List R → Outcome Failure (List R) → Outcome Failure (List R)
behind recs (ok more) = ok (recs ++ more)
behind recs (err e) = err e

abbrev pub read_then :
    {R : Type 0} → Outcome Failure (List R) → Outcome Failure (List R) → Outcome Failure (List R)
read_then (ok recs) rest = behind recs rest
read_then (err e) rest = err e

abbrev pub contents : {P R : Type 0} → Store P R → List (ℕ × P) → Outcome Failure (List R)
contents store [] = ok []
contents store ((date, path) ∷ shards) =
    read_then (store.read_shard_aligned path) (contents store shards)

-- A scan goes on without a violation and stops with one.
abbrev Sound : Flow → Type 0
Sound (go s) = s.monotone_violation_ix ≡ none
Sound (halt s) = is_some s.monotone_violation_ix ≡ true

Sound-choice : (b : Bool) (f g : Flow) → Sound f → Sound g → Sound (if b then f else g)
Sound-choice true f g h k = h
Sound-choice false f g h k = k

visit_next-Sound :
    (gap_ms t : ℤ) (prev : Option ℤ) (s : Scan)
    → s.monotone_violation_ix ≡ none
    → Sound (visit_next gap_ms t prev s)
visit_next-Sound gap_ms t none s h = h
visit_next-Sound gap_ms t (some p) s h = Sound-choice (ltb_ℤ (t -ℤ p) (pos 0)) _ _ refl h

visit-Sound :
    (gap_ms : ℤ) (cutoff : Option ℤ) (t : ℤ) (s : Scan)
    → s.monotone_violation_ix ≡ none
    → Sound (visit gap_ms cutoff t s)
visit-Sound gap_ms cutoff t s h =
    Sound-choice (before_cutoff cutoff t) (go s) _ h (visit_next-Sound gap_ms t s.prev_ts s h)

ok-choice :
    (b : Bool) (s t : Scan) (o : Outcome Failure Scan)
    → (b ≡ false → o ≡ ok t)
    → (if b then ok s else o) ≡ ok (if b then s else t)
ok-choice true s t o h = refl
ok-choice false s t o h = h refl

none_of_is_some : (o : Option ℕ) → is_some o ≡ false → o ≡ none
none_of_is_some none h = refl
none_of_is_some (some n) h = cc

module _ {P R : Type 0} (store : Store P R) (cutoff : Option ℤ) where
  abbrev then_scan : List R → Scan → Scan
  then_scan ys s = if is_some s.monotone_violation_ix then s else scan_records store cutoff ys s

  proceed-append :
      (xs ys : List R) (f : Flow)
      → ((s : Scan)
          → s.monotone_violation_ix ≡ none
          → scan_records store cutoff (xs ++ ys) s ≡ then_scan ys (scan_records store cutoff xs s))
      → Sound f
      → proceed (scan_records store cutoff (xs ++ ys)) f
        ≡ then_scan ys (proceed (scan_records store cutoff xs) f)
  proceed-append xs ys (go s) ih h = ih s h
  proceed-append xs ys (halt s) ih h = rw h refl

  scan_records-append :
      (xs ys : List R) (s : Scan)
      → s.monotone_violation_ix ≡ none
      → scan_records store cutoff (xs ++ ys) s ≡ then_scan ys (scan_records store cutoff xs s)
  scan_records-append [] ys s h = rw h refl
  scan_records-append (r ∷ xs) ys s h =
      proceed-append xs ys (visit (sharded_gap_ms store) cutoff (store.shard_ts_ms r) s)
        (scan_records-append xs ys)
        (visit-Sound (sharded_gap_ms store) cutoff (store.shard_ts_ms r) s h)

  scan_shard-flat :
      (read later : Outcome Failure (List R)) (rest : Scan → Outcome Failure Scan) (s : Scan)
      (recs : List R)
      → s.monotone_violation_ix ≡ none
      → read_then read later ≡ ok recs
      → ((s' : Scan) (ys : List R)
          → s'.monotone_violation_ix ≡ none
          → later ≡ ok ys
          → rest s' ≡ ok (scan_records store cutoff ys s'))
      → scan_shard store cutoff rest s read ≡ ok (scan_records store cutoff recs s)
  scan_shard-flat (err e) later rest s recs h k ih = cc
  scan_shard-flat (ok xs) (err e) rest s recs h k ih = cc
  scan_shard-flat (ok xs) (ok ys) rest s recs h k ih =
      ok-choice (is_some mid.monotone_violation_ix) mid (scan_records store cutoff ys mid)
        (rest mid) (λ b. ih mid ys (none_of_is_some mid.monotone_violation_ix b) refl)
      ∙ ap ok (sym (scan_records-append xs ys s h))
      ∙ ap (λ t. ok (scan_records store cutoff t s)) joined
    where
      mid : Scan
      mid = scan_records store cutoff xs s

      joined : xs ++ ys ≡ recs
      joined = cc k

  -- Where every shard can be read, the scan shard by shard gives what one scan over all records gives.
  pub scan_shards-flat :
      (shards : List (ℕ × P)) (s : Scan) (recs : List R)
      → s.monotone_violation_ix ≡ none
      → contents store shards ≡ ok recs
      → scan_shards store cutoff shards s ≡ ok (scan_records store cutoff recs s)
  unfolding scan_shards
  scan_shards-flat [] s recs h k = ap (λ t. ok (scan_records store cutoff t s)) empty
    where
      empty : [] ≡ recs
      empty = cc k
  scan_shards-flat ((date, path) ∷ shards) s recs h k =
      scan_shard-flat (store.read_shard_aligned path) (contents store shards)
        (scan_shards store cutoff shards) s recs h k (λ s' ys. scan_shards-flat shards s' ys)
