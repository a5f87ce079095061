-- ===== src/Resample/Bucket/Rows.antt =====
-- What holds of each output row of `resample_last_in_bucket`, and of their order.
use series_factory.Prelude.{
  ℕ, suc, ◌%◌, ◌≤◌, ◌<◌, ◌≡◌, bit_and, false, List, [], ◌∷◌, arith, ◌==◌, Bool-cases, inl, inr, All,
}
use series_factory.Prelude.Bits.{bit_and-bit_or_self}
use series_factory.Mitch.{IndexRecord, Wire, IsWire}
use series_factory.Resample.Bucket.{ts_of, stamp}
use series_factory.Resample.Bucket.Runs.{
  OnGrid, bin_of, ts-stamp, stamp_again, runs, runs-nil, runs_same, runs_other, bin_start-mod,
  bin_start_mono, same_start, AscendingFrom, IncreasingFrom,
}

module _ {H F : Type 0} (w : Wire H) (laws : IsWire w) (target_ms : ℕ)
    (grid : OnGrid laws target_ms) where
  abbrev start : IndexRecord H F → ℕ
  start r = bin_of w laws target_ms grid r

  abbrev rows : IndexRecord H F → List (IndexRecord H F) → List (IndexRecord H F)
  rows r rs = runs w laws target_ms grid r rs

  -- A row on the grid that its own stamp leaves alone.
  pub record IsRow (y : IndexRecord H F) : Type 0 where
    pub aligned : ts_of w y % target_ms ≡ 0
    pub fixed : stamp w y (ts_of w y) ≡ y
    pub marked : bit_and y.index.flags w.flag_idx_healed ≡ w.flag_idx_healed

  stamp-IsRow : (r : IndexRecord H F) → IsRow (stamp w r (start r))
  stamp-IsRow r = record {
    aligned = rw (ts-stamp w laws target_ms grid r) (bin_start-mod (ts_of w r) target_ms);
    fixed = rw (ts-stamp w laws target_ms grid r) (stamp_again w laws target_ms grid r (start r));
    marked = unfold stamp in bit_and-bit_or_self r.index.flags w.flag_idx_healed;
  }

  -- What the stamp makes true of every record is true of every row.
  pub runs-All :
      (P Q : IndexRecord H F → Type 0)
      → ((r : IndexRecord H F) → P r → Q (stamp w r (start r)))
      → (r : IndexRecord H F) (rs : List (IndexRecord H F)) → P r
      → All P rs
      → All Q (rows r rs)
  runs-All P Q f r [] p h = rw (runs-nil w laws target_ms grid r) (f r p, tt)
  runs-All P Q f r (s ∷ rs) p h = elim (Bool-cases (start r == start s)) [
    | inl same ↦ rw (runs_same w laws target_ms grid r s rs same) (runs-All P Q f s rs h.0 h.1)
    | inr other ↦
        rw (runs_other w laws target_ms grid r s rs other) (f r p, runs-All P Q f s rs h.0 h.1)
  ]

  pub runs-All-IsRow : (r : IndexRecord H F) (rs : List (IndexRecord H F)) → All IsRow (rows r rs)
  runs-All-IsRow r [] = rw (runs-nil w laws target_ms grid r) (stamp-IsRow r, tt)
  runs-All-IsRow r (s ∷ rs) = elim (Bool-cases (start r == start s)) [
    | inl same ↦ rw (runs_same w laws target_ms grid r s rs same) (runs-All-IsRow s rs)
    | inr other ↦
        rw (runs_other w laws target_ms grid r s rs other) (stamp-IsRow r, runs-All-IsRow s rs)
  ]

  -- Ascending records give strictly increasing rows.
  pub runs-IncreasingFrom :
      (lo : ℕ) (r : IndexRecord H F) (rs : List (IndexRecord H F))
      → lo ≤ start r
      → AscendingFrom w (ts_of w r) rs
      → IncreasingFrom w lo (rows r rs)
  runs-IncreasingFrom lo r [] h a =
      rw (runs-nil w laws target_ms grid r) (rw (ts-stamp w laws target_ms grid r) (h, tt))
  runs-IncreasingFrom lo r (s ∷ rs) h a = elim (Bool-cases (start r == start s)) [
    | inl same ↦
        rw (runs_same w laws target_ms grid r s rs same)
          (runs-IncreasingFrom lo s rs (ground (arith, same_start _ _ same)) a.1)
    | inr other ↦
        rw (runs_other w laws target_ms grid r s rs other, ts-stamp w laws target_ms grid r)
          (h, runs-IncreasingFrom (suc (start r)) s rs (later s other a.0) a.1)
  ]
    where
      later :
          (t : IndexRecord H F)
          → (start r == start t) ≡ false
          → ts_of w r ≤ ts_of w t
          → start r < start t
      later t e le = ground (arith, bin_start_mono (ts_of w r) (ts_of w t) target_ms le)
