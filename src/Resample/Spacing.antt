-- ===== src/Resample/Spacing.antt =====
-- `median_spacing` and `is_already_target` of src/bin/resample_idx.rs. The median of whole numbers,
-- rounded, is `nxr_sdk::stats::median_by`: the parameter `median`.
use series_factory.Prelude.{
  ℕ, ◌-◌, Bool, false, ◌&&◌, List, [], ◌∷◌, length, all, ltb, ◌==◌, if◌then◌else◌,
}
use series_factory.Mitch.{IndexRecord, Wire}
use series_factory.Resample.Bucket.{ts_of}
use series_factory.Resample.Verify.{has_flag}

abbrev pub median_or_zero : (List ℕ → ℕ) → List ℕ → ℕ
median_or_zero median [] = 0
median_or_zero median (d ∷ ds) = median (d ∷ ds)

module _ {H F : Type 0} (w : Wire H) where
  -- `records.windows(2)` and the `filter(|d| *d > 0)` in one: a delta that is not positive is
  -- dropped, so the truncated difference serves.
  abbrev pub deltas : List (IndexRecord H F) → List ℕ
  deltas [] = []
  deltas (x ∷ []) = []
  deltas (x ∷ y ∷ rest) =
      let later = deltas (y ∷ rest) in
      if ltb (ts_of w x) (ts_of w y) then (ts_of w y - ts_of w x) ∷ later else later

  unfoldable pub median_spacing : (List ℕ → ℕ) → List (IndexRecord H F) → ℕ
  median_spacing median records =
      if ltb (length records) 2 then 0 else median_or_zero median (deltas records)

  unfoldable pub is_already_target : (List ℕ → ℕ) → List (IndexRecord H F) → ℕ → Bool
  unfolding median_spacing
  is_already_target median records target_ms =
      if ltb (length records) 2
      then false
      else all (has_flag w w.flag_idx_healed) records && median_spacing median records == target_ms
