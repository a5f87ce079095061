-- ===== src/Resample/Verify/Passes.antt =====
-- The output of `resample_last_in_bucket` under the checks of `verify_invariants`.
use series_factory.Prelude.{
  ℕ, suc, ◌%◌, ◌≤◌, ◌≡◌, ◌≢◌, refl, ap, ◌∙◌, bit_and, Bool, false, not, some, none, List, [], ◌∷◌,
  arith, ◌==◌, Bool-cases, inl, inr, All, All-imp, length, any, find?, last_or, last?, head?,
}
use series_factory.Prelude.Bits.{bit_and-bit_or_of_apart}
use series_factory.Mitch.{IndexRecord, Wire, IsWire}
use series_factory.Resample.Bucket.{ts_of, stamp, resample_last_in_bucket}
use series_factory.Resample.Bucket.Runs.{
  OnGrid, bin_of, ts-stamp, runs, runs-nil, runs_same, runs_other, resample-eq-runs, bin_start-le,
  AscendingFrom, IncreasingFrom,
}
use series_factory.Resample.Bucket.Rows.{IsRow, runs-All, runs-All-IsRow, runs-IncreasingFrom}
use series_factory.Resample.Verify.{
  Marker, freshness, active, has_flag, check_count, check_aligned, check_increasing, check_last,
  check_healed, check_marker, check_type, verify_invariants,
}

module _ {A : Type 0} (p : A → Bool) where
  -- A search fails where no element fits.
  find?-none : (xs : List A) → All (λ x. p x ≡ false) xs → find? p xs ≡ none
  find?-none [] h = refl
  find?-none (x ∷ xs) h = rw h.0 (find?-none xs h.1)

  All-any : (xs : List A) → any p xs ≡ false → All (λ x. p x ≡ false) xs
  All-any [] h = tt
  All-any (x ∷ xs) h = (ground arith, All-any xs (ground arith))

module _ {H F : Type 0} (w : Wire H) where
  check_increasing_of_From :
      (lo : ℕ) (ys : List (IndexRecord H F)) → IncreasingFrom w lo ys → check_increasing w ys ≡ []
  unfolding check_increasing
  check_increasing_of_From lo [] h = refl
  check_increasing_of_From lo (x ∷ []) h = refl
  check_increasing_of_From lo (x ∷ y ∷ ys) h =
      ground (arith, check_increasing_of_From (suc (ts_of w x)) (y ∷ ys) h.1)

last_or-eq : {A : Type 0} (x : A) (xs : List A) {y : A} → last? xs ≡ some y → last_or x xs ≡ y
last_or-eq x [] h = cc
last_or-eq x (z ∷ xs) h = cc

module _ {H F : Type 0} (w : Wire H) (laws : IsWire w) (target_ms : ℕ)
    (grid : OnGrid laws target_ms) where
  abbrev start : IndexRecord H F → ℕ
  start r = bin_of w laws target_ms grid r

  abbrev rows : IndexRecord H F → List (IndexRecord H F) → List (IndexRecord H F)
  rows r rs = runs w laws target_ms grid r rs

  length-rows :
      (r : IndexRecord H F) (rs : List (IndexRecord H F)) → length (rows r rs) ≤ suc (length rs)
  length-rows r [] = rw runs-nil (omega arith)
  length-rows r (s ∷ rs) = elim (Bool-cases (start r == start s)) [
    | inl same ↦ rw (runs_same w laws target_ms grid r s rs same) (omega (arith, length-rows s rs))
    | inr other ↦
        rw (runs_other w laws target_ms grid r s rs other) (omega (arith, length-rows s rs))
  ]

  last-rows :
      (r : IndexRecord H F) (rs : List (IndexRecord H F))
      → (y : IndexRecord H F) × (last? (rows r rs) ≡ some y) × (ts_of w y ≡ start (last_or r rs))
  last-rows r [] = (stamp w r (start r), rw runs-nil, ts-stamp w laws target_ms grid r)
  last-rows r (s ∷ rs) =
      let (y, l, t) = last-rows s rs in
      elim (Bool-cases (start r == start s)) [
        | inl same ↦ (y, rw (runs_same w laws target_ms grid r s rs same) l, t)
        | inr other ↦ (
          y,
          rw (runs_other w laws target_ms grid r s rs other) (ap some (last_or-eq _ (rows s rs) l)),
          t,
        )
      ]

  head-rows :
      (ty : ℕ) (r : IndexRecord H F) (rs : List (IndexRecord H F))
      → All (λ s. w.message_type s.header ≡ ty) (r ∷ rs)
      → (y : IndexRecord H F) × (head? (rows r rs) ≡ some y) × (w.message_type y.header ≡ ty)
  head-rows ty r [] h =
      (stamp w r (start r), rw runs-nil, unfold stamp in laws.type-set_timestamp r.header _ ∙ h.0)
  head-rows ty r (s ∷ rs) h =
      let (y, l, t) = head-rows ty s rs h.1 in
      elim (Bool-cases (start r == start s)) [
        | inl same ↦ (y, rw (runs_same w laws target_ms grid r s rs same) l, t)
        | inr other ↦ (
          stamp w r (start r),
          rw (runs_other w laws target_ms grid r s rs other),
          unfold stamp in laws.type-set_timestamp r.header _ ∙ h.0,
        )
      ]

  count_passes :
      (r : IndexRecord H F) (rs : List (IndexRecord H F)) → check_count w (r ∷ rs) (rows r rs) ≡ []
  unfolding check_count
  count_passes r rs = ground (arith, length-rows r rs)

  aligned_passes :
      (ys : List (IndexRecord H F))
      → All (IsRow w laws target_ms grid) ys
      → check_aligned w ys target_ms ≡ []
  unfolding check_aligned
  aligned_passes ys h = rw (
      find?-none _ ys (
        All-imp _ (λ (r : IndexRecord H F). not (ts_of w r % target_ms == 0) ≡ false)
          (λ (y : IndexRecord H F) (row : IsRow w laws target_ms grid y). rw row.aligned) ys h))

  healed_passes :
      (ys : List (IndexRecord H F)) → All (IsRow w laws target_ms grid) ys → check_healed w ys ≡ []
  unfolding check_healed
  healed_passes ys h = rw (
      find?-none _ ys (
        All-imp _ (λ (r : IndexRecord H F). not (has_flag w w.flag_idx_healed r) ≡ false)
          (λ (y : IndexRecord H F) (row : IsRow w laws target_ms grid y).
            rw row.marked (shown w.flag_idx_healed laws.healed_set))
          ys h))
    where
      shown : (b : ℕ) → b ≢ 0 → not (not (b == 0)) ≡ false
      shown b e = ground arith

  -- No source record has the bit, so no row has it: the stamp sets another one.
  marker_passes :
      (name : Marker) (bit : ℕ) (r : IndexRecord H F) (rs : List (IndexRecord H F))
      → bit_and w.flag_idx_healed bit ≡ 0
      → check_marker w name bit (r ∷ rs) (rows r rs) ≡ []
  unfolding check_marker
  marker_passes name bit r rs h = elim (Bool-cases (any (has_flag w bit) (r ∷ rs))) [
    | inl old ↦ rw old
    | inr unset ↦ rw unset (rw (find?-none (has_flag w bit) (rows r rs) (new unset)))
  ]
    where
      new : any (has_flag w bit) (r ∷ rs) ≡ false → All (λ y. has_flag w bit y ≡ false) (rows r rs)
      new unset =
          let old = All-any (has_flag w bit) (r ∷ rs) unset in
          runs-All {F = F} w laws target_ms grid (λ s. has_flag w bit s ≡ false)
            (λ y. has_flag w bit y ≡ false)
            (λ s e.
              unfold stamp in rw (bit_and-bit_or_of_apart s.index.flags w.flag_idx_healed bit h) e)
            r rs old.0 old.1

  last_passes :
      (r : IndexRecord H F) (rs : List (IndexRecord H F))
      → check_last w (last? (rows r rs)) (last? (r ∷ rs)) ≡ []
  unfolding check_last
  last_passes r rs =
      let (y, l, t) = last-rows r rs in
      rw l (ground (arith, t, bin_start-le (ts_of w (last_or r rs)) target_ms))

  type_passes :
      (ty : ℕ) (r : IndexRecord H F) (rs : List (IndexRecord H F))
      → All (λ s. w.message_type s.header ≡ ty) (r ∷ rs)
      → check_type w (some r) (head? (rows r rs)) ≡ []
  unfolding check_type
  type_passes ty r rs h = let (y, l, t) = head-rows ty r rs h in rw l (ground (arith, t, h.0))

-- Ascending records of one message type, down-sampled to an even target whose grid holds the wire
-- clock's origin, pass all seven self-checks: the commit is never refused.
pub verify_invariants-resample :
    {H F : Type 0} (w : Wire H) (laws : IsWire w) (target_ms : ℕ)
    → OnGrid laws target_ms
    → (ty : ℕ) (records : List (IndexRecord H F)) → AscendingFrom w 0 records
    → All (λ r. w.message_type r.header ≡ ty) records
    → verify_invariants w records (resample_last_in_bucket w records target_ms) target_ms ≡ []
verify_invariants-resample w laws target_ms grid ty [] a h =
    unfold resample_last_in_bucket verify_invariants check_count check_aligned check_increasing
      check_last check_healed check_marker check_type in
    refl
verify_invariants-resample w laws target_ms grid ty (r ∷ rs) a h =
    let row = runs-All-IsRow w laws target_ms grid r rs in
    rw (resample-eq-runs w laws target_ms grid r rs) (
      unfold verify_invariants in
      rw (
        count_passes w laws target_ms grid r rs,
        aligned_passes w laws target_ms grid _ row,
        check_increasing_of_From w 0 _
            (runs-IncreasingFrom w laws target_ms grid 0 r rs (omega arith) a.1),
        last_passes w laws target_ms grid r rs,
        healed_passes w laws target_ms grid _ row,
        marker_passes w laws target_ms grid freshness w.flag_conf_freshness r rs
            laws.healed_apart_freshness,
        marker_passes w laws target_ms grid active w.flag_conf_active r rs laws.healed_apart_active,
        type_passes w laws target_ms grid ty r rs h,
      ))
