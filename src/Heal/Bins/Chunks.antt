-- ===== src/Heal/Bins/Chunks.antt =====
-- The bins of src/idx_heal.rs against their definition: the records of each bin, by a filter.
use series_factory.Prelude.{
  ℕ, suc, ◌≤◌, ◌<◌, ◌≡◌, refl, sym, ◌∙◌, ap, ap₂, Bool, true, false, ◌||◌, List, [], ◌∷◌, ◌++◌,
  append_assoc, append-nil, arith, any, filter, ◌==◌, if◌then◌else◌,
}
use series_factory.Prelude.Outcome.{Outcome, ok}
use series_factory.Heal.Bins.{
  push_entry, group_by, prepend, collect_bins, resample_bins, settle, dedupe_bins,
}

-- Numbers in strictly ascending order, none below `lo`.
abbrev pub Increasing : ℕ → List ℕ → Type 0
Increasing lo [] = Unit {0}
Increasing lo (k ∷ ks) = (lo ≤ k) × Increasing (suc k) ks

-- The list has the number `k`.
abbrev pub has : ℕ → List ℕ → Bool
has k ks = any (λ j. j == k) ks

module _ {A : Type 0} where
  abbrev pub keys : List (ℕ × List A) → List ℕ
  keys [] = []
  keys ((k, chunk) ∷ bins) = k ∷ keys bins

  -- The records at `k`; none where there is no entry.
  abbrev pub chunk_at : ℕ → List (ℕ × List A) → List A
  chunk_at k [] = []
  chunk_at k ((j, chunk) ∷ bins) = let rest = chunk_at k bins in if j == k then chunk else rest

  chunk_at_below :
      (k lo : ℕ) (bins : List (ℕ × List A))
      → k < lo
      → Increasing lo (keys bins)
      → chunk_at k bins ≡ []
  chunk_at_below k lo [] h up = refl
  chunk_at_below k lo ((j, chunk) ∷ bins) h up = ground (arith, chunk_at_below k (suc j) bins)

  chunk_at-push_entry :
      (k i : ℕ) (a : A) (lo : ℕ) (bins : List (ℕ × List A))
      → Increasing lo (keys bins)
      → chunk_at k (push_entry i a bins)
        ≡ (if i == k then chunk_at k bins ++ a ∷ [] else chunk_at k bins)
  chunk_at-push_entry k i a lo [] up = ground arith
  chunk_at-push_entry k i a lo ((j, chunk) ∷ bins) up =
      ground (arith, chunk_at-push_entry k i a (suc j) bins, chunk_at_below k (suc j) bins)

  push_entry-Increasing :
      (i : ℕ) (a : A) (lo : ℕ) (bins : List (ℕ × List A))
      → lo ≤ i
      → Increasing lo (keys bins)
      → Increasing lo (keys (push_entry i a bins))
  push_entry-Increasing i a lo [] h up = (h, tt)
  push_entry-Increasing i a lo ((j, chunk) ∷ bins) h up =
      ground (arith, push_entry-Increasing i a (suc j) bins)

  has-push_entry :
      (k i : ℕ) (a : A) (bins : List (ℕ × List A))
      → has k (keys (push_entry i a bins)) ≡ (i == k) || has k (keys bins)
  has-push_entry k i a [] = refl
  has-push_entry k i a ((j, chunk) ∷ bins) = ground (arith, has-push_entry k i a bins)

module _ {A : Type 0} (key : A → ℕ) where
  -- The records of the bin at `k`.
  abbrev pub in_bin : ℕ → List A → List A
  in_bin k recs = filter (λ r. key r == k) recs

  group_by-Increasing :
      (recs : List A) (bins : List (ℕ × List A))
      → Increasing 0 (keys bins)
      → Increasing 0 (keys (group_by key recs bins))
  group_by-Increasing [] bins up = up
  group_by-Increasing (a ∷ recs) bins up =
      group_by-Increasing recs (push_entry (key a) a bins)
        (push_entry-Increasing (key a) a 0 bins (omega arith) up)

  step_chunk :
      (b : Bool) (a : A) (xs ys : List A)
      → (if b then xs ++ a ∷ [] else xs) ++ ys ≡ xs ++ (if b then a ∷ ys else ys)
  step_chunk true a xs ys = append_assoc xs (a ∷ []) ys
  step_chunk false a xs ys = refl

  chunk_at-group_by :
      (k : ℕ) (recs : List A) (bins : List (ℕ × List A))
      → Increasing 0 (keys bins)
      → chunk_at k (group_by key recs bins) ≡ chunk_at k bins ++ in_bin k recs
  chunk_at-group_by k [] bins up = sym (append-nil (chunk_at k bins))
  chunk_at-group_by k (a ∷ recs) bins up =
      chunk_at-group_by k recs (push_entry (key a) a bins)
        (push_entry-Increasing (key a) a 0 bins (omega arith) up)
      ∙ ap (λ t. t ++ in_bin k recs) (chunk_at-push_entry k (key a) a 0 bins up)
      ∙ step_chunk (key a == k) a (chunk_at k bins) (in_bin k recs)

  has-group_by :
      (k : ℕ) (recs : List A) (bins : List (ℕ × List A))
      → has k (keys (group_by key recs bins)) ≡ has k (keys bins) || any (λ r. key r == k) recs
  has-group_by k [] bins = ground arith
  has-group_by k (a ∷ recs) bins =
      ground
        (arith, has-group_by k recs (push_entry (key a) a bins), has-push_entry k (key a) a bins)

  module _ {E : Type 0} where
    -- One record for each number, up to the first error.
    abbrev pub collect_keys : (ℕ → Outcome E A) → List ℕ → Outcome E (List A)
    collect_keys f [] = ok []
    collect_keys f (k ∷ ks) = prepend (f k) (collect_keys f ks)

    collect_rest :
        (f g : ℕ → Outcome E A) (lo : ℕ) (ks : List ℕ)
        → Increasing lo ks
        → ((k : ℕ) → lo ≤ k → f k ≡ g k)
        → collect_keys f ks ≡ collect_keys g ks
    collect_rest f g lo [] up h = refl
    collect_rest f g lo (k ∷ ks) up h =
        ap₂ prepend (h k up.0)
          (collect_rest f g (suc k) ks up.1 (λ j le. h j (omega (arith, le, up.0))))

    collect-keys :
        (merge : List A → Outcome E A) (lo : ℕ) (bins : List (ℕ × List A))
        → Increasing lo (keys bins)
        → collect_bins merge bins ≡ collect_keys (λ k. merge (chunk_at k bins)) (keys bins)
    collect-keys merge lo [] up = refl
    collect-keys merge lo ((j, chunk) ∷ bins) up = ap₂ prepend (ap merge (ground arith)) (
        collect-keys merge (suc j) bins up.1
        ∙ collect_rest _ _ (suc j) (keys bins) up.1 (λ k le. ap merge (ground arith)))

    -- The output is one merged record for each bin that has a record, in ascending order; the first error
    -- ends it.
    abbrev pub IsBinned : (List A → Outcome E A) → List A → Outcome E (List A) → Type 0
    IsBinned merge recs result =
        (ks : List ℕ) × Increasing 0 ks
        × ((k : ℕ) → has k ks ≡ any (λ r. key r == k) recs)
        × (result ≡ collect_keys (λ k. merge (in_bin k recs)) ks)

    grouped-IsBinned :
        (merge : List A → Outcome E A) (recs : List A)
        → IsBinned merge recs (collect_bins merge (group_by key recs []))
    grouped-IsBinned merge recs = (
      keys (group_by key recs []),
      group_by-Increasing recs [] tt,
      λ k. has-group_by k recs [],
      collect-keys merge 0 (group_by key recs []) (group_by-Increasing recs [] tt)
          ∙ collect_rest _ _ 0 (keys (group_by key recs [])) (group_by-Increasing recs [] tt)
              (λ k le. ap merge (chunk_at-group_by k recs [] tt)),
    )

    -- `resample_bins` gives one merged record for each bin that has a record, in ascending order of the bins,
    -- each merged from the records that a filter by bin finds; the first error ends it.
    pub resample_bins-IsBinned :
        (merge : List A → Outcome E A) (recs : List A)
        → IsBinned merge recs (resample_bins key merge recs)
    unfolding resample_bins
    resample_bins-IsBinned merge [] = ([], tt, λ k. refl, refl)
    resample_bins-IsBinned merge (a ∷ recs) = grouped-IsBinned merge (a ∷ recs)

    -- So does `dedupe_bins`, but for bins of one record.
    pub dedupe_bins-IsBinned :
        (merge : List A → Outcome E A) (recs : List A)
        → IsBinned (settle merge) recs (dedupe_bins key merge recs)
    unfolding dedupe_bins
    dedupe_bins-IsBinned merge [] = ([], tt, λ k. refl, refl)
    dedupe_bins-IsBinned merge (a ∷ recs) = grouped-IsBinned (settle merge) (a ∷ recs)
