-- ===== src/Heal/Bins.antt =====
-- `resample_bins` and `dedupe_bins` of src/idx_heal.rs. A `BTreeMap` from numbers is the list of its entries
-- in key order. `A` is the type of records, `E` that of errors.
pub mod Chunks
pub mod Again
use series_factory.Prelude.{
  ℕ, suc, ◌/◌, ◌*◌, Bool, List, [], ◌∷◌, ◌++◌, length, ltb, ◌==◌, if◌then◌else◌,
}
use series_factory.Prelude.Outcome.{Outcome, ok, err}

module _ {A : Type 0} where
  -- bins.entry(k).or_default().push(a)
  abbrev pub push_entry : ℕ → A → List (ℕ × List A) → List (ℕ × List A)
  push_entry k a [] = (k, a ∷ []) ∷ []
  push_entry k a ((j, chunk) ∷ bins) =
      let later = (j, chunk) ∷ push_entry k a bins in
      if ltb k j
      then (k, a ∷ []) ∷ (j, chunk) ∷ bins
      else if k == j
      then (j, chunk ++ a ∷ []) ∷ bins
      else later

  abbrev pub group_by : (A → ℕ) → List A → List (ℕ × List A) → List (ℕ × List A)
  group_by key [] bins = bins
  group_by key (a ∷ rest) bins = group_by key rest (push_entry (key a) a bins)

  module _ {E : Type 0} where
    abbrev pub prepend : Outcome E A → Outcome E (List A) → Outcome E (List A)
    prepend (err e) rest = err e
    prepend (ok a) (err e) = err e
    prepend (ok a) (ok rest) = ok (a ∷ rest)

    -- One record for each bin, up to the first error.
    abbrev pub collect_bins : (List A → Outcome E A) → List (ℕ × List A) → Outcome E (List A)
    collect_bins merge [] = ok []
    collect_bins merge ((k, chunk) ∷ bins) = prepend (merge chunk) (collect_bins merge bins)

    -- `key` is the start of a record's bin.
    unfoldable pub resample_bins : (A → ℕ) → (List A → Outcome E A) → List A → Outcome E (List A)
    resample_bins key merge [] = ok []
    resample_bins key merge (a ∷ rest) = collect_bins merge (group_by key (a ∷ rest) [])

    -- A bin of one record stays as it is.
    abbrev pub settle : (List A → Outcome E A) → List A → Outcome E A
    settle merge [] = merge []
    settle merge (a ∷ []) = ok a
    settle merge (a ∷ b ∷ chunk) = merge (a ∷ b ∷ chunk)

    unfoldable pub dedupe_bins : (A → ℕ) → (List A → Outcome E A) → List A → Outcome E (List A)
    dedupe_bins key merge [] = ok []
    dedupe_bins key merge (a ∷ rest) = collect_bins (settle merge) (group_by key (a ∷ rest) [])
