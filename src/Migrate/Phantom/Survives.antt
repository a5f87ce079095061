-- ===== src/Migrate/Phantom/Survives.antt =====
-- What becomes of a shard under `migrate_tree` of src/bin/migrate_phantom_ids.rs.
use series_factory.Prelude.{
  ℕ, ◌<◌, ◌≡◌, ◌≢◌, ◌⊎◌, inl, inr, refl, sym, Bool, true, false, Bool-cases, Option, none, some,
  List, arith, ◌==◌, String,
}
use series_factory.Files.{World}
use series_factory.Migrate.Phantom.{Candidate, Store, migrate_tree}
use series_factory.Migrate.Phantom.Steps.{IsStore, IsApart, src, dst, park}
use series_factory.Migrate.Phantom.Moved.{Moves}
use series_factory.Migrate.Phantom.Kept.{migrate_tree-Preserves}

module _ {U : Type 0} where
  -- The records are where they were, or, for a closed day, in the new directory or the parking one.
  abbrev pub Survives :
      ℕ → ℕ → List U → Option (List U) → Option (List U) → Option (List U) → Type 0
  Survives today d x old new parked =
      (old ≡ some x) ⊎ ((d < today) × (old ≡ none) × ((new ≡ some x) ⊎ (parked ≡ some x)))

  -- A shard that the new directory had is there as it was.
  abbrev pub Stays : Option (List U) → Option (List U) → Type 0
  Stays before new = (before ≡ none) ⊎ (new ≡ before)

  abbrev Safe :
      ℕ
      → ℕ
      → List U
      → Option (List U)
      → Option (List U)
      → Option (List U)
      → Option (List U)
      → Type 0
  Safe today d x before old new parked = Survives today d x old new parked × Stays before new

  Safe-Moves :
      (today d : ℕ) (x : List U) (before : Option (List U))
      → d < today
      → Moves (Safe today d x before)
  Safe-Moves today d x before lt = record {
    to_new = λ x' z h. (new_of x' z h.0, stays_of x' h.1);
    to_park = λ x' y z h. (park_of x' y z h.0, h.1);
  }
    where
      stays_of : (x' : List U) → Stays before none → Stays before (some x')
      stays_of x' (inl e) = inl e
      stays_of x' (inr e) = inl (sym e)

      new_of :
          (x' : List U) (z : Option (List U))
          → Survives today d x (some x') none z
          → Survives today d x none (some x') z
      new_of x' z (inl e) = inr (lt, refl, inl e)
      new_of x' z (inr h) = cc (h.1)

      park_of :
          (x' y : List U) (z : Option (List U))
          → Survives today d x (some x') (some y) z
          → Survives today d x none (some y) (some x')
      park_of x' y z (inl e) = inr (lt, refl, inr e)
      park_of x' y z (inr h) = cc (h.1)

-- Whatever fails and wherever the run stops, the records of a shard of the old directory are in place, or, where its
-- day is closed, they left it whole for the new directory or the parking one; and a shard that the new directory had
-- of that day stays as it was.
pub migrate_tree-Survives :
    {U Q M : Type 0} (store : Store U Q M) (subdir ext : String) (laws : IsStore store subdir ext)
    (c : Candidate) (apart : IsApart store subdir c) (d today : ℕ) (apply is_dir : Bool)
    (x : List U) (w : World U)
    → w.files (src store subdir ext c d) ≡ some x
    → let after = (migrate_tree store subdir ext c today apply is_dir w).1.files in
      Survives today d x
        (after (src store subdir ext c d))
        (after (dst store subdir ext c d))
        (after (park store subdir ext c d))
      × Stays (w.files (dst store subdir ext c d)) (after (dst store subdir ext c d))
migrate_tree-Survives {U} store subdir ext laws c apart d today apply is_dir x w h =
    let before = w.files (dst store subdir ext c d) in
    (migrate_tree-Preserves store subdir ext laws c apart d (Safe today d x before) today apply
        is_dir (λ e lt. handled e lt before)).at
      w (inl h, inr refl)
  where
    handled :
        (e : ℕ)
        → e < today
        → (before : Option (List U)) → (e ≢ d) ⊎ ((e ≡ d) × Moves (Safe today d x before))
    handled e lt before = elim (Bool-cases (e == d)) [
      | inl y ↦ inr (same e y, Safe-Moves today d x before (omega (arith, same e y)))
      | inr n ↦ inl (λ eq. differ e n eq)
    ]
      where
        same : (e : ℕ) → (e == d) ≡ true → e ≡ d
        same e y = ground arith

        differ : (e : ℕ) → (e == d) ≡ false → e ≢ d
        differ e n eq = ground arith
