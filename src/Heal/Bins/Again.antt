-- ===== src/Heal/Bins/Again.antt =====
-- A second pass of `dedupe_bins` of src/idx_heal.rs over its own output.
use series_factory.Prelude.{
  ℕ, suc, ◌≤◌, ◌<◌, ◌≡◌, refl, sym, ◌∙◌, ap, ap₂, subst, true, List, [], ◌∷◌, ◌++◌, append_assoc,
  append-nil, arith, map, filter-All, All, ◌==◌,
}
use series_factory.Prelude.Outcome.{Outcome, ok, err}
use series_factory.Heal.Bins.{push_entry, group_by, prepend, collect_bins, settle, dedupe_bins}
use series_factory.Heal.Bins.Chunks.{Increasing, collect_keys, in_bin, dedupe_bins-IsBinned}

module _ {A : Type 0} (key : A → ℕ) where
  abbrev singles : List A → List (ℕ × List A)
  singles [] = []
  singles (a ∷ recs) = (key a, a ∷ []) ∷ singles recs

  -- Entries below `k`, in the order of a map.
  abbrev Before : ℕ → List (ℕ × List A) → Type 0
  Before k [] = Unit {0}
  Before k ((j, chunk) ∷ bins) = (j < k) × Before k bins

  push_last :
      (k : ℕ) (a : A) (bins : List (ℕ × List A))
      → Before k bins
      → push_entry k a bins ≡ bins ++ (k, a ∷ []) ∷ []
  push_last k a [] h = refl
  push_last k a ((j, chunk) ∷ bins) h = ground (arith, push_last k a bins)

  Before-more : (k l : ℕ) (bins : List (ℕ × List A)) → k ≤ l → Before k bins → Before l bins
  Before-more k l [] le h = tt
  Before-more k l ((j, chunk) ∷ bins) le h = (omega (arith, h.0), Before-more k l bins le h.1)

  Before-last :
      (k : ℕ) (a : A) (bins : List (ℕ × List A))
      → Before k bins
      → Before (suc k) (bins ++ (k, a ∷ []) ∷ [])
  Before-last k a [] h = (omega arith, tt)
  Before-last k a ((j, chunk) ∷ bins) h = (omega (arith, h.0), Before-last k a bins h.1)

  group_by-singles :
      (lo : ℕ) (recs : List A) (bins : List (ℕ × List A))
      → Increasing lo (map key recs)
      → Before lo bins
      → group_by key recs bins ≡ bins ++ singles recs
  group_by-singles lo [] bins up h = sym (append-nil bins)
  group_by-singles lo (a ∷ recs) bins up h =
      ap (group_by key recs) (push_last (key a) a bins (Before-more lo (key a) bins up.0 h))
      ∙ group_by-singles (suc (key a)) recs (bins ++ (key a, a ∷ []) ∷ []) up.1
          (Before-last (key a) a bins (Before-more lo (key a) bins up.0 h))
      ∙ append_assoc bins ((key a, a ∷ []) ∷ []) (singles recs)

  module _ {E : Type 0} (merge : List A → Outcome E A) where
    collect-singles : (recs : List A) → collect_bins (settle merge) (singles recs) ≡ ok recs
    collect-singles [] = refl
    collect-singles (a ∷ recs) = rw (collect-singles recs)

    dedupe_of_Increasing :
        (recs : List A) → Increasing 0 (map key recs) → dedupe_bins key merge recs ≡ ok recs
    unfolding dedupe_bins
    dedupe_of_Increasing [] up = refl
    dedupe_of_Increasing (a ∷ recs) up =
        ap (collect_bins (settle merge)) (group_by-singles 0 (a ∷ recs) [] up tt)
        ∙ collect-singles (a ∷ recs)

    -- A merged record stays in the bin of its chunk.
    abbrev pub StaysInBin : Type 0
    StaysInBin =
        (k : ℕ) (chunk : List A) (m : A)
        → All (λ r. (key r == k) ≡ true) chunk
        → merge chunk ≡ ok m
        → key m ≡ k

    settle-key :
        StaysInBin
        → (k : ℕ) (chunk : List A) (m : A) → All (λ r. (key r == k) ≡ true) chunk
        → settle merge chunk ≡ ok m
        → key m ≡ k
    settle-key stays k [] m h e = stays k [] m h e
    settle-key stays k (a ∷ []) m h e = ground arith
    settle-key stays k (a ∷ b ∷ chunk) m h e = stays k (a ∷ b ∷ chunk) m h e

    prepend-ok :
        (o : Outcome E A) (rest : Outcome E (List A)) (out : List A)
        → prepend o rest ≡ ok out
        → (a : A) × (rest_out : List A) × (o ≡ ok a) × (rest ≡ ok rest_out) × (out ≡ a ∷ rest_out)
    prepend-ok (err e) rest out h = cc h
    prepend-ok (ok a) (err e) out h = cc h
    prepend-ok (ok a) (ok rest) out h = (a, rest, refl, refl, cc (sym h))

    map-key-collect :
        StaysInBin
        → (recs : List A) (ks : List ℕ) (out : List A)
        → collect_keys key (λ k. settle merge (in_bin key k recs)) ks ≡ ok out
        → map key out ≡ ks
    map-key-collect stays recs [] out h = let e : out ≡ [] = cc (sym h) in ap (map key) e
    map-key-collect stays recs (k ∷ ks) out h =
        let parts = prepend-ok (settle merge (in_bin key k recs)) _ out h in
        ap (map key) parts.4
        ∙ ap₂ (λ x xs. x ∷ xs)
            (settle-key stays k (in_bin key k recs) parts.0
              (filter-All (λ r. (key r == k) ≡ true) (λ r. key r == k) recs) parts.2)
            (map-key-collect stays recs ks parts.1 parts.3)

    -- Where merged records stay in their bins, a pass over the output of a pass changes nothing.
    pub dedupe_bins_idempotent :
        StaysInBin
        → (recs out : List A) → dedupe_bins key merge recs ≡ ok out
        → dedupe_bins key merge out ≡ ok out
    dedupe_bins_idempotent stays recs out h =
        let binned = dedupe_bins-IsBinned key merge recs in
        dedupe_of_Increasing out (
          subst (Increasing 0) (sym (map-key-collect stays recs binned.0 out (sym binned.3 ∙ h)))
            binned.1)
