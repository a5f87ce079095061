-- ===== src/Prelude/Sort.antt =====
-- `sort_by` and `sort_unstable` of the standard library, for a total order: a stable sort is one of
-- the results that the unstable one may give.
use mathlib.Core.Bool.{Bool}
use mathlib.Core.List.{List, [], ◌∷◌}
use series_factory.Prelude.Lists.{All, All-choice}
use series_factory.Prelude.Tests.{if◌then◌else◌}

module _ {ℓ} {A : Type ℓ} (le : A → A → Bool) where
  abbrev pub insert_sorted : A → List A → List A
  insert_sorted a [] = a ∷ []
  insert_sorted a (b ∷ bs) =
      let rest = insert_sorted a bs in if le a b then a ∷ b ∷ bs else b ∷ rest

  -- `sort_by`, which is stable.
  abbrev pub sort_by : List A → List A
  sort_by [] = []
  sort_by (a ∷ rest) = insert_sorted a (sort_by rest)

module _ {A : Type 0} (P : A → Type 0) (le : A → A → Bool) where
  insert_sorted-All : (a : A) (rest : List A) → P a → All P rest → All P (insert_sorted le a rest)
  insert_sorted-All a [] p h = (p, tt)
  insert_sorted-All a (b ∷ rest) p h =
      All-choice P (le a b) _ _ (p, h) (h.0, insert_sorted-All a rest p h.1)

  pub sort_by-All : (xs : List A) → All P xs → All P (sort_by le xs)
  sort_by-All [] h = tt
  sort_by-All (a ∷ rest) h = insert_sorted-All a (sort_by le rest) h.0 (sort_by-All rest h.1)
