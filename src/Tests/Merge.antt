-- ===== src/Tests/Merge.antt =====
-- The composite cycles at concrete inputs.
use series_factory.Prelude.{ℕ, ◌+◌, ◌≡◌, refl, Option, none, some, List, [], ◌∷◌, arith, ◌==◌, map}
use series_factory.Mitch.{Index}
use series_factory.Merge.Cycle.{Event, Vwap, merge_slot, emit, merge}
use series_factory.Merge.Cycle.Once.{once, merge-once}
use series_factory.Tests.Sample.{wire, tick}

-- The composite is the first slot that is there; an entry is its last index.
abbrev first_slot : List (Option (Index ℕ)) → ℕ → Option (Index ℕ)
first_slot [] now = none
first_slot (none ∷ slots) now = first_slot slots now
first_slot (some i ∷ slots) now = some i

abbrev vwap : Vwap (Index ℕ) ℕ
vwap = record {
  base_weight = λ i. 1;
  new_at = λ i weight now. i;
  update_at = λ entry i now. i;
  compute_vwap_at = first_slot;
  same_f64 = λ a b. a == b;
}

abbrev event : ℕ → ℕ → Event ℕ
event ts source = record { ts_ms = ts; source_idx = source; index = (tick ts (100 + ts)).index }

abbrev later : List (Event ℕ)
later = event 1050 1 ∷ event 1199 0 ∷ event 1200 0 ∷ event 1900 1 ∷ []

merge-once_example :
    merge wire vwap 200 1000 (none ∷ none ∷ []) (event 1000 0 ∷ later)
    ≡ once wire vwap 200 1000 1000
        (merge_slot wire vwap 200 1000 (event 1000 0) (none ∷ none ∷ []))
        1000
        later
merge-once_example =
    merge-once wire vwap 200 1000 (omega arith) (none ∷ none ∷ []) (event 1000 0) later
      (omega arith, (omega arith, (omega arith, (omega arith, tt))))

-- No composite for the cycles up to 1800.
boundaries :
    map (λ p. p.0) (merge wire vwap 200 1000 (none ∷ none ∷ []) (event 1000 0 ∷ later))
    ≡ 1200 ∷ 1400 ∷ 2000 ∷ []
unfolding merge emit merge_slot
boundaries = refl
