-- ===== src/Bars/Daily.antt =====
-- `quarantine_clean_days` and `count_bars_per_day_from_prices` of src/bar_construction/calibrate.rs. `F` is the
-- type of f64 values and `G` that of generators; times are epoch milliseconds.
pub mod Scan
pub mod Clean
use series_factory.Prelude.{
  ℕ, zero, suc, ◌+◌, ◌-◌, ◌/◌, ◌^◌, min, max, Bool, true, false, Option, none, some, List, [], ◌∷◌,
  length, get_elem?, filter, is_empty, leb, ltb, if◌then◌else◌,
}

-- `RenkoGenerator` of the `nxr_sdk` crate: how many bricks a tick emits, up to an error if there is one.
-- `find_index_for_ts` is the index in the volatility source of a time, and `median_of` is `median_by`.
pub record Generator (F G : Type 0) : Type 0 where
  pub new_generator : Option G
  pub feed_tick_with_sigma : G → ℕ → F → F → ℕ × G
  pub find_index_for_ts : ℕ → ℕ
  pub sigma_fallback : F
  pub zero_f : F
  pub median_of : List ℕ → F

pub record DailyBpdStats (F : Type 0) : Type 0 where
  pub bricks_per_day : List ℕ
  pub median : F
  pub days : ℕ

abbrev pub ms_per_day : ℕ
ms_per_day = 86400000

unfoldable pub quarantine_clean_days : List ℕ → ℕ → Option (List ℕ)
quarantine_clean_days per_day n_days =
    let clean = filter (λ b. ltb 0 b) per_day in
    if is_empty clean
    then none
    else if ltb (length clean) (min (max 3 (n_days / 2)) n_days)
    then none
    else some clean

-- The index of the first price whose time fails the test, over prices where the others come first.
abbrev pub partition_point : {F : Type 0} → (ℕ → Bool) → List (ℕ × F) → ℕ
partition_point p [] = 0
partition_point p ((ts, px) ∷ prices) =
    let rest = partition_point p prices in if p ts then suc rest else 0

abbrev pub drop : {A : Type 0} → ℕ → List A → List A
drop zero xs = xs
drop (suc n) [] = []
drop (suc n) (x ∷ xs) = drop n xs

abbrev pub take : {A : Type 0} → ℕ → List A → List A
take zero xs = []
take (suc n) [] = []
take (suc n) (x ∷ xs) = x ∷ take n xs

-- &prices[lo..hi], where lo ≤ hi
abbrev pub slice : {A : Type 0} → ℕ → ℕ → List A → List A
slice lo hi xs = take (hi - lo) (drop lo xs)

-- One saturating increment of a u64 for each brick.
abbrev pub bump : ℕ → ℕ → List ℕ → List ℕ
bump i bricks [] = []
bump zero bricks (n ∷ days) = min (n + bricks) (2 ^ 64 - 1) ∷ days
bump (suc i) bricks (n ∷ days) = n ∷ bump i bricks days

abbrev pub zeros : ℕ → List ℕ
zeros zero = []
zeros (suc n) = 0 ∷ zeros n

module _ {F G : Type 0} (gen : Generator F G) (sigma_cache : List F) (from_ts to_ts : ℕ) where
  abbrev pub n_days : ℕ
  n_days = max ((to_ts - from_ts) / ms_per_day) 1

  abbrev pub day_idx : ℕ → ℕ
  day_idx ts = min ((ts - from_ts) / ms_per_day) (n_days - 1)

  abbrev pub or_fallback : Option F → F
  or_fallback none = gen.sigma_fallback
  or_fallback (some sigma) = sigma

  unfoldable pub sigma_for_ts : ℕ → F
  sigma_for_ts ts = or_fallback (get_elem? sigma_cache (gen.find_index_for_ts ts))

  -- The generator and the counts behind one price.
  abbrev pub count_tick : ℕ → F → G × List ℕ → G × List ℕ
  count_tick ts mid (g, per_day) =
      let (bricks, g') = gen.feed_tick_with_sigma g ts mid (sigma_for_ts ts) in
      (g', bump (day_idx ts) bricks per_day)

  abbrev pub count_window : List (ℕ × F) → G × List ℕ → G × List ℕ
  count_window [] s = s
  count_window ((ts, mid) ∷ prices) s = count_window prices (count_tick ts mid s)

  abbrev pub window : List (ℕ × F) → List (ℕ × F)
  window prices =
      slice (partition_point (λ t. ltb t from_ts) prices)
        (partition_point (λ t. leb t to_ts) prices) prices

  abbrev pub scored : List ℕ → Option (List ℕ) → DailyBpdStats F
  scored per_day none = record { bricks_per_day = per_day; median = gen.zero_f; days = 0 }
  scored per_day (some clean) = record {
    bricks_per_day = per_day;
    median = gen.median_of clean;
    days = length clean;
  }

  abbrev pub no_days : DailyBpdStats F
  no_days = record { bricks_per_day = []; median = gen.zero_f; days = 0 }

  abbrev pub count_with : Option G → List (ℕ × F) → DailyBpdStats F
  count_with none prices = no_days
  count_with (some g) prices =
      if leb to_ts from_ts
      then no_days
      else let per_day = (count_window (window prices) (g, zeros n_days)).1 in
        scored per_day (quarantine_clean_days per_day n_days)

  unfoldable pub count_bars_per_day_from_prices : List (ℕ × F) → DailyBpdStats F
  unfolding sigma_for_ts quarantine_clean_days
  count_bars_per_day_from_prices prices = count_with gen.new_generator prices
