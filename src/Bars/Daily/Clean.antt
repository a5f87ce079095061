-- ===== src/Bars/Daily/Clean.antt =====
-- The days that `count_bars_per_day_from_prices` of src/bar_construction/calibrate.rs scores.
use series_factory.Prelude.{
  ℕ, zero, suc, ◌/◌, ◌≤◌, ◌≡◌, ◌⊎◌, inl, inr, refl, ◌∙◌, ap, min, max, Bool, true, false, Option,
  none, some, List, [], ◌∷◌, arith, length, filter, is_empty, leb, ltb, if◌then◌else◌,
}
use series_factory.Bars.Daily.{
  Generator, DailyBpdStats, quarantine_clean_days, bump, zeros, n_days, day_idx, count_tick,
  count_window, window, scored, count_with, count_bars_per_day_from_prices,
}

module _ {F G : Type 0} (gen : Generator F G) (sigma_cache : List F) (from_ts to_ts : ℕ) where
  abbrev pub IsScored : DailyBpdStats F → Type 0
  IsScored st =
      (st.days ≡ 0)
      ⊎ ((length st.bricks_per_day ≡ n_days gen sigma_cache from_ts to_ts)
          × (st.days ≡ length (filter (λ b. ltb 0 b) st.bricks_per_day))
          × (min (max 3 (n_days gen sigma_cache from_ts to_ts / 2))
                (n_days gen sigma_cache from_ts to_ts)
              ≤ st.days)
          × (1 ≤ st.days))

  length-bump : (i bricks : ℕ) (days : List ℕ) → length (bump i bricks days) ≡ length days
  length-bump i bricks [] = refl
  length-bump zero bricks (n ∷ days) = refl
  length-bump (suc i) bricks (n ∷ days) = ap suc (length-bump i bricks days)

  length-zeros : (n : ℕ) → length (zeros n) ≡ n
  length-zeros zero = refl
  length-zeros (suc n) = ap suc (length-zeros n)

  length-count_window :
      (prices : List (ℕ × F)) (g : G) (days : List ℕ)
      → length (count_window gen sigma_cache from_ts to_ts prices (g, days)).1 ≡ length days
  length-count_window [] g days = refl
  length-count_window ((ts, mid) ∷ prices) g days =
      length-count_window prices (count_tick gen sigma_cache from_ts to_ts ts mid (g, days)).0
        (count_tick gen sigma_cache from_ts to_ts ts mid (g, days)).1
      ∙ length-bump (day_idx gen sigma_cache from_ts to_ts ts) _ days

  quarantined :
      (per_day : List ℕ) (o : Option (List ℕ))
      → length per_day ≡ n_days gen sigma_cache from_ts to_ts
      → quarantine_clean_days per_day (n_days gen sigma_cache from_ts to_ts) ≡ o
      → IsScored (scored gen sigma_cache from_ts to_ts per_day o)
  unfolding quarantine_clean_days
  quarantined per_day none n e = inl refl
  quarantined per_day (some clean) n e = inr (n, ap length same, enough, some_left)
    where
      same : clean ≡ filter (λ b. ltb 0 b) per_day
      same = ground arith

      enough :
          min
            (max 3 (n_days gen sigma_cache from_ts to_ts / 2))
            (n_days gen sigma_cache from_ts to_ts)
          ≤ length clean
      enough = ground arith

      not_empty : (xs : List ℕ) → is_empty xs ≡ false → 1 ≤ length xs
      not_empty [] h = cc h
      not_empty (x ∷ xs) h = omega arith

      kept : is_empty (filter (λ b. ltb 0 b) per_day) ≡ false
      kept = ground arith

      some_left : 1 ≤ length clean
      some_left = omega (arith, not_empty (filter (λ b. ltb 0 b) per_day) kept, ap length same)

  -- A count scores no day, or every day that has a brick: then there is one, and these are as many as three
  -- days and half of all, where there are so many days. Every day of the range has its count.
  pub count_bars_per_day-IsScored :
      (prices : List (ℕ × F))
      → IsScored (count_bars_per_day_from_prices gen sigma_cache from_ts to_ts prices)
  unfolding count_bars_per_day_from_prices
  count_bars_per_day-IsScored prices = each gen.new_generator
    where
      either :
          (b : Bool) (x y : DailyBpdStats F)
          → IsScored x
          → IsScored y
          → IsScored (if b then x else y)
      either true x y h k = h
      either false x y h k = k

      each : (o : Option G) → IsScored (count_with gen sigma_cache from_ts to_ts o prices)
      each none = inl refl
      each (some g) = either (leb to_ts from_ts) _ _ (inl refl) (
          quarantined _ _
            (length-count_window (window gen sigma_cache from_ts to_ts prices) g _ ∙ length-zeros _)
            refl)
