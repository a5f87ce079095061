-- ===== src/Bars/Daily/Scan.antt =====
-- The window of `count_bars_per_day_from_prices` of src/bar_construction/calibrate.rs against the scan over all
-- prices.
use series_factory.Prelude.{
  ℕ, suc, ◌≤◌, ◌<◌, ◌≡◌, refl, sym, ◌∙◌, ap, Bool, true, false, Option, none, some, List, [], ◌∷◌,
  arith, leb, ltb, if◌then◌else◌, Bool-cases, inl, inr,
}
use series_factory.Bars.Daily.{
  Generator, DailyBpdStats, quarantine_clean_days, partition_point, drop, take, slice, zeros,
  n_days, count_tick, count_window, window, scored, no_days, count_with,
  count_bars_per_day_from_prices,
}

abbrev pub Ascending : {F : Type 0} → ℕ → List (ℕ × F) → Type 0
Ascending lo [] = Unit {0}
Ascending lo ((ts, px) ∷ prices) = (lo ≤ ts) × Ascending ts prices

module _ {F G : Type 0} (gen : Generator F G) (sigma_cache : List F) (from_ts to_ts : ℕ) where
  -- The scan over all prices, which passes over those out of range.
  abbrev pub scan : List (ℕ × F) → G × List ℕ → G × List ℕ
  scan [] s = s
  scan ((ts, mid) ∷ prices) s = scan prices (
      if ltb ts from_ts
      then s
      else if ltb to_ts ts
      then s
      else count_tick gen sigma_cache from_ts to_ts ts mid s)

  -- A step of the scan that passes over the price, or counts it.
  skip : (b : Bool) (s t : G × List ℕ) → b ≡ true → (if b then s else t) ≡ s
  skip true s t h = refl
  skip false s t h = cc h

  keep : (b : Bool) (s t : G × List ℕ) → b ≡ false → (if b then s else t) ≡ t
  keep true s t h = cc h
  keep false s t h = refl

  passed_over :
      (b : Bool) (s t : G × List ℕ) (c : Bool)
      → c ≡ true
      → (if b then s else if c then s else t) ≡ s
  passed_over true s t c h = refl
  passed_over false s t c h = skip c s t h

  scan-late :
      (lo : ℕ) (prices : List (ℕ × F)) (s : G × List ℕ)
      → to_ts < lo
      → Ascending lo prices
      → scan prices s ≡ s
  scan-late lo [] s h up = refl
  scan-late lo ((ts, mid) ∷ prices) s h up =
      ap (scan prices) (passed_over (ltb ts from_ts) s _ (ltb to_ts ts) (ground arith))
      ∙ scan-late ts prices s (omega (arith, h, up.0)) up.1

  -- Behind the start of the window, the scan counts what comes by its end.
  scan-take :
      (lo : ℕ) (prices : List (ℕ × F)) (s : G × List ℕ)
      → from_ts ≤ lo
      → Ascending lo prices
      → count_window gen sigma_cache from_ts to_ts
          (take (partition_point (λ t. leb t to_ts) prices) prices)
          s
        ≡ scan prices s
  scan-take lo [] s h up = refl
  scan-take lo ((ts, mid) ∷ prices) s h up = elim (Bool-cases (leb ts to_ts)) [
    | inl inside ↦ rw inside (
        scan-take ts prices (count_tick gen sigma_cache from_ts to_ts ts mid s)
          (omega (arith, h, up.0)) up.1
        ∙ ap (scan prices) (
            sym
              (keep (ltb ts from_ts) s _ (ground arith) ∙ keep (ltb to_ts ts) s _ (ground arith))))
    | inr behind ↦ rw behind (
        sym (
          ap (scan prices) (passed_over (ltb ts from_ts) s _ (ltb to_ts ts) (ground arith))
          ∙ scan-late ts prices s (ground arith) up.1))
  ]

  slice_behind :
      (l h : ℕ) (x : ℕ × F) (xs : List (ℕ × F)) → slice (suc l) (suc h) (x ∷ xs) ≡ slice l h xs
  slice_behind l h x xs = ap (λ n. take n (drop l xs)) (omega arith)

  slice_start : (h : ℕ) (xs : List (ℕ × F)) → slice 0 h xs ≡ take h xs
  slice_start h xs = ap (λ n. take n xs) (omega arith)

  -- A price before the range is cut off, and a later one starts the window.
  window_early :
      (ts : ℕ) (mid : F) (prices : List (ℕ × F))
      → from_ts ≤ to_ts
      → ltb ts from_ts ≡ true
      → window gen sigma_cache from_ts to_ts ((ts, mid) ∷ prices)
        ≡ window gen sigma_cache from_ts to_ts prices
  window_early ts mid prices le early = rw (early, inside) (slice_behind _ _ (ts, mid) prices)
    where
      inside : leb ts to_ts ≡ true
      inside = ground arith

  window_here :
      (ts : ℕ) (mid : F) (prices : List (ℕ × F))
      → ltb ts from_ts ≡ false
      → window gen sigma_cache from_ts to_ts ((ts, mid) ∷ prices)
        ≡ take (partition_point (λ t. leb t to_ts) ((ts, mid) ∷ prices)) ((ts, mid) ∷ prices)
  window_here ts mid prices here = rw here (slice_start _ ((ts, mid) ∷ prices))

  window-scan :
      from_ts ≤ to_ts
      → (lo : ℕ) (prices : List (ℕ × F)) (s : G × List ℕ) → Ascending lo prices
      → count_window gen sigma_cache from_ts to_ts (window gen sigma_cache from_ts to_ts prices) s
        ≡ scan prices s
  window-scan le lo [] s up = refl
  window-scan le lo ((ts, mid) ∷ prices) s up = elim (Bool-cases (ltb ts from_ts)) [
    | inl early ↦
        ap (λ w. count_window gen sigma_cache from_ts to_ts w s)
          (window_early ts mid prices le early)
        ∙ window-scan le ts prices s up.1
        ∙ sym (ap (scan prices) (skip (ltb ts from_ts) s _ early))
    | inr here ↦
        ap (λ w. count_window gen sigma_cache from_ts to_ts w s) (window_here ts mid prices here)
        ∙ scan-take ts ((ts, mid) ∷ prices) s (ground arith) (omega arith, up.1)
  ]

  -- The statistics, with the scan in place of the window.
  abbrev pub scan_stats : Option G → List (ℕ × F) → DailyBpdStats F
  scan_stats none prices = no_days gen sigma_cache from_ts to_ts
  scan_stats (some g) prices =
      if leb to_ts from_ts
      then no_days gen sigma_cache from_ts to_ts
      else let per_day = (scan prices (g, zeros (n_days gen sigma_cache from_ts to_ts))).1 in
        scored gen sigma_cache from_ts to_ts per_day
          (quarantine_clean_days per_day (n_days gen sigma_cache from_ts to_ts))

  -- Cutting the window by two binary searches gives what the scan over all prices gives, where these ascend.
  pub count_bars_per_day-scan :
      (prices : List (ℕ × F))
      → Ascending 0 prices
      → count_bars_per_day_from_prices gen sigma_cache from_ts to_ts prices
        ≡ scan_stats gen.new_generator prices
  unfolding count_bars_per_day_from_prices
  count_bars_per_day-scan prices up = each gen.new_generator
    where
      chosen :
          {A : Type 0} (b : Bool) (x y z : A)
          → (b ≡ false → y ≡ z)
          → (if b then x else y) ≡ (if b then x else z)
      chosen true x y z h = refl
      chosen false x y z h = h refl

      each :
          (o : Option G) → count_with gen sigma_cache from_ts to_ts o prices ≡ scan_stats o prices
      each none = refl
      each (some g) = chosen (leb to_ts from_ts) _ _ _ (λ ordered.
          ap
            (λ (r : G × List ℕ).
              scored gen sigma_cache from_ts to_ts r.1
                (quarantine_clean_days r.1 (n_days gen sigma_cache from_ts to_ts)))
            (window-scan (ground arith) 0 prices (g, zeros (n_days gen sigma_cache from_ts to_ts))
              up))
