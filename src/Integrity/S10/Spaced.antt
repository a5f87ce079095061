-- ===== src/Integrity/S10/Spaced.antt =====
-- Which files `check_s10` of src/bin/integrity_check.rs has no error for.
use native.Mathlib.Nat.{mod_self}
use series_factory.Prelude.{
  ℕ, suc, ◌+◌, ◌-◌, ◌*◌, ◌/◌, ◌%◌, ◌≤◌, ◌<◌, ◌≡◌, ◌↔◌, refl, Bool, true, false, not, ◌&&◌, Option,
  none, some, List, [], ◌∷◌, ◌++◌, arith, ltb, ◌==◌, if◌then◌else◌,
}
use series_factory.Integrity.File.{Content, torn, whole, no_log}
use series_factory.Integrity.File.Clean.{append_empty, flags_empty, NoErrors, each_record-NoErrors}
use series_factory.Integrity.Bar.{
  Real, Bar, BarProblem, not_kline, off_grid, non_finite, ohlc_finite, ohlc_tests, price_tests,
}
use series_factory.Integrity.S10.Sane.{Unmet, Finite, Ordered, InRange}
use series_factory.Integrity.S10.{
  S10State, s10_start, kline, spacing_tests, missing_before, micro_tests, s10_errors, check_s10_row,
  check_s10,
}

All-split : (xs ys : List (Bool × BarProblem)) → Unmet (xs ++ ys) ↔ (Unmet xs × Unmet ys)
All-split [] ys = (λ h. (tt, h), λ h. h.1)
All-split (x ∷ xs) ys =
    let ih = All-split xs ys in
    (λ h. let r = ih.0 h.1 in ((h.0, r.0), r.1), λ h. (h.0.0, ih.1 (h.0.1, h.1)))

module _ {F : Type 0} (fl : Real F) (bucket_ms : ℕ) where
  -- What the tests of a row leave of a bar.
  abbrev pub Passes : Bar F → Type 0
  Passes bar =
      (bar.kind ≡ 0)
      × (bar.open_time_ms ≤ bar.close_time_ms)
      × (ohlc_finite fl bar ≡ true)
      × Unmet (price_tests fl bar)
      × (bar.open_time_ms % bucket_ms ≡ 0)
      × Unmet (micro_tests fl bucket_ms bar)

  -- A kline of finite, ordered prices that opens on the grid, with its other figures in range.
  abbrev pub IsSaneBar : Bar F → Type 0
  IsSaneBar bar =
      (bar.kind ≡ 0)
      × (bar.open_time_ms ≤ bar.close_time_ms)
      × Finite fl bar
      × Ordered fl bar
      × (bar.open_time_ms % bucket_ms ≡ 0)
      × InRange fl bar

  -- Some buckets behind the row before, one at least.
  abbrev pub After : Option ℕ → ℕ → Type 0
  After none ts = Unit {0}
  After (some prev) ts = (g : ℕ) × (ts ≡ prev + (g + 1) * bucket_ms)

  abbrev pub IsSpaced : (Bar F → Type 0) → Option ℕ → List (Bar F) → Type 0
  IsSpaced P prev [] = Unit {0}
  IsSpaced P prev (bar ∷ bars) =
      P bar × After prev bar.close_time_ms × IsSpaced P (some bar.close_time_ms) bars

  abbrev pub IsSpacedFile : Content (Bar F) → Type 0
  IsSpacedFile (torn n) = 1 ≤ 0
  IsSpacedFile (whole bars) = IsSpaced IsSaneBar none bars

  abbrev pub PassesFile : Content (Bar F) → Type 0
  PassesFile (torn n) = 1 ≤ 0
  PassesFile (whole bars) = IsSpaced Passes none bars

  module _ (positive : 0 < bucket_ms) where
    multiple : (d : ℕ) → 0 < d → d % bucket_ms ≡ 0 → d ≡ (d / bucket_ms - 1 + 1) * bucket_ms
    multiple d h e = grind arith

    multiple_mod : (g : ℕ) → ((g + 1) * bucket_ms) % bucket_ms ≡ 0
    multiple_mod g = grind arith

    multiple_div : (g : ℕ) → ((g + 1) * bucket_ms) / bucket_ms ≡ g + 1
    multiple_div g = grind arith

    spacing_facts :
        (prev ts : ℕ)
        → Unmet (spacing_tests fl bucket_ms (some prev) ts)
        → (prev ≤ ts) × (0 < ts - prev) × ((ts - prev) % bucket_ms ≡ 0)
    spacing_facts prev ts h = ground (arith, mod_self bucket_ms)

    spacing_of :
        (prev ts : ℕ)
        → prev < ts
        → (ts - prev) % bucket_ms ≡ 0
        → Unmet (spacing_tests fl bucket_ms (some prev) ts)
    spacing_of prev ts h e = ground arith

    far : (prev ts g : ℕ) → ts ≡ prev + (g + 1) * bucket_ms → prev < ts
    far prev ts g e = grind arith

    spacing_tests_iff :
        (prev : Option ℕ) (ts : ℕ) → Unmet (spacing_tests fl bucket_ms prev ts) ↔ After prev ts
    spacing_tests_iff none ts = (λ h. tt, λ h. tt)
    spacing_tests_iff (some prev) ts = (
      λ h.
          let f = spacing_facts prev ts h in
          ((ts - prev) / bucket_ms - 1, omega (arith, multiple (ts - prev) f.1 f.2)),
      λ h.
          let e : ts - prev ≡ (h.0 + 1) * bucket_ms = omega (arith, h.1) in
          spacing_of prev ts (far prev ts h.0 h.1) (rw e (multiple_mod h.0)),
    )

    missing_of :
        (prev ts g : ℕ)
        → prev < ts
        → (ts - prev) % bucket_ms ≡ 0
        → (ts - prev) / bucket_ms ≡ g + 1
        → missing_before fl bucket_ms (some prev) ts ≡ g
    missing_of prev ts g h e d = ground (arith, multiple_div 0, multiple_mod 0)

    pub missing_lem :
        (prev ts : ℕ) (h : After (some prev) ts) → missing_before fl bucket_ms (some prev) ts ≡ h.0
    missing_lem prev ts h =
        let e : ts - prev ≡ (h.0 + 1) * bucket_ms = omega (arith, h.1) in
        missing_of prev ts h.0 (far prev ts h.0 h.1) (rw e (multiple_mod h.0))
          (rw e (multiple_div h.0))

    finite_iff :
        (b : Bool) (tests : List (Bool × BarProblem))
        → Unmet (if b then tests else (true, non_finite) ∷ []) ↔ ((b ≡ true) × Unmet tests)
    finite_iff true tests = (λ h. (refl, h), λ h. h.1)
    finite_iff false tests = (λ h. cc h.0, λ h. cc h.0)

    absurd_of : {A : Type 0} → false ≡ true → A
    absurd_of h = cc h

    where_finite :
        (b : Bool) (tests : List (Bool × BarProblem))
        → b ≡ true
        → Unmet (if b then tests else []) ↔ Unmet tests
    where_finite true tests h = (λ u. u, λ u. u)
    where_finite false tests h = (λ u. absurd_of h, λ u. absurd_of h)

    row_iff :
        (prev : Option ℕ) (bar : Bar F)
        → Unmet (s10_errors fl bucket_ms prev bar) ↔ (Passes bar × After prev bar.close_time_ms)
    row_iff prev bar =
        let micro = micro_tests fl bucket_ms bar in
        let space = spacing_tests fl bucket_ms prev bar.close_time_ms in
        let prices = finite_iff (ohlc_finite fl bar) (price_tests fl bar) in
        let spaced = spacing_tests_iff prev bar.close_time_ms in
        let split = All-split ((not (bar.kind == kline), not_kline) ∷ ohlc_tests fl bar) (
          (ltb 0 bucket_ms && not (bar.open_time_ms % bucket_ms == 0), off_grid)
          ∷ (if ohlc_finite fl bar then micro ++ space else [])) in
        (
          λ h.
              let (front, back) = split.0 h in
              let p = prices.0 front.1.1 in
              let rest =
                (All-split micro space).0
                  ((where_finite (ohlc_finite fl bar) (micro ++ space) p.0).0 back.1) in
              (
                (
                  is_kline bar.kind front.0,
                  in_order bar.open_time_ms bar.close_time_ms front.1.0,
                  p.0,
                  p.1,
                  on_grid bar.open_time_ms back.0,
                  rest.0,
                ),
                spaced.0 rest.1,
              ),
          λ h.
              let b = h.0 in
              split.1 (
                (ground arith, (ground arith, prices.1 (b.2, b.3))),
                (
                  ground arith,
                  (where_finite (ohlc_finite fl bar) (micro ++ space) b.2).1
                      ((All-split micro space).1 (b.5, spaced.1 h.1)),
                ),
              ),
        )
      where
        is_kline : (k : ℕ) → not (k == kline) ≡ false → k ≡ 0
        is_kline k h = ground arith

        in_order : (a b : ℕ) → ltb b a ≡ false → a ≤ b
        in_order a b h = ground arith

        on_grid :
            (t : ℕ) → (ltb 0 bucket_ms && not (t % bucket_ms == 0)) ≡ false → t % bucket_ms ≡ 0
        on_grid t h = ground arith

    rows_iff :
        (bars : List (Bar F)) (s : S10State) (i : ℕ)
        → NoErrors (check_s10_row fl bucket_ms) s i bars ↔ IsSpaced Passes s.prev_close_ts_ms bars
    unfolding check_s10_row
    rows_iff [] s i = (λ h. tt, λ h. tt)
    rows_iff (bar ∷ bars) s i =
        let s' = (check_s10_row fl bucket_ms s i bar).0 in
        let ih = rows_iff bars s' (suc i) in
        let f = flags_empty i (s10_errors fl bucket_ms s.prev_close_ts_ms bar) in
        let row = row_iff s.prev_close_ts_ms bar in
        (
          λ h. let r = row.0 (f.0 h.0) in (r.0, r.1, ih.0 h.1),
          λ h. (f.1 (row.1 (h.0, h.1)), ih.1 h.2),
        )

    pub check_s10-PassesFile :
        (file : Content (Bar F))
        → ((check_s10 fl bucket_ms false file).log.errors ≡ []) ↔ PassesFile file
    unfolding check_s10
    check_s10-PassesFile (torn n) = (λ h. cc h, λ h. absurd (omega arith))
    check_s10-PassesFile (whole []) = (λ h. tt, λ h. refl)
    check_s10-PassesFile (whole (bar ∷ bars)) =
        let all =
          each_record-NoErrors (check_s10_row fl bucket_ms) (bar ∷ bars) s10_start 0 no_log in
        let rows = rows_iff (bar ∷ bars) s10_start 0 in
        (
          λ h. rows.0 (all.0 ((append_empty _ []).0 h).0).1,
          λ h. (append_empty _ []).1 (all.1 (refl, rows.1 h), refl),
        )
