-- ===== src/Integrity/S10/Sane.antt =====
-- The bars that the tests of one row of `check_s10` in src/bin/integrity_check.rs let pass.
use series_factory.Prelude.{
  ℕ, ◌≡◌, ◌↔◌, ◌⊎◌, inl, inr, refl, ◌∙◌, ap, Bool, true, false, ◌&&◌, ◌||◌, List, All,
}
use series_factory.Integrity.Bar.{Real, Bar, BarProblem, ohlc_finite, price_tests}
use series_factory.Integrity.S10.{micro_tests}

abbrev pub Unmet : List (Bool × BarProblem) → Type 0
Unmet = All (λ (t : Bool × BarProblem). t.0 ≡ false)

-- `f64::max` and `f64::min` of finite numbers are the larger and the smaller of them.
pub record IsReal {F : Type 0} (fl : Real F) : Type 0 where
  pub lt-fmax :
      (x y z : F)
      → fl.is_finite y ≡ true
      → fl.is_finite z ≡ true
      → fl.lt x (fl.fmax y z) ≡ (fl.lt x y || fl.lt x z)
  pub lt-fmin :
      (x y z : F)
      → fl.is_finite y ≡ true
      → fl.is_finite z ≡ true
      → fl.lt (fl.fmin y z) x ≡ (fl.lt y x || fl.lt z x)
  pub fmax_finite :
      (y z : F) → fl.is_finite y ≡ true → fl.is_finite z ≡ true → fl.is_finite (fl.fmax y z) ≡ true
  pub fmin_finite :
      (y z : F) → fl.is_finite y ≡ true → fl.is_finite z ≡ true → fl.is_finite (fl.fmin y z) ≡ true

module _ {F : Type 0} (fl : Real F) where
  abbrev pub Finite : Bar F → Type 0
  Finite bar =
      (fl.is_finite bar.open_price ≡ true)
      × (fl.is_finite bar.high ≡ true)
      × (fl.is_finite bar.low ≡ true)
      × (fl.is_finite bar.close ≡ true)

  -- No price is above the high nor below the low.
  abbrev pub Ordered : Bar F → Type 0
  Ordered bar =
      (fl.lt bar.high bar.open_price ≡ false)
      × (fl.lt bar.high bar.close ≡ false)
      × (fl.lt bar.high bar.low ≡ false)
      × (fl.lt bar.open_price bar.low ≡ false)
      × (fl.lt bar.close bar.low ≡ false)

  -- A figure is not a finite number, or the test fails.
  abbrev pub Unless : F → Bool → Type 0
  Unless x bad = (fl.is_finite x ≡ false) ⊎ (bad ≡ false)

  -- No variance is below zero; and of the other figures, where they are finite numbers, the imbalance is at most
  -- one and a bit in size, and the spread and the return are not below zero.
  abbrev pub InRange : Bar F → Type 0
  InRange bar =
      (fl.lt bar.realized_var (fl.of_ℕ 0) ≡ false)
      × (fl.lt bar.bipower_var (fl.of_ℕ 0) ≡ false)
      × Unless bar.vol_imbalance (fl.lt fl.one_and_slack (fl.abs bar.vol_imbalance))
      × Unless bar.avg_spread_bps (fl.lt bar.avg_spread_bps (fl.of_ℕ 0))
      × Unless bar.max_abs_return (fl.lt bar.max_abs_return (fl.of_ℕ 0))

or_false : (a b : Bool) → ((a || b) ≡ false) ↔ ((a ≡ false) × (b ≡ false))
or_false true b = (λ h. cc h, λ h. cc h.0)
or_false false b = (λ h. (refl, h), λ h. h.1)

and_false : (a b : Bool) → ((a && b) ≡ false) ↔ ((a ≡ false) ⊎ (b ≡ false))
and_false true b = (λ h. inr h, λ h. elim h [ inl e ↦ cc e | inr e ↦ e ])
and_false false b = (λ h. inl refl, λ h. refl)

and_true : (a b : Bool) → ((a && b) ≡ true) ↔ ((a ≡ true) × (b ≡ true))
and_true true b = (λ h. (refl, h), λ h. h.1)
and_true false b = (λ h. cc h, λ h. cc h.0)

three :
    (a b c d : Bool) → d ≡ ((a || b) || c) → (d ≡ false) ↔ ((a ≡ false) × (b ≡ false) × (c ≡ false))
three a b c d e = (
  λ h.
      let p = (or_false (a || b) c).0 (cc (h, e)) in
      let q = (or_false a b).0 p.0 in (q.0, q.1, p.1),
  λ h. e ∙ (or_false (a || b) c).1 ((or_false a b).1 (h.0, h.1), h.2),
)

module _ {F : Type 0} (fl : Real F) where
  pub ohlc_finite_iff : (bar : Bar F) → (ohlc_finite fl bar ≡ true) ↔ Finite fl bar
  ohlc_finite_iff bar = (
    λ h.
        let a = (and_true _ _).0 h in
        let b = (and_true _ _).0 a.1 in let c = (and_true _ _).0 b.1 in (a.0, b.0, c.0, c.1),
    λ h. (and_true _ _).1 (h.0, (and_true _ _).1 (h.1, (and_true _ _).1 (h.2, h.3))),
  )

  pub tests_iff :
      IsReal fl
      → (bucket_ms : ℕ) (bar : Bar F) → Finite fl bar
      → (Unmet (price_tests fl bar) × Unmet (micro_tests fl bucket_ms bar))
        ↔ (Ordered fl bar × InRange fl bar)
  tests_iff laws bucket_ms bar f =
      let o = bar.open_price in
      let h = bar.high in
      let l = bar.low in
      let c = bar.close in
      let high = three (fl.lt h o) (fl.lt h c) (fl.lt h l) (fl.lt h (fl.fmax (fl.fmax o c) l)) (
        laws.lt-fmax h (fl.fmax o c) l (laws.fmax_finite o c f.0 f.3) f.2
        ∙ ap (λ b. b || fl.lt h l) (laws.lt-fmax h o c f.0 f.3)) in
      let low = three (fl.lt o l) (fl.lt c l) (fl.lt h l) (fl.lt (fl.fmin (fl.fmin o c) h) l) (
        laws.lt-fmin l (fl.fmin o c) h (laws.fmin_finite o c f.0 f.3) f.1
        ∙ ap (λ b. b || fl.lt h l) (laws.lt-fmin l o c f.0 f.3)) in
      (
        λ u.
            let a = high.0 u.0.0 in
            let b = low.0 u.0.1.0 in
            (
              (a.0, a.1, a.2, b.0, b.1),
              (
                u.0.1.1.0,
                u.0.1.1.1.0,
                (and_false _ _).0 u.1.0,
                (and_false _ _).0 u.1.1.0,
                (and_false _ _).0 u.1.1.1.0,
              ),
            ),
        λ s.
            let (a, r) = s in
            (
              (high.1 (a.0, a.1, a.2), (low.1 (a.3, a.4, a.2), (r.0, (r.1, tt)))),
              ((and_false _ _).1 r.2, ((and_false _ _).1 r.3, ((and_false _ _).1 r.4, tt))),
            ),
      )
