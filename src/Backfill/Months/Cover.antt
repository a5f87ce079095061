-- ===== src/Backfill/Months/Cover.antt =====
-- How the windows of `month_windows` of src/bin/backfill_all.rs cover the range.
use series_factory.Prelude.{
  ℕ, zero, suc, ◌+◌, ◌-◌, ◌≤◌, ◌<◌, ◌≡◌, refl, sym, subst, true, min, max, List, [], ◌∷◌, arith,
  leb, ◌==◌, Bool-cases, inl, inr,
}
use series_factory.Backfill.Months.{Dates, IsDates, next_month_start, windows_from, month_windows}

module _ (c : Dates) where
  abbrev pub SameMonth : ℕ → ℕ → Type 0
  SameMonth d e = (c.year e ≡ c.year d) × (c.month e ≡ c.month d)

  -- Windows from `from` to `to`: each starts the day behind the one before it, ends within the month in which
  -- it starts, and the last ends with `to`.
  abbrev pub Cover : ℕ → ℕ → List (ℕ × ℕ) → Type 0
  Cover from to [] = to < from
  Cover from to ((first, last) ∷ rest) =
      (first ≡ from)
      × (first ≤ last)
      × (last ≤ to)
      × SameMonth first last
      × Cover (suc last) to rest

  module _ (laws : IsDates c) where
    next_month_start-lt : (d : ℕ) → d < next_month_start c d
    unfolding next_month_start
    next_month_start-lt d = ground (arith, laws.before_next d, laws.before_year d)

    SameMonth-window : (d e : ℕ) → d ≤ e → e < next_month_start c d → SameMonth d e
    unfolding next_month_start
    SameMonth-window d e h k = elim (Bool-cases (c.month d == 12)) [
      | inl last ↦ laws.same_december d e last h (ground arith)
      | inr other ↦ laws.same_month d e other h (ground arith)
    ]

    -- A window that ends with the range ends the windows too.
    Cover-end : (fuel next to : ℕ) → to < next → windows_from c fuel next to ≡ []
    Cover-end zero next to h = refl
    Cover-end (suc fuel) next to h = ground arith

    Cover-windows : (fuel cur to : ℕ) → to < cur + fuel → Cover cur to (windows_from c fuel cur to)
    Cover-windows zero cur to h = omega arith
    Cover-windows (suc fuel) cur to h = elim (Bool-cases (leb cur to)) [
      | inl more ↦ rw more (
        refl,
        inside more,
        omega arith,
        SameMonth-window cur _ (inside more) (omega (arith, next_month_start-lt cur)),
        behind (
            Cover-windows fuel (next_month_start c cur) to
              (omega (arith, h, next_month_start-lt cur))),
      )
      | inr done ↦ rw done (ground arith)
    ]
      where
        inside : leb cur to ≡ true → cur ≤ min (next_month_start c cur - 1) to
        inside more = ground (arith, next_month_start-lt cur)

        behind :
            Cover (next_month_start c cur) to (windows_from c fuel (next_month_start c cur) to)
            → Cover
                (suc (min (next_month_start c cur - 1) to))
                to
                (windows_from c fuel (next_month_start c cur) to)
        behind ih = elim (Bool-cases (leb (next_month_start c cur) to)) [
          | inl inner ↦
              subst (λ d. Cover d to (windows_from c fuel (next_month_start c cur) to))
                (reached inner) ih
          | inr over ↦
              subst (Cover (suc (min (next_month_start c cur - 1) to)) to)
                (sym (Cover-end fuel (next_month_start c cur) to (ground arith))) (ground arith)
        ]
          where
            reached :
                leb (next_month_start c cur) to ≡ true
                → next_month_start c cur ≡ suc (min (next_month_start c cur - 1) to)
            reached inner = ground (arith, next_month_start-lt cur)

    -- Where months are those of a calendar, the windows cover the days from `from` to `to`, in order, with no gap and no overlap, and each lies
    -- within one month.
    pub month_windows-Cover : (from to : ℕ) → Cover from to (month_windows c from to)
    unfolding month_windows
    month_windows-Cover from to =
        subst (λ d. Cover from to (windows_from c (to + 1 - from) d to)) first
          (Cover-windows (to + 1 - from) from to (omega arith))
      where
        first : from ≡ max (c.month_start (c.year from) (c.month from)) from
        first = omega (arith, laws.start-le from)
