-- ===== src/Backfill/Months.antt =====
-- `next_month_start` and `month_windows` of src/bin/backfill_all.rs. A date of the `chrono` crate is a day
-- number.
pub mod Cover
use series_factory.Prelude.{
  ℕ, zero, suc, ◌+◌, ◌-◌, ◌≤◌, ◌<◌, ◌≡◌, true, false, min, max, List, [], ◌∷◌, leb, ◌==◌,
  if◌then◌else◌,
}

pub record Dates : Type 0 where
  pub year : ℕ → ℕ
  pub month : ℕ → ℕ
  -- from_ymd_opt(y, m, 1)
  pub month_start : ℕ → ℕ → ℕ

-- A day is in the month that starts by it, and before the start of the next one.
pub record IsDates (c : Dates) : Type 0 where
  pub start-le : (d : ℕ) → c.month_start (c.year d) (c.month d) ≤ d
  pub before_next :
      (d : ℕ) → (c.month d == 12) ≡ false → d < c.month_start (c.year d) (c.month d + 1)
  pub before_year : (d : ℕ) → (c.month d == 12) ≡ true → d < c.month_start (c.year d + 1) 1
  -- A day behind another, before the start of the next month, is in the same month.
  pub same_month :
      (d e : ℕ)
      → (c.month d == 12) ≡ false
      → d ≤ e
      → e < c.month_start (c.year d) (c.month d + 1)
      → (c.year e ≡ c.year d) × (c.month e ≡ c.month d)
  pub same_december :
      (d e : ℕ)
      → (c.month d == 12) ≡ true
      → d ≤ e
      → e < c.month_start (c.year d + 1) 1
      → (c.year e ≡ c.year d) × (c.month e ≡ c.month d)

module _ (c : Dates) where
  unfoldable pub next_month_start : ℕ → ℕ
  next_month_start d =
      if c.month d == 12
      then c.month_start (c.year d + 1) 1
      else c.month_start (c.year d) (c.month d + 1)

  abbrev pub windows_from : ℕ → ℕ → ℕ → List (ℕ × ℕ)
  windows_from zero cur to = []
  windows_from (suc fuel) cur to =
      let rest = windows_from fuel (next_month_start cur) to in
      if leb cur to then (cur, min (next_month_start cur - 1) to) ∷ rest else []

  -- A window has a day at least, so the loop has a round for every day of the range.
  unfoldable pub month_windows : ℕ → ℕ → List (ℕ × ℕ)
  unfolding next_month_start
  month_windows from to =
      windows_from (to + 1 - from) (max (c.month_start (c.year from) (c.month from)) from) to
