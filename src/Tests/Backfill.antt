-- ===== src/Tests/Backfill.antt =====
-- The theorems about src/bin/backfill_all.rs at concrete inputs: months of 30 days.
use series_factory.Prelude.{ℕ, ◌+◌, ◌-◌, ◌*◌, ◌/◌, ◌%◌, ◌≡◌, refl, arith, ==_iff}
use series_factory.Backfill.Gate.{
  HeavySemaphore, new, acquire, release, start, later, enters, leaves,
}
use series_factory.Backfill.Gate.Reached.{Sound, Reach-Sound}
use series_factory.Backfill.Months.{Dates, IsDates, month_windows}
use series_factory.Backfill.Months.Cover.{Cover, month_windows-Cover}

-- One permit; a second thread sleeps until it is given back.
abbrev given_back : HeavySemaphore
given_back = release (acquire (acquire (new 0)))

Reach-Sound_example : Sound 0 given_back
unfolding new acquire release
Reach-Sound_example =
    Reach-Sound 0 given_back
      (later (later (later (start refl) (enters refl)) (enters refl)) (leaves refl refl))

abbrev months : Dates
months = record {
  year = λ d. d / 360;
  month = λ d. d % 360 / 30 + 1;
  month_start = λ y m. y * 360 + (m - 1) * 30;
}

-- The month of a day by its number among all.
whole_months :
    (e d : ℕ) → e / 30 ≡ d / 30 → (e / 360 ≡ d / 360) × (e % 360 / 30 + 1 ≡ d % 360 / 30 + 1)
whole_months e d h = omega arith

dates : IsDates months
dates = record {
  start-le = λ d. omega arith;
  before_next = λ d h. omega arith;
  before_year = λ d h. omega (arith, (==_iff (months.month d) 12).0 h);
  same_month = λ d e h k l. whole_months e d (omega (arith, k, l));
  same_december =
      λ d e h k l. whole_months e d (omega (arith, k, l, (==_iff (months.month d) 12).0 h));
}

month_windows-Cover_example : Cover months 15 75 (month_windows months 15 75)
month_windows-Cover_example = month_windows-Cover months dates 15 75
