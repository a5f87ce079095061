-- ===== src/Tests/Bars.antt =====
-- The theorem about src/bar_construction/calibrate.rs at a concrete input: four days with two bricks a tick, but
-- for a day with none.
use series_factory.Prelude.{ℕ, ◌*◌, ◌+◌, ◌≡◌, some, List, [], ◌∷◌, arith}
use series_factory.Bars.Daily.{Generator, count_bars_per_day_from_prices}
use series_factory.Bars.Daily.Scan.{scan_stats, count_bars_per_day-scan}

abbrev two_bricks : Generator ℕ ℕ
two_bricks = record {
  new_generator = some 0;
  feed_tick_with_sigma = λ g ts mid sigma. (2, g + 1);
  find_index_for_ts = λ ts. 0;
  sigma_fallback = 1;
  zero_f = 0;
  median_of = λ ns. 2;
}

abbrev day : ℕ
day = 86400000

abbrev prices : List (ℕ × ℕ)
prices = (5, 9) ∷ (day, 9) ∷ (2 * day, 9) ∷ (4 * day, 9) ∷ (9 * day, 9) ∷ []

count_bars_per_day-scan_example :
    count_bars_per_day_from_prices two_bricks [] day (5 * day) prices
    ≡ scan_stats two_bricks [] day (5 * day) (some 0) prices
count_bars_per_day-scan_example =
    count_bars_per_day-scan two_bricks [] day (5 * day) prices (omega arith)
