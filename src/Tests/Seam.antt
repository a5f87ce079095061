-- ===== src/Tests/Seam.antt =====
-- The s10 check at a concrete boundary: a bucket is missing.
use series_factory.Prelude.{◌≡◌, refl, not, ◌==◌, arith}
use series_factory.Prelude.Int.{pos}
use series_factory.Seam.{check_s10_cross_shard_bars}
use series_factory.Seam.Grid.{check_s10_cross_shard_bars-grid}

check_s10_cross_shard_bars-grid_example :
    (check_s10_cross_shard_bars (pos 10000) (λ z. z) (λ b. b) (pos 9999) (pos 29998)).violated
    ≡ not (2 == 1)
check_s10_cross_shard_bars-grid_example =
    check_s10_cross_shard_bars-grid 10000 (λ z. z) (λ b. b) (omega arith) (pos 9999) (pos 29998)
      9999 2 (9999, refl, omega arith, omega arith) (29998, refl, omega arith, omega arith)
