-- ===== src/Resample/Bucket/Again.antt =====
-- A second pass of `resample_last_in_bucket` over its own output.
use series_factory.Prelude.{ℕ}
use series_factory.Mitch.{IndexRecord, Wire, IsWire}
use series_factory.Resample.Bucket.Runs.{OnGrid, bin_of}
use series_factory.Resample.Bucket.Rows.{IsRow}

module _ {H F : Type 0} (w : Wire H) (laws : IsWire w) (target_ms : ℕ)
    (grid : OnGrid laws target_ms) where
  abbrev start : IndexRecord H F → ℕ
  start r = bin_of w laws target_ms grid r

  abbrev Settled : IndexRecord H F → Type 0
  Settled y = IsRow w laws target_ms grid y
