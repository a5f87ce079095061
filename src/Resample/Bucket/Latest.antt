-- ===== src/Resample/Bucket/Latest.antt =====
-- What `resample_last_in_bucket` of src/bin/resample_idx.rs keeps of each bin.
use series_factory.Prelude.{ℕ, Option, some, none, List, [], ◌∷◌, ◌==◌, filter, last?}
use series_factory.Mitch.{IndexRecord, Wire, IsWire}
use series_factory.Resample.Bucket.{bin_start, ts_of, stamp}
use series_factory.Resample.Bucket.Runs.{OnGrid, bin_of}

module _ {H F : Type 0} (w : Wire H) where
  -- The stamped latest record of the bin at `b`, or nothing for a bin with no record.
  abbrev pub stamped : ℕ → Option (IndexRecord H F) → List (IndexRecord H F)
  stamped b none = []
  stamped b (some r) = stamp w r b ∷ []

  abbrev pub latest : ℕ → ℕ → List (IndexRecord H F) → List (IndexRecord H F)
  latest target_ms b records =
      stamped b (last? (filter (λ r. bin_start (ts_of w r) target_ms == b) records))

  -- The output rows at time `b`.
  abbrev pub at_time : ℕ → List (IndexRecord H F) → List (IndexRecord H F)
  at_time b records = filter (λ r. ts_of w r == b) records

module _ {H F : Type 0} (w : Wire H) (laws : IsWire w) (target_ms : ℕ)
    (grid : OnGrid laws target_ms) where
  abbrev start : IndexRecord H F → ℕ
  start r = bin_of w laws target_ms grid r
