-- ===== src/Resample/Shard/Complete.antt =====
-- A run of `resample_shard` that nothing stops.
use series_factory.Prelude.{ℕ, ◌≡◌, none, some, List}
use series_factory.Mitch.{IndexRecord, Wire}
use series_factory.Files.{Files, write, ShardIo, IsShardIo}
use series_factory.Resample.Shard.{Args, ShardRef}
use series_factory.Resample.Shard.Commit.{bak, new}

module _ {H F : Type 0} (w : Wire H) {io : ShardIo (IndexRecord H F)} (laws : IsShardIo io)
    (median : List ℕ → ℕ) (sh : ShardRef) (args : Args) (idx : sh.path.suffix ≡ "idx") where
  abbrev Rec : Type 0
  Rec = IndexRecord H F

  -- The files after the write and both renames.
  abbrev pub swapped : List Rec → List Rec → Files Rec → Files Rec
  swapped original resampled files = write sh.path (some resampled) (
      write (new sh.path) none (
        write (bak sh.path) (some original)
          (write sh.path none (write (new sh.path) (some resampled) files))))
