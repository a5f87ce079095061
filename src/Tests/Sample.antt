-- ===== src/Tests/Sample.antt =====
-- A header, a clock and file calls that meet the laws of `Mitch` and `Files`.
use series_factory.Prelude.{
  ℕ, zero, suc, ◌+◌, ◌-◌, ◌*◌, ◌/◌, ◌%◌, ◌^◌, ◌≡◌, refl, none, some, List, Option, arith, false,
}
use series_factory.Mitch.{IndexRecord, Wire, IsWire}
use series_factory.Files.{
  FilePath, Files, write, Io, done, fault, spend, same_path, ShardIo, IsShardIo, not_found,
}
use series_factory.Resample.Bucket.Runs.{OnGrid}
use series_factory.Files.Laws.{write_self, write_ne}

pub record Header : Type 0 where
  pub ty : ℕ
  pub provider : ℕ
  pub mts : ℕ
  pub updates : ℕ
  pub sequence : ℕ

abbrev pub wire : Wire Header
wire = record {
  header_new = λ m p t c. record { ty = m; provider = p; mts = t; updates = c; sequence = 0 };
  message_type = λ h. h.ty;
  provider_id = λ h. h.provider;
  get_timestamp = λ h. h.mts % 2 ^ 48;
  count = λ h. h.updates;
  set_timestamp = λ h t. record h { mts = t };
  set_sequence = λ h s. record h { sequence = s };
  to_epoch_ms = λ t. 1262304000000 + t * 16 / 1000;
  from_epoch_ms = λ ms. (ms - 1262304000000) * 1000 / 16;
  type_index = 4;
  flag_idx_healed = 0x10;
  flag_conf_freshness = 0x20;
  flag_conf_active = 0x40;
  flag_historical_backfill = 0x01;
  flag_no_book = 0x08;
}

pub wire_laws : IsWire wire
wire_laws = record {
  epoch_ms = 1262304000000;
  epoch_even = refl;
  epoch-le = λ t. omega arith;
  to-from = λ ms h e. omega arith;
  from-to-le = λ t. omega arith;
  from_mono = λ a b h. omega arith;
  timestamp_fits = λ h. omega arith;
  get-set_timestamp = λ h t lt. omega arith;
  set-set_timestamp = λ h s t. refl;
  type-set_timestamp = λ h t. refl;
  timestamp-new = λ m p t c lt. omega arith;
  timestamp-set_sequence = λ h s. refl;
  healed_set = omega arith;
  healed_apart_freshness = refl;
  healed_apart_active = refl;
}

pub grid : OnGrid wire_laws 200
unfolding wire_laws
grid = record { positive = omega arith; even = refl; origin = refl }

abbrev content_of : {R : Type 0} → Option (List R) → Files R → Io (List R) × Files R
content_of none files = (fault not_found, files)
content_of (some content) files = (done content, files)

abbrev pub shard_io : {R : Type 0} → ShardIo R
shard_io = record {
  read_shard_aligned = λ p d. spend d.budget (λ files. content_of (files p) files) d.files;
  write_atomic = λ p rs d. spend d.budget (λ files. (done tt, write p (some rs) files)) d.files;
}

module _ {R : Type 0} where
  keeps :
      (p : FilePath) (n : ℕ) (files : Files R)
      → (shard_io.read_shard_aligned p (record { files = files; budget = n })).1.files ≡ files
  keeps p n files = ground arith

  reads :
      (p : FilePath) (n : ℕ) (files : Files R) (rs : List R)
      → (shard_io.read_shard_aligned p (record { files = files; budget = n })).0 ≡ done rs
      → files p ≡ some rs
  reads p n files rs h = ground arith

  others :
      (p q : FilePath) (rs : List R) (n : ℕ) (files : Files R)
      → same_path p q ≡ false
      → (shard_io.write_atomic p rs (record { files = files; budget = n })).1.files q ≡ files q
  others p q rs zero files h = refl
  others p q rs (suc n) files h = write_ne p q (some rs) files h

  writes :
      (p : FilePath) (rs : List R) (n : ℕ) (files : Files R)
      → (shard_io.write_atomic p rs (record { files = files; budget = n })).0 ≡ done tt
      → (shard_io.write_atomic p rs (record { files = files; budget = n })).1.files p ≡ some rs
  writes p rs zero files h = cc
  writes p rs (suc n) files h = write_self p (some rs) files

  pub shard_io_laws : IsShardIo (shard_io {R = R})
  shard_io_laws = record {
    files-read = λ p d. keeps p d.budget d.files;
    read_done = λ p d rs h. reads p d.budget d.files rs h;
    read_total = λ p files n rs h. rw h;
    write_other = λ p q rs d h. others p q rs d.budget d.files h;
    write_done = λ p rs d h. writes p rs d.budget d.files h;
    write_total = λ p files n rs. refl;
  }

-- A record of ticker 7 at 16 µs tick `mts`, with whole-number prices.
abbrev pub tick : ℕ → ℕ → IndexRecord Header ℕ
tick mts price = record {
  header = record { ty = 4; provider = 1; mts = mts; updates = 1; sequence = 9 };
  index = record {
    ticker = 7;
    bid = price;
    ask = price + 1;
    vbid = 2;
    vask = 3;
    ci = 100;
    tick_count = 1;
    confidence = 5;
    accepted = 1;
    rejected = 0;
    flags = 0x02;
  };
}
