-- ===== src/Resample/Bucket.antt =====
-- `bin_start`, `resample_last_in_bucket` and `stamp` of src/bin/resample_idx.rs.
pub mod Runs
pub mod Latest
pub mod Rows
pub mod Again
use series_factory.Prelude.{
  ℕ, ◌*◌, ◌/◌, bit_or, Bool, false, Option, none, some, List, [], ◌∷◌, ◌++◌, ◌==◌, if◌then◌else◌,
}
use series_factory.Mitch.{IndexRecord, Wire}

-- `i64` division of a timestamp that is not negative.
unfoldable pub bin_start : ℕ → ℕ → ℕ
bin_start ts_ms target_ms = ts_ms / target_ms * target_ms

-- *out.last_mut().unwrap() = v
abbrev pub set_last {ℓ} : {A : Type ℓ} → List A → A → List A
set_last [] v = []
set_last (x ∷ []) v = v ∷ []
set_last (x ∷ y ∷ xs) v = x ∷ set_last (y ∷ xs) v

-- `Some(b) if b == bin`
abbrev pub same_bin : Option ℕ → ℕ → Bool
same_bin none bin = false
same_bin (some b) bin = b == bin

module _ {H F : Type 0} (w : Wire H) where
  -- to_epoch_ms(r.header.get_timestamp())
  abbrev pub ts_of : IndexRecord H F → ℕ
  ts_of r = w.to_epoch_ms (w.get_timestamp r.header)

  unfoldable pub stamp : IndexRecord H F → ℕ → IndexRecord H F
  stamp r bin_ms = record r {
    header = w.set_timestamp r.header (w.from_epoch_ms bin_ms);
    index = record r.index { flags = bit_or r.index.flags w.flag_idx_healed };
  }

  -- The loop, over `out` and `cur_bin`. Both arms leave `cur_bin` at the record's bin.
  bucket_loop :
      ℕ → List (IndexRecord H F) → Option ℕ → List (IndexRecord H F) → List (IndexRecord H F)
  bucket_loop target_ms out cur_bin [] = out
  bucket_loop target_ms out cur_bin (r ∷ records) =
      let bin = bin_start (ts_of r) target_ms in
      bucket_loop target_ms
        (if same_bin cur_bin bin then set_last out (stamp r bin) else out ++ stamp r bin ∷ [])
        (some bin) records

  unfoldable pub resample_last_in_bucket : List (IndexRecord H F) → ℕ → List (IndexRecord H F)
  unfolding bucket_loop
  resample_last_in_bucket records target_ms = bucket_loop target_ms [] none records
