-- ===== src/Mitch.antt =====
-- What the repository takes from the `mitch` and `nxr_sdk` crates, as parameters: the header of a
-- wire record with its accessors, the clock of the wire format, and the marker bits.
-- `Index` and `IndexRecord` have the fields that the struct literals of src/idx_heal.rs and
-- src/bin/merge_idx.rs give them. `H` is the type of headers, `F` the type of f64 values.
use series_factory.Prelude.{ℕ, ◌%◌, ◌^◌, ◌≤◌, ◌<◌, ◌≡◌, ◌≢◌, bit_and}

pub record Index (F : Type 0) : Type 0 where
  pub ticker : ℕ
  pub bid : F
  pub ask : F
  pub vbid : ℕ
  pub vask : ℕ
  pub ci : ℕ
  pub tick_count : ℕ
  pub confidence : ℕ
  pub accepted : ℕ
  pub rejected : ℕ
  pub flags : ℕ

pub record IndexRecord (H F : Type 0) : Type 0 where
  pub header : H
  pub index : Index F

-- The calls. A timestamp `mts` counts 16 µs ticks since 2010 in an unsigned 48-bit field, so the
-- epoch milliseconds that it decodes to are never negative.
pub record Wire (H : Type 0) : Type 0 where
  -- MitchHeader::new(message_type, provider_id, mts, count)
  pub header_new : ℕ → ℕ → ℕ → ℕ → H
  pub message_type : H → ℕ
  pub provider_id : H → ℕ
  pub get_timestamp : H → ℕ
  pub count : H → ℕ
  pub set_timestamp : H → ℕ → H
  pub set_sequence : H → ℕ → H
  -- mitch::timestamp
  pub to_epoch_ms : ℕ → ℕ
  pub from_epoch_ms : ℕ → ℕ
  -- mitch::common::message_type::INDEX
  pub type_index : ℕ
  -- nxr_sdk::shard
  pub flag_idx_healed : ℕ
  pub flag_conf_freshness : ℕ
  pub flag_conf_active : ℕ
  pub flag_historical_backfill : ℕ
  pub flag_no_book : ℕ

-- What the code relies on. `epoch_ms` is the origin of the wire clock; whole milliseconds at an even
-- distance from it are whole ticks, and survive the round trip.
pub record IsWire {H : Type 0} (w : Wire H) : Type 0 where
  pub epoch_ms : ℕ
  pub epoch_even : epoch_ms % 2 ≡ 0
  pub epoch-le : (t : ℕ) → epoch_ms ≤ w.to_epoch_ms t
  pub to-from : (ms : ℕ) → epoch_ms ≤ ms → ms % 2 ≡ 0 → w.to_epoch_ms (w.from_epoch_ms ms) ≡ ms
  pub from-to-le : (t : ℕ) → w.from_epoch_ms (w.to_epoch_ms t) ≤ t
  pub from_mono : (a b : ℕ) → a ≤ b → w.from_epoch_ms a ≤ w.from_epoch_ms b
  pub timestamp_fits : (h : H) → w.get_timestamp h < 2 ^ 48
  pub get-set_timestamp : (h : H) (t : ℕ) → t < 2 ^ 48 → w.get_timestamp (w.set_timestamp h t) ≡ t
  pub set-set_timestamp :
      (h : H) (s t : ℕ) → w.set_timestamp (w.set_timestamp h s) t ≡ w.set_timestamp h t
  pub type-set_timestamp : (h : H) (t : ℕ) → w.message_type (w.set_timestamp h t) ≡ w.message_type h
  pub timestamp-new : (m p t c : ℕ) → t < 2 ^ 48 → w.get_timestamp (w.header_new m p t c) ≡ t
  pub timestamp-set_sequence :
      (h : H) (s : ℕ) → w.get_timestamp (w.set_sequence h s) ≡ w.get_timestamp h
  pub healed_set : w.flag_idx_healed ≢ 0
  pub healed_apart_freshness : bit_and w.flag_idx_healed w.flag_conf_freshness ≡ 0
  pub healed_apart_active : bit_and w.flag_idx_healed w.flag_conf_active ≡ 0
