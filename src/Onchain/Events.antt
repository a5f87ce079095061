-- ===== src/Onchain/Events.antt =====
-- The events of one pool in src/bin/onchain_backfill.rs: `v4_state`, `curve_state`, `to_events` and the gate
-- on their counts. `F` is the type of f64 values.
pub mod Kept
use series_factory.Prelude.{
  ℕ, String, zero, suc, ◌+◌, ◌*◌, ◌%◌, ◌^◌, min, Bool, true, false, ◌||◌, Option, none, some, List,
  [], ◌∷◌, length, ltb, ◌==◌, if◌then◌else◌,
}
use series_factory.Prelude.Int.{ℤ, pos, negsuc}
use series_factory.Prelude.Outcome.{Outcome, ok, err}
use series_factory.Onchain.Words.{parse_v4_swap, parse_curve}

abbrev pub eq_ℤ : ℤ → ℤ → Bool
eq_ℤ (pos a) (pos b) = a == b
eq_ℤ (pos a) (negsuc b) = false
eq_ℤ (negsuc a) (pos b) = false
eq_ℤ (negsuc a) (negsuc b) = a == b

-- The operations of f64.
pub record Float (F : Type 0) : Type 0 where
  pub of_u128 : ℕ → F
  pub times : F → F → F
  pub over : F → F → F
  pub minus : F → F → F
  pub is_finite : F → Bool
  pub one : F
  pub four : F
  pub million : F
  pub q96 : F

-- `v3_price_sqrtpx96` and `cl_band_depth` of the `nxr_sdk` crate, at 6 decimals and no tick data; the last
-- argument tells whether the base is token 0.
pub record PoolMath (F : Type 0) : Type 0 where
  pub v3_price_sqrtpx96 : ℕ → Bool → Option F
  pub cl_band_depth : F → ℤ → ℕ → F → Bool → Option F

pub data PoolKind : Type 0 where
  v4 curve : PoolKind

pub record PoolCfg (F : Type 0) : Type 0 where
  pub kind : PoolKind
  pub base_is_t0 : Bool
  pub band : F
  pub floor : F
  pub fee : F
  pub base_idx : ℤ
  pub max_sold_raw : ℕ

pub record Log : Type 0 where
  pub block : ℕ
  pub idx : ℕ
  pub topics : List String
  pub bytes : List ℕ

abbrev pub min_curve_raw : ℕ
min_curve_raw = 1000000

module _ {F : Type 0} (fl : Float F) (pools : PoolMath F) (p : PoolCfg F) where
  abbrev pub finite_state : F → F → F → Option (F × F)
  finite_state tested px depth = if fl.is_finite tested then some (px, depth) else none

  abbrev pub depth_state : F → Option F → Option (F × F)
  depth_state px none = none
  depth_state px (some depth) =
      let scaled = fl.over depth fl.million in finite_state scaled px scaled

  abbrev pub price_state : ℕ → ℕ → ℤ → Option F → Option (F × F)
  price_state sqrt liq tick none = none
  price_state sqrt liq tick (some px) =
      depth_state px
        (pools.cl_band_depth (fl.over (fl.of_u128 sqrt) fl.q96) tick liq p.band p.base_is_t0)

  unfoldable pub v4_state : ℕ × ℕ × ℤ → Option (F × F)
  v4_state (sqrt, liq, tick) = price_state sqrt liq tick (pools.v3_price_sqrtpx96 sqrt p.base_is_t0)

  abbrev pub fill : F → Option (F × F)
  fill px = finite_state px px (fl.times fl.four p.floor)

  unfoldable pub curve_state : ℤ × ℕ × ℤ × ℕ → Option (F × F)
  curve_state (sid, sold, bid, bought) =
      let kept = fl.minus fl.one p.fee in
      if ltb (min sold bought) min_curve_raw || ltb p.max_sold_raw sold
      then none
      else if eq_ℤ sid p.base_idx
      then fill (fl.over (fl.over (fl.of_u128 bought) (fl.of_u128 sold)) kept)
      else if eq_ℤ bid p.base_idx
      then fill (fl.times (fl.over (fl.of_u128 sold) (fl.of_u128 bought)) kept)
      else none

pub record Counts : Type 0 where
  pub total : ℕ
  pub usable : ℕ
  pub parse_dropped : ℕ
  pub skipped : ℕ

-- What a log gives: it does not parse, its state is skipped, or an event.
pub data Reading (F : Type 0) : Type 0 where
  undecodable skipped : Reading F
  event : F × F → Reading F

module _ {F : Type 0} (fl : Float F) (pools : PoolMath F) (p : PoolCfg F) where
  abbrev pub v4_reading : Option (F × F) → Reading F
  v4_reading none = undecodable
  v4_reading (some s) = event s

  abbrev pub curve_reading : Option (F × F) → Reading F
  curve_reading none = skipped
  curve_reading (some s) = event s

  abbrev pub read_v4 : Option (ℕ × ℕ × ℤ) → Reading F
  read_v4 none = undecodable
  read_v4 (some swap) = v4_reading (v4_state fl pools p swap)

  abbrev pub read_curve : Option (ℤ × ℕ × ℤ × ℕ) → Reading F
  read_curve none = undecodable
  read_curve (some exchange) = curve_reading (curve_state fl pools p exchange)

  unfoldable pub read_log : PoolKind → Log → Reading F
  read_log v4 l = read_v4 (parse_v4_swap l.bytes)
  read_log curve l = read_curve (parse_curve l.bytes)

  -- The event of a reading in front of the later ones, and its count.
  abbrev pub tally : ℕ → Reading F → List (ℕ × F × F) × Counts → List (ℕ × F × F) × Counts
  tally ts undecodable (ev, c) = (ev, record c { parse_dropped = suc c.parse_dropped })
  tally ts skipped (ev, c) = (ev, record c { skipped = suc c.skipped })
  tally ts (event (px, depth)) (ev, c) = ((ts * 1000 % 2 ^ 64, px, depth) ∷ ev, c)

  abbrev pub tally_logs : List (Log × ℕ) → List (ℕ × F × F) × Counts
  tally_logs [] = ([], record { total = 0; usable = 0; parse_dropped = 0; skipped = 0 })
  tally_logs ((l, ts) ∷ logs) = tally ts (read_log p.kind l) (tally_logs logs)

  unfoldable pub to_events : List (Log × ℕ) → List (ℕ × F × F) × Counts
  to_events logs =
      let (ev, c) = tally_logs logs in (ev, record c { total = length logs; usable = length ev })

pub data CountError : Type 0 where
  no_usable undecodable : CountError

unfoldable pub check_counts : Counts → Outcome CountError (Unit {0})
check_counts c =
    if c.usable == 0
    then err no_usable
    else if ltb c.total (c.parse_dropped * 100 % 2 ^ 64)
    then err undecodable
    else ok tt
