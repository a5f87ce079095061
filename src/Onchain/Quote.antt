-- ===== src/Onchain/Quote.antt =====
-- `Quote` of src/bin/onchain_backfill.rs. `F` is the type of f64 values.
pub mod Fresh
use series_factory.Prelude.{
  ℕ, zero, suc, ◌+◌, ◌-◌, ◌%◌, ◌^◌, Bool, true, false, not, ◌||◌, Option, none, some, List, [], ◌∷◌,
  any, get_elem?, ltb, leb, if◌then◌else◌,
}
use series_factory.Prelude.Outcome.{Outcome, ok, err}

pub data QuoteError : Type 0 where
  no_bars late_start out_of_band gap early_end : QuoteError

abbrev pub max_quote_gap_ms : ℕ
max_quote_gap_ms = 300000

module _ {F : Type 0} where
  abbrev pub last_ts : ℕ → List (ℕ × F) → ℕ
  last_ts t [] = t
  last_ts t ((u, px) ∷ bars) = last_ts u bars

  -- A gap above the limit behind the bar at `t`; the subtraction wraps, as in a release build.
  abbrev pub has_gap : ℕ → List (ℕ × F) → Bool
  has_gap t [] = false
  has_gap t ((u, px) ∷ bars) = ltb max_quote_gap_ms ((u + 2 ^ 64 - t) % 2 ^ 64) || has_gap u bars

  abbrev pub any_outside : (F → Bool) → List (ℕ × F) → Bool
  any_outside in_band [] = false
  any_outside in_band ((t, px) ∷ bars) = not (in_band px) || any_outside in_band bars

  -- `in_band` is the range of prices.
  unfoldable pub new : (F → Bool) → List (ℕ × F) → ℕ → ℕ → Outcome QuoteError (List (ℕ × F))
  new in_band [] start end = err no_bars
  new in_band ((t, px) ∷ bars) start end =
      if ltb start t
      then err late_start
      else if any_outside in_band ((t, px) ∷ bars)
      then err out_of_band
      else if has_gap t bars
      then err gap
      else if ltb ((last_ts t bars + max_quote_gap_ms) % 2 ^ 64) end
      then err early_end
      else ok ((t, px) ∷ bars)

  -- `partition_point`, over bars where those up to `t` come first.
  abbrev pub partition_point : ℕ → List (ℕ × F) → ℕ
  partition_point t [] = 0
  partition_point t ((u, px) ∷ bars) =
      let rest = partition_point t bars in if leb u t then suc rest else 0

  abbrev pub price_of : Option (ℕ × F) → Option F
  price_of none = none
  price_of (some (t, px)) = some px

  -- An index past the end panics.
  unfoldable pub at : List (ℕ × F) → ℕ → Option F
  at bars t = price_of (get_elem? bars (partition_point t bars - 1))
