-- ===== src/Onchain/Blocks.antt =====
-- `first_block_at` of src/bin/onchain_backfill.rs. `E` is the type of errors, and `block_ts` the query for
-- the time of a block, of one chain.
pub mod First
use series_factory.Prelude.{
  ℕ, zero, suc, ◌+◌, ◌-◌, ◌/◌, Bool, Option, none, some, ltb, if◌then◌else◌,
}
use series_factory.Prelude.Outcome.{Outcome, ok, err}

pub data SearchError (E : Type 0) : Type 0 where
  query : E → SearchError E
  no_block : ℕ → SearchError E

module _ {E : Type 0} (block_ts : ℕ → Outcome E (Option ℕ)) where
  -- The answer for the block `mid`; the two searches are the halves.
  abbrev pub probe :
      ℕ
      → ℕ
      → Outcome (SearchError E) ℕ
      → Outcome (SearchError E) ℕ
      → Outcome E (Option ℕ)
      → Outcome (SearchError E) ℕ
  probe ts_sec mid upper lower (err e) = err (query e)
  probe ts_sec mid upper lower (ok none) = err (no_block mid)
  probe ts_sec mid upper lower (ok (some t)) = if ltb t ts_sec then upper else lower

  abbrev pub search_block : ℕ → ℕ → ℕ → ℕ → Outcome (SearchError E) ℕ
  search_block zero ts_sec lo hi = ok lo
  search_block (suc fuel) ts_sec lo hi =
      let mid = (lo + hi) / 2 in
      let upper = search_block fuel ts_sec (suc mid) hi in
      let lower = search_block fuel ts_sec lo mid in
      if ltb lo hi then probe ts_sec mid upper lower (block_ts mid) else ok lo

  -- Each round makes the range shorter, so this many rounds are enough.
  unfoldable pub first_block_at : ℕ → ℕ → Outcome (SearchError E) ℕ
  first_block_at ts_sec height = search_block (height + 1) ts_sec 0 (height + 1)
