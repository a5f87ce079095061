-- ===== src/Onchain/Pages.antt =====
-- `paginate` of src/bin/onchain_backfill.rs. `T` is the type of items, `E` that of errors; `fetch` answers
-- with a page and the block to go on from.
pub mod Walk
use series_factory.Prelude.{
  ℕ, zero, suc, ◌-◌, Bool, Option, List, [], ◌∷◌, ◌++◌, leb, ltb, if◌then◌else◌,
}
use series_factory.Prelude.Outcome.{Outcome, ok, err}

pub data PageError (E : Type 0) : Type 0 where
  fetching : E → PageError E
  no_progress : ℕ → ℕ → PageError E
  stopped : ℕ → PageError E

module _ {T E : Type 0} (to : ℕ) (fetch : ℕ → Outcome E (List T × ℕ)) where
  -- The answer at `cur`, and the rest of the walk.
  abbrev pub turn_page :
      ℕ
      → List T
      → (ℕ → List T → Outcome (PageError E) (List T))
      → Outcome E (List T × ℕ)
      → Outcome (PageError E) (List T)
  turn_page cur out rest (err e) = err (fetching e)
  turn_page cur out rest (ok (page, next)) =
      if leb next cur then err (no_progress cur next) else rest next (out ++ page)

  -- With no rounds left the loop is taken to have ended, where its last check applies.
  abbrev pub pages : ℕ → ℕ → List T → Outcome (PageError E) (List T)
  pages zero cur out = if ltb cur to then err (stopped cur) else ok out
  pages (suc fuel) cur out =
      let rest = turn_page cur out (pages fuel) (fetch cur) in if ltb cur to then rest else ok out

  -- A page moves on by one block at least.
  unfoldable pub paginate : ℕ → Outcome (PageError E) (List T)
  paginate from = pages (to - from) from []
