-- ===== src/Synth/Legs.antt =====
-- `PeekStream` and `merge_pop` of src/bin/synth_backfill_from_idx.rs. `S` is `ShardStream<IndexRecord>`
-- with its `next`, `E` the type of errors.
pub mod Merged
use series_factory.Prelude.{
  ℕ, zero, suc, Bool, true, false, Option, none, some, List, [], ◌∷◌, leb, if◌then◌else◌,
}
use series_factory.Prelude.Outcome.{Outcome, ok, err}
use series_factory.Mitch.{IndexRecord, Wire}

pub record PeekStream (R S : Type 0) : Type 0 where
  pub inner : S
  pub next : Option R

-- What a pop gives: the record, whether it is of the base leg, and the streams behind it.
pub record Popped (R S : Type 0) : Type 0 where
  pub rec : R
  pub was_base : Bool
  pub base : PeekStream R S
  pub quote : PeekStream R S

abbrev pub Next : Type 0 → Type 0 → Type 0 → Type 0
Next E R S = S → Outcome E (Option R × S)

module _ {E R S : Type 0} (next : Next E R S) where
  abbrev pub peeked : Outcome E (Option R × S) → Outcome E (PeekStream R S)
  peeked (ok (r, s)) = ok (record { inner = s; next = r })
  peeked (err e) = err e

  -- The stream of an opened shard.
  unfoldable pub open_peek : S → Outcome E (PeekStream R S)
  open_peek s = peeked (next s)

  abbrev pub advanced :
      Outcome E (PeekStream R S) → Option R → Outcome E (Option R × PeekStream R S)
  advanced (ok p) out = ok (out, p)
  advanced (err e) out = err e

  unfoldable pub advance : PeekStream R S → Outcome E (Option R × PeekStream R S)
  advance p = advanced (peeked (next p.inner)) p.next

  abbrev pub pop_base :
      Outcome E (Option R × PeekStream R S) → PeekStream R S → Outcome E (Option (Popped R S))
  pop_base (ok (some r, base)) quote =
      ok (some (record { rec = r; was_base = true; base = base; quote = quote }))
  pop_base (ok (none, base)) quote = ok none
  pop_base (err e) quote = err e

  abbrev pub pop_quote :
      Outcome E (Option R × PeekStream R S) → PeekStream R S → Outcome E (Option (Popped R S))
  pop_quote (ok (some r, quote)) base =
      ok (some (record { rec = r; was_base = false; base = base; quote = quote }))
  pop_quote (ok (none, quote)) base = ok none
  pop_quote (err e) base = err e

  module _ (ts_of : R → ℕ) where
    abbrev pub pop_at :
        Option R → Option R → PeekStream R S → PeekStream R S → Outcome E (Option (Popped R S))
    pop_at none none base quote = ok none
    pop_at (some a) none base quote = pop_base (advance base) quote
    pop_at none (some b) base quote = pop_quote (advance quote) base
    pop_at (some a) (some b) base quote =
        if leb (ts_of a) (ts_of b)
        then pop_base (advance base) quote
        else pop_quote (advance quote) base

    unfoldable pub merge_pop : PeekStream R S → PeekStream R S → Outcome E (Option (Popped R S))
    merge_pop base quote = pop_at base.next quote.next base quote

    abbrev pub on_pop :
        Outcome E (Option (Popped R S))
        → (PeekStream R S → PeekStream R S → Option (Outcome E (List (R × Bool))))
        → Option (Outcome E (List (R × Bool)))
    on_pop (err e) rest = some (err e)
    on_pop (ok none) rest = some (ok [])
    on_pop (ok (some p)) rest = elim (rest p.base p.quote) [
      | none ↦ none
      | some (err e) ↦ some (err e)
      | some (ok legs) ↦ some (ok ((p.rec, p.was_base) ∷ legs))
    ]

    -- The loop over `merge_pop`: the records in the order of the pops; `none` when the fuel runs out.
    unfoldable pub drain :
        ℕ → PeekStream R S → PeekStream R S → Option (Outcome E (List (R × Bool)))
    drain zero base quote = none
    drain (suc fuel) base quote =
        on_pop (merge_pop base quote) (λ base' quote'. drain fuel base' quote')
