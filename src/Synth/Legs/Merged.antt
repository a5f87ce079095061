-- ===== src/Synth/Legs/Merged.antt =====
-- The order in which `merge_pop` of src/bin/synth_backfill_from_idx.rs gives the records of the legs.
use series_factory.Prelude.{
  ℕ, zero, suc, ◌+◌, ◌≤◌, ◌<◌, ◌≡◌, refl, ◌∙◌, ap, Bool, true, false, Option, none, some, List, [],
  ◌∷◌, arith, leb, Bool-cases, inl, inr, leb→le, length,
}
use series_factory.Prelude.Outcome.{Outcome, ok}
use series_factory.Synth.Legs.{
  PeekStream, Next, peeked, open_peek, advance, advanced, pop_base, pop_quote, pop_at, merge_pop,
  drain,
}

module _ {R : Type 0} where
  -- The records of a leg, in the order of the pops.
  abbrev pub base_of : List (R × Bool) → List R
  base_of [] = []
  base_of ((r, true) ∷ legs) = r ∷ base_of legs
  base_of ((r, false) ∷ legs) = base_of legs

  abbrev pub quote_of : List (R × Bool) → List R
  quote_of [] = []
  quote_of ((r, true) ∷ legs) = quote_of legs
  quote_of ((r, false) ∷ legs) = r ∷ quote_of legs

module _ {R : Type 0} (ts_of : R → ℕ) where
  abbrev pub Ascends : ℕ → List R → Type 0
  Ascends t [] = Unit {0}
  Ascends t (r ∷ rs) = (t ≤ ts_of r) × Ascends (ts_of r) rs

  abbrev pub LegsAscend : ℕ → List (R × Bool) → Type 0
  LegsAscend t [] = Unit {0}
  LegsAscend t ((r, was_base) ∷ legs) = (t ≤ ts_of r) × LegsAscend (ts_of r) legs

module _ {E R S : Type 0} (next : Next E R S) where
  -- A stream that gives these records, one by one, and then its end.
  abbrev pub Yields : S → List R → Type 0
  Yields s [] = (s' : S) × (next s ≡ ok (none, s'))
  Yields s (r ∷ rs) = (s' : S) × (next s ≡ ok (some r, s')) × Yields s' rs

  abbrev Peeks : PeekStream R S → List R → Type 0
  Peeks p [] = p.next ≡ none
  Peeks p (r ∷ rs) = (p.next ≡ some r) × Yields p.inner rs

  peeked-Peeks :
      (s : S) (rs : List R)
      → Yields s rs
      → (p : PeekStream R S) × (peeked next (next s) ≡ ok p) × Peeks p rs
  peeked-Peeks s [] (s', e) = (record { inner = s'; next = none }, rw e, refl)
  peeked-Peeks s (r ∷ rs) (s', e, more) = (record { inner = s'; next = some r }, rw e, (refl, more))

  advance-Peeks :
      (p : PeekStream R S) (r : R) (rs : List R)
      → Peeks p (r ∷ rs)
      → (p' : PeekStream R S) × (advance next p ≡ ok (some r, p')) × Peeks p' rs
  unfolding advance
  advance-Peeks p r rs (is_next, more) =
      let (p', e, peeks) = peeked-Peeks p.inner rs more in
      (p', ap (λ o. advanced next o p.next) e ∙ ap (λ o. ok (o, p')) is_next, peeks)

  module _ (ts_of : R → ℕ) where
    -- What the loop gives: every record of either leg once, in the order of its leg, by time.
    pub record Merges (t : ℕ) (xs ys : List R) (drained : Option (Outcome E (List (R × Bool))))
        : Type 0 where
      pub legs : List (R × Bool)
      pub result : drained ≡ some (ok legs)
      pub base : base_of legs ≡ xs
      pub quote : quote_of legs ≡ ys
      pub ascend : LegsAscend ts_of t legs

    take_base :
        (fuel t : ℕ) (x : R) (xs ys : List R) (base base' quote : PeekStream R S)
        → t ≤ ts_of x
        → advance next base ≡ ok (some x, base')
        → merge_pop next ts_of base quote ≡ pop_base next (advance next base) quote
        → Merges (ts_of x) xs ys (drain next ts_of fuel base' quote)
        → Merges t (x ∷ xs) ys (drain next ts_of (suc fuel) base quote)
    unfolding drain
    take_base fuel t x xs ys base base' quote le adv pop m = record {
      legs = (x, true) ∷ m.legs;
      result = rw (pop, adv, m.result);
      base = ap (λ rs. x ∷ rs) m.base;
      quote = m.quote;
      ascend = (le, m.ascend);
    }

    take_quote :
        (fuel t : ℕ) (y : R) (xs ys : List R) (base quote quote' : PeekStream R S)
        → t ≤ ts_of y
        → advance next quote ≡ ok (some y, quote')
        → merge_pop next ts_of base quote ≡ pop_quote next (advance next quote) base
        → Merges (ts_of y) xs ys (drain next ts_of fuel base quote')
        → Merges t xs (y ∷ ys) (drain next ts_of (suc fuel) base quote)
    unfolding drain
    take_quote fuel t y xs ys base quote quote' le adv pop m = record {
      legs = (y, false) ∷ m.legs;
      result = rw (pop, adv, m.result);
      base = m.base;
      quote = ap (λ rs. y ∷ rs) m.quote;
      ascend = (le, m.ascend);
    }

    pop-eq :
        (a b : Option R) (base quote : PeekStream R S)
        → base.next ≡ a
        → quote.next ≡ b
        → merge_pop next ts_of base quote ≡ pop_at next ts_of a b base quote
    unfolding merge_pop
    pop-eq a b base quote e f =
        ap (λ o. pop_at next ts_of o quote.next base quote) e
        ∙ ap (λ o. pop_at next ts_of a o base quote) f

    drain-Merges :
        (fuel t : ℕ) (xs ys : List R) (base quote : PeekStream R S)
        → length xs + length ys < fuel
        → Peeks base xs
        → Peeks quote ys
        → Ascends ts_of t xs
        → Ascends ts_of t ys
        → Merges t xs ys (drain next ts_of fuel base quote)
    unfolding drain
    drain-Merges zero t xs ys base quote enough p q a b = absurd (omega arith)
    drain-Merges (suc fuel) t [] [] base quote enough p q a b = record {
      legs = [];
      result = rw (pop-eq none none base quote p q);
      base = refl;
      quote = refl;
      ascend = tt;
    }
    drain-Merges (suc fuel) t (x ∷ xs) [] base quote enough p q a b =
        let (base', adv, peeks) = advance-Peeks base x xs p in
        take_base fuel t x xs [] base base' quote a.0 adv (pop-eq (some x) none base quote p.0 q)
          (drain-Merges fuel (ts_of x) xs [] base' quote (omega arith) peeks q a.1 tt)
    drain-Merges (suc fuel) t [] (y ∷ ys) base quote enough p q a b =
        let (quote', adv, peeks) = advance-Peeks quote y ys q in
        take_quote fuel t y [] ys base quote quote' b.0 adv (pop-eq none (some y) base quote p q.0)
          (drain-Merges fuel (ts_of y) [] ys base quote' (omega arith) p peeks tt b.1)
    drain-Merges (suc fuel) t (x ∷ xs) (y ∷ ys) base quote enough p q a b =
        let pop = pop-eq (some x) (some y) base quote p.0 q.0 in
        elim (Bool-cases (leb (ts_of x) (ts_of y))) [
          | inl le ↦
              let (base', adv, peeks) = advance-Peeks base x xs p in
              take_base fuel t x xs (y ∷ ys) base base' quote a.0 adv (pop ∙ rw le) (
                drain-Merges fuel (ts_of x) xs (y ∷ ys) base' quote (omega arith) peeks q a.1
                  (leb→le (ts_of x) (ts_of y) le, b.1))
          | inr gt ↦
              let (quote', adv, peeks) = advance-Peeks quote y ys q in
              take_quote fuel t y (x ∷ xs) ys base quote quote' b.0 adv (pop ∙ rw gt) (
                drain-Merges fuel (ts_of y) (x ∷ xs) ys base quote' (omega arith) p peeks
                  (ground arith, a.1) b.1)
        ]

    -- Two shards whose reads do not fail, each with its records in ascending order, are opened, and the
    -- loop over `merge_pop` ends after one pop for each record, with all of them in ascending order and
    -- those of a leg in the order of its shard.
    pub open_peek-Merges :
        (t : ℕ) (xs ys : List R) (base quote : S)
        → Yields base xs
        → Yields quote ys
        → Ascends ts_of t xs
        → Ascends ts_of t ys
        → (b q : PeekStream R S) × (open_peek next base ≡ ok b)
          × (open_peek next quote ≡ ok q)
          × Merges t xs ys (drain next ts_of (suc (length xs + length ys)) b q)
    unfolding open_peek
    open_peek-Merges t xs ys base quote h k a b =
        let (p, opened, peeks) = peeked-Peeks base xs h in
        let (q, opened', peeks') = peeked-Peeks quote ys k in
        (
          p,
          q,
          opened,
          opened',
          drain-Merges (suc (length xs + length ys)) t xs ys p q (omega arith) peeks peeks' a b,
        )
