-- ===== src/Onchain/Quote/Fresh.antt =====
-- How old a mark of `Quote` of src/bin/onchain_backfill.rs can be.
use series_factory.Prelude.{
  ℕ, ◌+◌, ◌-◌, ◌≤◌, ◌<◌, ◌^◌, ◌%◌, ◌≡◌, refl, subst, ◌∙◌, ap, Bool, true, false, some, List, [],
  ◌∷◌, arith, get_elem?, ltb, leb, Bool-cases, inl, inr,
}
use series_factory.Prelude.Outcome.{ok}
use series_factory.Onchain.Quote.{
  max_quote_gap_ms, last_ts, has_gap, any_outside, new, partition_point, price_of, at,
}

module _ {F : Type 0} where
  -- Bars behind one at `t`, in order and with timestamps of 64 bits.
  abbrev pub Ascending : ℕ → List (ℕ × F) → Type 0
  Ascending t [] = Unit {0}
  Ascending t ((u, px) ∷ bars) = (t ≤ u) × (u < 2 ^ 64) × Ascending u bars

module _ {F : Type 0} (in_band : F → Bool) where
  -- The bar at index `i` is in band, starts by `t`, and is less than a gap old.
  abbrev Marked : List (ℕ × F) → ℕ → ℕ → Type 0
  Marked bars t i =
      (ts : ℕ) × (px : F) × (get_elem? bars i ≡ some (ts, px))
      × (ts ≤ t)
      × (t < ts + max_quote_gap_ms)
      × (in_band px ≡ true)

  marked :
      (u : ℕ) (px : F) (bars : List (ℕ × F)) (t end : ℕ)
      → u ≤ t
      → t < end
      → Ascending u bars
      → any_outside in_band ((u, px) ∷ bars) ≡ false
      → has_gap u bars ≡ false
      → ltb ((last_ts u bars + max_quote_gap_ms) % 2 ^ 64) end ≡ false
      → Marked ((u, px) ∷ bars) t (partition_point t bars)
  marked u px [] t end le lt up band gap last = (u, px, refl, le, ground arith, ground arith)
  marked u px ((v, py) ∷ bars) t end le lt up band gap last = elim (Bool-cases (leb v t)) [
    | inl more ↦
        rw more (marked v py bars t end (ground arith) lt up.2 (ground arith) (ground arith) last)
    | inr here ↦ rw here (u, px, refl, le, ground arith, ground arith)
  ]

  -- At `t` the quote has a mark: the price of a bar that is in band, starts by `t`, and is less than a gap
  -- old.
  abbrev pub Fresh : List (ℕ × F) → ℕ → Type 0
  Fresh bars t =
      (ts : ℕ) × (px : F) × (at bars t ≡ some px)
      × (get_elem? bars (partition_point t bars - 1) ≡ some (ts, px))
      × (ts ≤ t)
      × (t < ts + max_quote_gap_ms)
      × (in_band px ≡ true)

  abbrev InOrder : List (ℕ × F) → Type 0
  InOrder [] = Unit {0}
  InOrder ((t, px) ∷ bars) = Ascending t bars

  -- Where bars in order of their 64-bit times pass the checks of `new`, each instant of the range has a mark that
  -- is in band and less than five minutes old.
  pub at-Fresh :
      (bars q : List (ℕ × F)) (start end t : ℕ)
      → InOrder bars
      → new in_band bars start end ≡ ok q
      → start ≤ t
      → t < end
      → Fresh q t
  unfolding new at
  at-Fresh [] q start end t up e le lt = cc e
  at-Fresh ((u, px) ∷ bars) q start end t up e le lt =
      subst (λ b. Fresh b t) same
        (fresh (marked u px bars t end early lt up (ground arith) (ground arith) (ground arith)))
    where
      early : u ≤ t
      early = ground arith

      same : ((u, px) ∷ bars) ≡ q
      same = ground arith

      covers : partition_point t ((u, px) ∷ bars) - 1 ≡ partition_point t bars
      covers = ground arith

      fresh : Marked ((u, px) ∷ bars) t (partition_point t bars) → Fresh ((u, px) ∷ bars) t
      fresh (ts, py, here, from, to, band) = (
        ts,
        py,
        ap price_of (ap (get_elem? ((u, px) ∷ bars)) covers ∙ here),
        ap (get_elem? ((u, px) ∷ bars)) covers ∙ here,
        from,
        to,
        band,
      )
