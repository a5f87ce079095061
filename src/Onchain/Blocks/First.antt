-- ===== src/Onchain/Blocks/First.antt =====
-- The block that `first_block_at` of src/bin/onchain_backfill.rs finds.
use series_factory.Prelude.{
  ℕ, zero, suc, ◌+◌, ◌/◌, ◌≤◌, ◌<◌, ◌≡◌, refl, Bool, true, false, Option, some, ltb, if◌then◌else◌,
  arith, ltb→lt,
}
use series_factory.Prelude.Outcome.{Outcome, ok}
use series_factory.Onchain.Blocks.{SearchError, search_block, first_block_at}

-- The blocks below `past` are split at `r` by the time `ts_sec`.
abbrev pub Splits : (ℕ → ℕ) → ℕ → ℕ → ℕ → Type 0
Splits time ts_sec past r =
    (r ≤ past)
    × ((k : ℕ) → k < r → time k < ts_sec)
    × ((k : ℕ) → r ≤ k → k < past → ts_sec ≤ time k)

module _ {E : Type 0} (block_ts : ℕ → Outcome E (Option ℕ)) (time : ℕ → ℕ) (ts_sec past : ℕ)
    (known : (k : ℕ) → k < past → block_ts k ≡ ok (some (time k)))
    (mono : (j k : ℕ) → j ≤ k → k < past → time j ≤ time k) where
  abbrev Finds : Outcome (SearchError E) ℕ → Type 0
  Finds o = (r : ℕ) × (o ≡ ok r) × Splits time ts_sec past r

  Finds-choice :
      (b : Bool) (x y : Outcome (SearchError E) ℕ)
      → (b ≡ true → Finds x)
      → (b ≡ false → Finds y)
      → Finds (if b then x else y)
  Finds-choice true x y h k = h refl
  Finds-choice false x y h k = k refl

  search-Finds :
      (fuel lo hi : ℕ)
      → lo ≤ hi
      → hi ≤ lo + fuel
      → hi ≤ past
      → ((k : ℕ) → k < lo → time k < ts_sec)
      → ((k : ℕ) → hi ≤ k → k < past → ts_sec ≤ time k)
      → Finds (search_block block_ts fuel ts_sec lo hi)
  search-Finds zero lo hi le enough inside below above =
      (lo, refl, (omega arith, below, λ k p q. above k (omega arith) q))
  search-Finds (suc fuel) lo hi le enough inside below above =
      Finds-choice (ltb lo hi) _ _
        (λ more. rw (known mid (middle (ltb→lt lo hi more)).2) (
          Finds-choice (ltb (time mid) ts_sec) _ _
            (λ early.
              search-Finds fuel (suc mid) hi (omega (arith, middle (ltb→lt lo hi more)))
                (omega (arith, middle (ltb→lt lo hi more))) inside
                (λ k p.
                  before (ltb→lt _ ts_sec early)
                    (mono k mid (omega arith) (middle (ltb→lt lo hi more)).2))
                above)
            (λ late.
              search-Finds fuel lo mid (omega (arith, middle (ltb→lt lo hi more)))
                (omega (arith, middle (ltb→lt lo hi more)))
                (omega (arith, middle (ltb→lt lo hi more))) below
                (λ k p q. behind late (mono mid k p q)))))
        (λ done. (lo, refl, (omega arith, below, λ k p q. above k (at_end done p) q)))
    where
      mid : ℕ
      mid = (lo + hi) / 2

      before : {s t : ℕ} → t < ts_sec → s ≤ t → s < ts_sec
      before h k = omega arith

      behind : {s t : ℕ} → ltb s ts_sec ≡ false → s ≤ t → ts_sec ≤ t
      behind h k = ground arith

      middle : lo < hi → (lo ≤ mid) × (mid < hi) × (mid < past)
      middle h = (omega arith, omega arith, omega arith)

      at_end : {k : ℕ} → ltb lo hi ≡ false → lo ≤ k → hi ≤ k
      at_end done p = ground arith

-- For blocks up to `height` whose times can be asked for and never go back, the search ends with the lowest
-- block whose time is at least `ts_sec`, and with `height + 1` if there is none.
pub first_block_at-Splits :
    {E : Type 0} (block_ts : ℕ → Outcome E (Option ℕ)) (time : ℕ → ℕ) (ts_sec height : ℕ)
    → ((k : ℕ) → k < height + 1 → block_ts k ≡ ok (some (time k)))
    → ((j k : ℕ) → j ≤ k → k < height + 1 → time j ≤ time k)
    → (r : ℕ) × (first_block_at block_ts ts_sec height ≡ ok r) × Splits time ts_sec (height + 1) r
unfolding first_block_at
first_block_at-Splits block_ts time ts_sec height known mono =
    search-Finds block_ts time ts_sec (height + 1) known mono (height + 1) 0 (height + 1)
      (omega arith) (omega arith) (omega arith) (λ k p. elim (nothing k p) [ ])
      (λ k p q. omega arith)
  where
    nothing : (k : ℕ) → k < 0 → 1 ≤ 0
    nothing k p = omega arith
