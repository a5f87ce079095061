-- ===== src/Seam/Grid.antt =====
-- The s10 check of src/seam.rs on bars of the grid, whose times went through the wire clock.
use native.Mathlib.Nat.{suc-mul}
use series_factory.Prelude.{
  ℕ, zero, suc, ◌+◌, ◌*◌, ◌≤◌, ◌≡◌, ◌∙◌, ap₂, true, false, not, ◌==◌, ltb, arith,
}
use series_factory.Prelude.Int.{ℤ, pos, abs, ◌-ℤ◌}
use series_factory.Seam.{check_s10_cross_shard_bars}

-- What the clock makes of the time `t`: the same, or a millisecond less.
abbrev pub Decoded : ℕ → ℤ → Type 0
Decoded t z = (n : ℕ) × (z ≡ pos n) × (n ≤ t) × (t ≤ n + 1)

distance :
    (bar n n' d : ℕ)
    → n' ≤ n + d + 1
    → n + d ≤ n' + 1
    → 3 ≤ bar
    → (d ≡ 0 → ltb 1 (abs (pos n' -ℤ pos n -ℤ pos bar)) ≡ true)
      × (d ≡ bar → ltb 1 (abs (pos n' -ℤ pos n -ℤ pos bar)) ≡ false)
      × (bar + bar ≤ d → ltb 1 (abs (pos n' -ℤ pos n -ℤ pos bar)) ≡ true)
unfolding ◌-ℤ◌
distance bar n n' d h k l = (λ e. ground arith, λ e. ground arith, λ e. ground arith)

-- `m` bars further.
steps :
    (bar n n' : ℕ) (m : ℕ)
    → n' ≤ n + m * bar + 1
    → n + m * bar ≤ n' + 1
    → 3 ≤ bar
    → ltb 1 (abs (pos n' -ℤ pos n -ℤ pos bar)) ≡ not (m == 1)
steps bar n n' zero h k l = (distance bar n n' (zero * bar) h k l).0 (omega arith)
steps bar n n' (suc zero) h k l = (distance bar n n' (1 * bar) h k l).1 (omega arith)
steps bar n n' (suc (suc m)) h k l =
    (distance bar n n' (suc (suc m) * bar) h k l).2
      (omega (arith, suc-mul (suc m) bar, suc-mul m bar))
    ∙ ground arith

-- For two bars that close `m` grid steps apart, at whole milliseconds which the wire clock may each have
-- moved back by one, and for steps of 3 ms at least, the boundary is reported exactly when `m` is not one:
-- jitter raises no report, and no dropped or doubled bucket passes.
pub check_s10_cross_shard_bars-grid :
    {F B : Type 0} (bar_ms : ℕ) (as_f64 : ℤ → F) (close_time_ms : B → ℤ)
    → 3 ≤ bar_ms
    → (prev_last next_first : B) (t m : ℕ) → Decoded t (close_time_ms prev_last)
    → Decoded (t + m * bar_ms) (close_time_ms next_first)
    → (check_s10_cross_shard_bars (pos bar_ms) as_f64 close_time_ms prev_last next_first).violated
      ≡ not (m == 1)
unfolding check_s10_cross_shard_bars
check_s10_cross_shard_bars-grid bar_ms as_f64 close_time_ms l prev_last next_first t m d d' =
    ap₂ (λ a b. ltb 1 (abs (b -ℤ a -ℤ pos bar_ms))) d.1 d'.1
    ∙ steps bar_ms d.0 d'.0 m (omega (arith, d.2, d.3, d'.2, d'.3))
        (omega (arith, d.2, d.3, d'.2, d'.3)) l
