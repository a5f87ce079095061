-- ===== src/Merge/Cycle/Boundary.antt =====
-- The cycle boundaries of src/bin/merge_idx.rs: whole cycles behind the first record.
use native.Mathlib.Nat.{
  le-div_iff_mul-le, lt-div-mul-add, div-mul-le_self, div-lt_iff_lt-mul, suc-mul,
}
use series_factory.Prelude.{ℕ, suc, ◌+◌, ◌-◌, ◌*◌, ◌/◌, ◌≤◌, ◌<◌, ◌≡◌, arith, ap, ◌==◌, false}

-- The first boundary behind `ts_ms`.
abbrev pub boundary : ℕ → ℕ → ℕ → ℕ
boundary cycle_ms first_ms ts_ms = first_ms + (ts_ms - first_ms) / cycle_ms * cycle_ms + cycle_ms

module _ (cycle_ms first_ms : ℕ) (positive : 1 ≤ cycle_ms) where
  pub boundary_behind : (ts_ms : ℕ) → ts_ms < boundary cycle_ms first_ms ts_ms
  boundary_behind ts_ms = omega (arith, lt-div-mul-add {a = ts_ms - first_ms} positive)

  -- A boundary that is `k` cycles behind the first and not behind `ts_ms` has another one behind it.
  pub boundary_next :
      (k ts_ms : ℕ)
      → first_ms ≤ ts_ms
      → first_ms + k * cycle_ms + cycle_ms ≤ ts_ms
      → suc k ≤ (ts_ms - first_ms) / cycle_ms
  boundary_next k ts_ms le h = (le-div_iff_mul-le positive).1 (omega (arith, suc-mul k cycle_ms))

  pub boundary_last :
      (k ts_ms : ℕ)
      → first_ms ≤ ts_ms
      → k ≤ (ts_ms - first_ms) / cycle_ms
      → ts_ms < first_ms + k * cycle_ms + cycle_ms
      → first_ms + k * cycle_ms + cycle_ms ≡ boundary cycle_ms first_ms ts_ms
  boundary_last k ts_ms le h lt = ap (λ q. first_ms + q * cycle_ms + cycle_ms) same
    where
      below : (ts_ms - first_ms) / cycle_ms < suc k
      below = (div-lt_iff_lt-mul positive).1 (omega (arith, suc-mul k cycle_ms))

      same : k ≡ (ts_ms - first_ms) / cycle_ms
      same = omega (arith, h, below)

  pub quotient_mono : (s t : ℕ) → s ≤ t → (s - first_ms) / cycle_ms ≤ (t - first_ms) / cycle_ms
  quotient_mono s t h =
      (le-div_iff_mul-le positive).1 (omega (arith, div-mul-le_self (s - first_ms) cycle_ms))

  pub boundary_suc :
      (k : ℕ)
      → first_ms + k * cycle_ms + cycle_ms + cycle_ms ≡ first_ms + suc k * cycle_ms + cycle_ms
  boundary_suc k = omega (arith, suc-mul k cycle_ms)

  -- Times of one cycle have one boundary; a time at or behind the boundary of an earlier one has another.
  pub boundary_same :
      (s t : ℕ)
      → first_ms ≤ s
      → s ≤ t
      → t < boundary cycle_ms first_ms s
      → boundary cycle_ms first_ms s ≡ boundary cycle_ms first_ms t
  boundary_same s t le st lt =
      boundary_last ((s - first_ms) / cycle_ms) t (omega arith) (quotient_mono s t st) lt

  pub boundary_other :
      (s t : ℕ)
      → boundary cycle_ms first_ms s ≤ t
      → (boundary cycle_ms first_ms s == boundary cycle_ms first_ms t) ≡ false
  boundary_other s t h = ground (arith, boundary_behind t)
