-- ===== src/Resample/Bucket/Runs.antt =====
-- The loop of `resample_last_in_bucket` as a recursion on the records, and the grid arithmetic.
use native.Mathlib.Nat.{mul-mod_left}
use series_factory.Prelude.{
  ℕ, suc, ◌*◌, ◌/◌, ◌%◌, ◌≤◌, ◌<◌, ◌^◌, ◌≡◌, refl, ap, ◌∙◌, true, false, some, List, [], ◌∷◌, ◌++◌,
  append_assoc, arith, ◌==◌, Bool-cases, inl, inr, if◌then◌else◌,
}
use series_factory.Prelude.Bits.{bit_or-bit_or_self}
use series_factory.Mitch.{IndexRecord, Wire, IsWire}
use series_factory.Resample.Bucket.{
  bin_start, set_last, ts_of, stamp, bucket_loop, resample_last_in_bucket,
}

pub bin_start-le : (ts target_ms : ℕ) → bin_start ts target_ms ≤ ts
unfolding bin_start
bin_start-le ts target_ms = omega arith

pub bin_start-mod : (ts target_ms : ℕ) → bin_start ts target_ms % target_ms ≡ 0
unfolding bin_start
bin_start-mod ts target_ms = mul-mod_left (ts / target_ms) target_ms

pub bin_start_mono : (a b target_ms : ℕ) → a ≤ b → bin_start a target_ms ≤ bin_start b target_ms
unfolding bin_start
bin_start_mono a b target_ms h = grind arith

-- A time on the grid is its own bin.
pub bin_start_of_aligned :
    (ts target_ms : ℕ) → ts % target_ms ≡ 0 → 0 < target_ms → bin_start ts target_ms ≡ ts
unfolding bin_start
bin_start_of_aligned ts target_ms h p = grind arith

bin_start_even : (ts target_ms : ℕ) → target_ms % 2 ≡ 0 → bin_start ts target_ms % 2 ≡ 0
unfolding bin_start
bin_start_even ts target_ms h = omega (arith, ap (λ t. ts / target_ms * t) halves)
  where
    halves : target_ms ≡ target_ms / 2 * 2
    halves = omega arith

set_last-append : {A : Type 0} (out : List A) (x v : A) → set_last (out ++ x ∷ []) v ≡ out ++ v ∷ []
set_last-append [] x v = refl
set_last-append (y ∷ []) x v = refl
set_last-append (y ∷ z ∷ out) x v = ap (λ t. y ∷ t) (set_last-append (z ∷ out) x v)

pub same_start : (b c : ℕ) → (b == c) ≡ true → b ≡ c
same_start b c h = ground arith

-- What the tool is run with: a positive target on whole ticks, whose grid the wire clock starts on.
pub record OnGrid {H : Type 0} {w : Wire H} (laws : IsWire w) (target_ms : ℕ) : Type 0 where
  pub positive : 0 < target_ms
  pub even : target_ms % 2 ≡ 0
  pub origin : laws.epoch_ms % target_ms ≡ 0

module _ {H F : Type 0} (w : Wire H) (laws : IsWire w) (target_ms : ℕ)
    (grid : OnGrid laws target_ms) where
  -- The bin of a record's time.
  abbrev pub bin_of : IndexRecord H F → ℕ
  bin_of r = bin_start (ts_of w r) target_ms

  pub bin-fits : (r : IndexRecord H F) → w.from_epoch_ms (bin_of r) < 2 ^ 48
  bin-fits r = omega (
    arith,
    laws.from_mono _ _ (bin_start-le (ts_of w r) target_ms),
    laws.from-to-le (w.get_timestamp r.header),
    laws.timestamp_fits r.header,
  )

  epoch-le-bin : (r : IndexRecord H F) → laws.epoch_ms ≤ bin_of r
  epoch-le-bin r = omega (
    arith,
    bin_start_of_aligned laws.epoch_ms target_ms grid.origin grid.positive,
    bin_start_mono laws.epoch_ms (ts_of w r) target_ms (laws.epoch-le (w.get_timestamp r.header)),
  )

  pub to-from_bin : (r : IndexRecord H F) → w.to_epoch_ms (w.from_epoch_ms (bin_of r)) ≡ bin_of r
  to-from_bin r = laws.to-from _ (epoch-le-bin r) (bin_start_even (ts_of w r) target_ms grid.even)

  -- The stamp of a bin decodes to the start of that bin.
  pub ts-stamp : (r : IndexRecord H F) → ts_of w (stamp w r (bin_of r)) ≡ bin_of r
  unfolding stamp
  ts-stamp r = ap w.to_epoch_ms (laws.get-set_timestamp r.header _ (bin-fits r)) ∙ to-from_bin r

  pub stamp_again : (r : IndexRecord H F) (b : ℕ) → stamp w (stamp w r b) b ≡ stamp w r b
  unfolding stamp
  stamp_again r b = simp (laws.set-set_timestamp, bit_or-bit_or_self)

  -- The rows for `r` and the records after it: a record gives a row if the next one has another bin.
  pub runs : IndexRecord H F → List (IndexRecord H F) → List (IndexRecord H F)
  runs r [] = stamp w r (bin_of r) ∷ []
  runs r (s ∷ rs) =
      let rest = runs s rs in if bin_of r == bin_of s then rest else stamp w r (bin_of r) ∷ rest

  pub runs-nil : (r : IndexRecord H F) → runs r [] ≡ stamp w r (bin_of r) ∷ []
  unfolding runs
  runs-nil r = refl

  pub runs_same :
      (r s : IndexRecord H F) (rs : List (IndexRecord H F))
      → (bin_of r == bin_of s) ≡ true
      → runs r (s ∷ rs) ≡ runs s rs
  unfolding runs
  runs_same r s rs h = rw h

  pub runs_other :
      (r s : IndexRecord H F) (rs : List (IndexRecord H F))
      → (bin_of r == bin_of s) ≡ false
      → runs r (s ∷ rs) ≡ stamp w r (bin_of r) ∷ runs s rs
  unfolding runs
  runs_other r s rs h = rw h

  loop-eq-runs :
      (out : List (IndexRecord H F)) (r : IndexRecord H F) (rs : List (IndexRecord H F))
      → bucket_loop w target_ms (out ++ stamp w r (bin_of r) ∷ []) (some (bin_of r)) rs
        ≡ out ++ runs r rs
  unfolding bucket_loop
  loop-eq-runs out r [] = rw runs-nil
  loop-eq-runs out r (s ∷ rs) = elim (Bool-cases (bin_of r == bin_of s)) [
    | inl same ↦
        rw (runs_same r s rs same, same, set_last-append out (stamp w r (bin_of r)))
          (loop-eq-runs out s rs)
    | inr other ↦
        rw (runs_other r s rs other, other, loop-eq-runs (out ++ stamp w r (bin_of r) ∷ []) s rs)
          (append_assoc out _ _)
  ]

  -- The loop pushes the first record's row and runs on from it.
  pub resample-eq-runs :
      (r : IndexRecord H F) (rs : List (IndexRecord H F))
      → resample_last_in_bucket w (r ∷ rs) target_ms ≡ runs r rs
  unfolding resample_last_in_bucket
  resample-eq-runs r rs = loop-eq-runs [] r rs

-- Records in ascending order of time, none before `lo`: the order of a shard on disk.
abbrev pub AscendingFrom : {H F : Type 0} → Wire H → ℕ → List (IndexRecord H F) → Type 0
AscendingFrom w lo [] = Unit
AscendingFrom w lo (r ∷ rs) = (lo ≤ ts_of w r) × AscendingFrom w (ts_of w r) rs

-- Each record later than the one before it.
abbrev pub IncreasingFrom : {H F : Type 0} → Wire H → ℕ → List (IndexRecord H F) → Type 0
IncreasingFrom w lo [] = Unit
IncreasingFrom w lo (r ∷ rs) = (lo ≤ ts_of w r) × IncreasingFrom w (suc (ts_of w r)) rs
