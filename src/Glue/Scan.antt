-- ===== src/Glue/Scan.antt =====
-- The scan over the records of all shards in `check_sharded` of src/bin/glue_check.rs. `P` is the type
-- of shard paths and `R` that of records.
pub mod Flat
pub mod Gaps
use series_factory.Prelude.{
  ℕ, suc, ◌+◌, Bool, true, false, Option, none, some, List, [], ◌∷◌, if◌then◌else◌,
}
use series_factory.Prelude.Int.{ℤ, pos, ◌+ℤ◌, ◌-ℤ◌, ltb_ℤ}
use series_factory.Prelude.Outcome.{Outcome, ok, err}
use series_factory.Glue.Report.{Failure}

-- `list_shards`, `read_shard_aligned` and `shard_ts_ms` of `nxr_sdk`, and its sentinel interval.
pub record Store (P R : Type 0) : Type 0 where
  pub list_shards : ℕ → Outcome Failure (List (ℕ × P))
  pub read_shard_aligned : P → Outcome Failure (List R)
  pub shard_ts_ms : R → ℤ
  pub sentinel_interval_ms : ℤ

pub record Scan : Type 0 where
  pub prev_ts : Option ℤ
  pub max_gap : ℤ
  pub gap_violations : ℕ
  pub monotone_violation_ix : Option ℕ
  pub global_ix : ℕ
  pub total_records : ℕ

abbrev pub start : Scan
start = record {
  prev_ts = none;
  max_gap = pos 0;
  gap_violations = 0;
  monotone_violation_ix = none;
  global_ix = 0;
  total_records = 0;
}

-- scope.cutoff_ms.is_some_and(|c| t < c)
abbrev pub before_cutoff : Option ℤ → ℤ → Bool
before_cutoff none t = false
before_cutoff (some c) t = ltb_ℤ t c

abbrev pub is_some : {A : Type 0} → Option A → Bool
is_some none = false
is_some (some a) = true

-- Whether the loop goes on.
pub data Flow : Type 0 where
  go : Scan → Flow
  halt : Scan → Flow

abbrev pub advance : ℤ → Scan → Scan
advance t s = record s {
  prev_ts = some t;
  global_ix = suc s.global_ix;
  total_records = suc s.total_records;
}

-- The gap `dt` in front of the record at `t`.
abbrev pub note_gap : ℤ → ℤ → Scan → Scan
note_gap gap_ms dt s = record s {
  max_gap = if ltb_ℤ s.max_gap dt then dt else s.max_gap;
  gap_violations = if ltb_ℤ gap_ms dt then suc s.gap_violations else s.gap_violations;
}

abbrev pub visit_gap : ℤ → ℤ → ℤ → Scan → Flow
visit_gap gap_ms t dt s =
    if ltb_ℤ dt (pos 0)
    then halt (record s { monotone_violation_ix = some s.global_ix })
    else go (advance t (note_gap gap_ms dt s))

abbrev pub visit_next : ℤ → ℤ → Option ℤ → Scan → Flow
visit_next gap_ms t none s = go (advance t s)
visit_next gap_ms t (some p) s = visit_gap gap_ms t (t -ℤ p) s

abbrev pub visit : ℤ → Option ℤ → ℤ → Scan → Flow
visit gap_ms cutoff t s = if before_cutoff cutoff t then go s else visit_next gap_ms t s.prev_ts s

abbrev pub proceed : (Scan → Scan) → Flow → Scan
proceed f (go s) = f s
proceed f (halt s) = s

module _ {P R : Type 0} (store : Store P R) where
  -- SHARDED_GAP_MS
  abbrev pub sharded_gap_ms : ℤ
  sharded_gap_ms = store.sentinel_interval_ms +ℤ pos 30000

  abbrev pub scan_records : Option ℤ → List R → Scan → Scan
  scan_records cutoff [] s = s
  scan_records cutoff (r ∷ rs) s =
      proceed (scan_records cutoff rs) (visit sharded_gap_ms cutoff (store.shard_ts_ms r) s)

  -- A shard that cannot be read ends the check.
  abbrev pub scan_next : (Scan → Outcome Failure Scan) → Scan → Outcome Failure Scan
  scan_next rest s = if is_some s.monotone_violation_ix then ok s else rest s

  abbrev pub scan_shard :
      Option ℤ
      → (Scan → Outcome Failure Scan)
      → Scan
      → Outcome Failure (List R)
      → Outcome Failure Scan
  scan_shard cutoff rest s (err e) = err e
  scan_shard cutoff rest s (ok recs) = scan_next rest (scan_records cutoff recs s)

  unfoldable pub scan_shards : Option ℤ → List (ℕ × P) → Scan → Outcome Failure Scan
  scan_shards cutoff [] s = ok s
  scan_shards cutoff ((date, path) ∷ shards) s =
      scan_shard cutoff (scan_shards cutoff shards) s (store.read_shard_aligned path)
