-- ===== src/Calibrate/Weights.antt =====
-- `Staged` of src/bin/nxr_calibrate.rs and the fields of `WeightsFile` that it changes. `K` is the type of
-- f64 values; `other` stands for the fields of the `nxr_sdk` crate that stay as they are. A `BTreeMap` is an
-- association list.
pub mod Failures
use text.Mathlib.Text.{◌==◌ as str_eq}
use series_factory.Prelude.{
  ℕ, suc, min, String, Bool, Option, none, some, List, [], ◌∷◌, if◌then◌else◌,
}

pub record Status : Type 0 where
  pub last_attempt : Option ℕ
  pub last_success : Option ℕ
  pub consecutive_failures : ℕ
  pub last_error : Option String
  pub last_skip_reason : Option String

pub record LastRun : Type 0 where
  pub tickers_attempted : ℕ
  pub tickers_succeeded : ℕ

pub record WeightsFile (K X : Type 0) : Type 0 where
  pub renko_k_staged : List (String × K)
  pub calibration_status : List (String × Status)
  pub last_run : Option LastRun
  pub other : X

pub record Staged (K : Type 0) : Type 0 where
  pub id_key : String
  pub k_ok : Option K
  pub error : Option String
  pub skip : Option String
  pub count_in_run : Bool
  pub now : ℕ

abbrev pub no_status : Status
no_status = record {
  last_attempt = none;
  last_success = none;
  consecutive_failures = 0;
  last_error = none;
  last_skip_reason = none;
}

module _ {V : Type 0} where
  abbrev pub insert : String → V → List (String × V) → List (String × V)
  insert k v [] = (k, v) ∷ []
  insert k v ((j, w) ∷ m) =
      let rest = (j, w) ∷ insert k v m in if str_eq j k then (k, v) ∷ m else rest

  abbrev pub lookup_or : V → String → List (String × V) → V
  lookup_or d k [] = d
  lookup_or d k ((j, w) ∷ m) = let rest = lookup_or d k m in if str_eq j k then w else rest

-- `most` is the largest number of failures that the field holds.
module _ (most : ℕ) where
  abbrev pub after_error : Option String → Status → Status
  after_error e st = record st {
    consecutive_failures = min (suc st.consecutive_failures) most;
    last_error = e;
  }

  abbrev pub after_skip : Option String → Option String → Status → Status
  after_skip e none st = after_error e st
  after_skip e (some reason) st = record st { last_skip_reason = some reason }

module _ {K : Type 0} (most : ℕ) where
  abbrev pub after_attempt : Staged K → Option K → Status → Status
  after_attempt s none st = after_skip most s.error s.skip (record st { last_attempt = some s.now })
  after_attempt s (some k) st = record st {
    last_attempt = some s.now;
    last_success = some s.now;
    consecutive_failures = 0;
    last_error = none;
    last_skip_reason = none;
  }

  abbrev pub stage_k : String → Option K → List (String × K) → List (String × K)
  stage_k key none staged = staged
  stage_k key (some k) staged = insert key k staged

  abbrev pub succeeded : Option K → ℕ → ℕ
  succeeded none n = n
  succeeded (some k) n = suc n

  abbrev pub count_run : Option K → Option LastRun → Option LastRun
  count_run k none = none
  count_run k (some r) = some (record {
    tickers_attempted = suc r.tickers_attempted;
    tickers_succeeded = succeeded k r.tickers_succeeded;
  })

  unfoldable pub apply : {X : Type 0} → Staged K → WeightsFile K X → WeightsFile K X
  apply s w = record w {
    renko_k_staged = stage_k s.id_key s.k_ok w.renko_k_staged;
    calibration_status =
        insert s.id_key (after_attempt s s.k_ok (lookup_or no_status s.id_key w.calibration_status))
          w.calibration_status;
    last_run = if s.count_in_run then count_run s.k_ok w.last_run else w.last_run;
  }

  unfoldable pub apply_all : {X : Type 0} → List (Staged K) → WeightsFile K X → WeightsFile K X
  apply_all [] w = w
  apply_all (s ∷ queue) w = apply_all queue (apply s w)
