-- ===== src/Tests/Calibrate.antt =====
-- The theorems about src/bin/nxr_calibrate.rs at concrete inputs: a file is a text, and an outcome is
-- the new one.
use series_factory.Prelude.{
  ◌≡◌, refl, arith, ℕ, String, true, false, Option, none, some, List, [], ◌∷◌,
}
use series_factory.Calibrate.Weights.{Staged, WeightsFile, apply_all}
use series_factory.Calibrate.Weights.Failures.{failures, failures-apply_all}
use series_factory.Calibrate.Store.{ParamsStore, Format, Luck, Call, updating, staging, run}
use series_factory.Calibrate.Store.Queued.{view, spec_run, results, run-spec_run}

abbrev texts : Format String String
texts = record { parse = λ s. some s; print = λ s. s; fresh = ""; apply = λ s w. s }

abbrev opened : ParamsStore String
opened = record { file = some "z"; pending = []; last_write = 0; flush_every = 60 }

-- Two outcomes are queued, an update fails at the lock, and a later one is written.
abbrev calls : List (Luck × Call texts)
calls =
    (record { now = 1; locked = true; writable = true }, staging "a")
    ∷ (record { now = 2; locked = false; writable = true }, updating (λ w. "lost"))
    ∷ (record { now = 3; locked = true; writable = true }, updating (λ w. "u"))
    ∷ (record { now = 4; locked = true; writable = true }, staging "b")
    ∷ []

run-spec_run_example :
    view texts (run texts calls opened)
    ≡ some (spec_run texts calls (results texts calls opened) "z")
run-spec_run_example = run-spec_run texts (λ w. refl) calls opened "z" refl

-- Two failures behind a success, with a skip between them and another ticker's failure.
abbrev outcome : String → Option ℕ → Option String → Staged ℕ
outcome key k skip = record {
  id_key = key;
  k_ok = k;
  error = none;
  skip = skip;
  count_in_run = false;
  now = 1;
}

abbrev outcomes : List (Staged ℕ)
outcomes =
    outcome "7" none none
    ∷ outcome "7" (some 3) none
    ∷ outcome "7" none none
    ∷ outcome "8" none none
    ∷ outcome "7" none (some "no shards")
    ∷ outcome "7" none none
    ∷ []

abbrev no_weights : WeightsFile ℕ ℕ
no_weights = record { renko_k_staged = []; calibration_status = []; last_run = none; other = 0 }

failures-apply_all_example : failures "7" (apply_all 255 outcomes no_weights) ≡ 2
failures-apply_all_example = failures-apply_all "7" 255 outcomes no_weights (omega arith)
