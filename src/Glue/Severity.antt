-- ===== src/Glue/Severity.antt =====
-- `Severity`, `severity` and `exit_code` of src/bin/glue_check.rs.
use text.Mathlib.Text.{◌==◌ as str_eq}
use series_factory.Prelude.{ℕ, String, Bool, true, false, ◌&&◌, ◌||◌, ltb, if◌then◌else◌}

pub data Severity : Type 0 where
  pass warn error : Severity

abbrev pub is_pass : Severity → Bool
is_pass pass = true
is_pass s = false

abbrev pub is_warn : Severity → Bool
is_warn warn = true
is_warn s = false

abbrev pub is_error : Severity → Bool
is_error error = true
is_error s = false

-- A status that is none of these is an error.
unfoldable pub severity : String → Severity
severity status =
    if str_eq status "ok"
    then pass
    else if str_eq status "composed"
    then pass
    else if str_eq status "empty"
        || (str_eq status "missing_live"
            || (str_eq status "gap"
                || (str_eq status "missing_shards" || str_eq status "insufficient_samples")))
    then warn
    else error

unfoldable pub exit_code : ℕ → ℕ → Bool → ℕ
exit_code errored warned strict =
    if ltb 0 errored || (strict && ltb 0 warned) then 2 else if ltb 0 warned then 1 else 0
