-- ===== src/Integrity/File.antt =====
-- `validate_file` and `exit_code` of src/bin/integrity_check.rs. A file is torn where its size is no multiple of
-- the record's. `P` is the type of messages, `T` that of the derived figures.
pub mod Clean
use series_factory.Prelude.{
  ℕ, suc, Bool, not, ◌&&◌, Option, none, some, List, [], ◌∷◌, ◌++◌, length, is_empty, any,
  if◌then◌else◌,
}

pub record Finding (P : Type 0) : Type 0 where
  pub record_ix : Option ℕ
  pub msg : P

-- What the checks push.
pub record Log (P : Type 0) : Type 0 where
  pub errors : List (Finding P)
  pub warnings : List (Finding P)

pub record FileReport (P T : Type 0) : Type 0 where
  pub records : ℕ
  pub log : Log P
  pub stats : Option T

pub data Content (R : Type 0) : Type 0 where
  torn : ℕ → Content R
  whole : List R → Content R

abbrev pub no_log : {P : Type 0} → Log P
no_log = record { errors = []; warnings = [] }

-- What is pushed where a test holds at row `i`, in the order of the tests.
abbrev pub flags : {P : Type 0} → ℕ → List (Bool × P) → List (Finding P)
flags i [] = []
flags i ((found, msg) ∷ tests) =
    let rest = flags i tests in
    if found then record { record_ix = some i; msg = msg } ∷ rest else rest

abbrev pub push_all : {P : Type 0} → Log P → Log P → Log P
push_all log new = record {
  errors = log.errors ++ new.errors;
  warnings = log.warnings ++ new.warnings;
}

module _ {R S P : Type 0} (body : S → ℕ → R → S × Log P) where
  -- The loop; `body` gives the new state and what it pushes.
  abbrev pub each_record : S → ℕ → List R → Log P → S × Log P
  each_record s i [] log = (s, log)
  each_record s i (r ∷ rows) log =
      let (s', new) = body s i r in each_record s' (suc i) rows (push_all log new)

  -- `finish` sees the last state, and may push as well.
  abbrev pub close : {T : Type 0} → ℕ → (S → ℕ → Option T × Log P) → S × Log P → FileReport P T
  close n finish (s, log) =
      let (stats, new) = finish s n in record { records = n; log = push_all log new; stats = stats }

  unfoldable pub validate_file :
      {T : Type 0} → P → S → (S → ℕ → Option T × Log P) → Content R → FileReport P T
  validate_file truncated start finish (torn n) = record {
    records = n;
    log = record { errors = record { record_ix = none; msg = truncated } ∷ []; warnings = [] };
    stats = none;
  }
  validate_file truncated start finish (whole []) = record {
    records = 0;
    log = no_log;
    stats = none;
  }
  validate_file truncated start finish (whole (r ∷ rows)) =
      close (length (r ∷ rows)) finish (each_record start 0 (r ∷ rows) no_log)

module _ {P T : Type 0} where
  -- FileReport::clean and FileReport::ok
  abbrev pub clean : FileReport P T → Bool
  clean r = is_empty r.log.errors

  abbrev pub no_findings : FileReport P T → Bool
  no_findings r = is_empty r.log.errors && is_empty r.log.warnings

  unfoldable pub exit_code : List (FileReport P T) → Bool → ℕ
  exit_code reports strict =
      if any (λ (r : FileReport P T). not (clean r)) reports
      then 2
      else if any (λ (r : FileReport P T). not (no_findings r)) reports
      then (if strict then 2 else 1)
      else 0
