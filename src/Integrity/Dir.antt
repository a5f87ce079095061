-- ===== src/Integrity/Dir.antt =====
-- `collect_files`, `check_dir` and the exit of `main` over a directory, of src/bin/integrity_check.rs. `P` is the
-- type of messages, `T` that of the derived figures.
pub mod Exit
use text.Mathlib.Text.{◌==◌ as str_eq}
use series_factory.Prelude.{
  ℕ, suc, ◌+◌, max, String, Bool, true, false, not, ◌&&◌, ◌||◌, Option, none, some, List, [], ◌∷◌,
  ◌++◌, map, any, is_empty, ltb, if◌then◌else◌,
}
use series_factory.Prelude.Outcome.{Outcome, ok, err}
use series_factory.Prelude.Sort.{sort_by}
use series_factory.Integrity.File.{Finding, FileReport, exit_code}
use series_factory.Integrity.Orphan.{Entry, OrphanBakFinding, scan_orphaned_bak}

-- A path with its extension and the date that its stem parses to.
pub record FileName : Type 0 where
  pub path : String
  pub ext : Option String
  pub date : Option ℕ

mutual
  pub data Node : Type 0 where
    file : FileName → Node
    -- A directory that cannot be read has no entries.
    dir : Nodes → Node

  pub data Nodes : Type 0 where
    nil : Nodes
    cons : Node → Nodes → Nodes

abbrev pub is_checked : String → Bool
is_checked ext =
    str_eq ext "idx"
    || (str_eq ext "bars" || (str_eq ext "s10" || (str_eq ext "vol" || str_eq ext "renko")))

abbrev pub has_checked_ext : Option String → Bool
has_checked_ext none = false
has_checked_ext (some ext) = is_checked ext

-- A shard that is dated before the cutoff is left out.
abbrev pub is_old : Option ℕ → Option ℕ → Bool
is_old none date = false
is_old (some cutoff) none = false
is_old (some cutoff) (some d) = ltb d cutoff

abbrev pub is_collected : Option ℕ → FileName → Bool
is_collected since f = has_checked_ext f.ext && not (is_old since f.date)

unfoldable mutual
  pub walk : Option ℕ → Node → List FileName
  walk since (file f) = if is_collected since f then f ∷ [] else []
  walk since (dir nodes) = walk_all since nodes

  pub walk_all : Option ℕ → Nodes → List FileName
  walk_all since nil = []
  walk_all since (cons n nodes) = walk since n ++ walk_all since nodes

-- `le` is the order of paths.
unfoldable pub collect_files : (FileName → FileName → Bool) → Option ℕ → Nodes → List FileName
unfolding walk walk_all
collect_files le since nodes = sort_by le (walk_all since nodes)

pub record AggregateSummary : Type 0 where
  pub n_files : ℕ
  pub n_clean : ℕ
  pub n_with_errors : ℕ
  pub n_with_warnings : ℕ
  pub total_records : ℕ
  pub total_bytes : ℕ

pub record SizedReport (P T : Type 0) : Type 0 where
  pub report : FileReport P T
  pub bytes : ℕ

pub record AggregateReport (P T : Type 0) : Type 0 where
  pub files : List (SizedReport P T)
  pub summary : AggregateSummary
  pub orphaned_bak : List OrphanBakFinding

abbrev pub no_files : ℕ → AggregateSummary
no_files n = record {
  n_files = n;
  n_clean = 0;
  n_with_errors = 0;
  n_with_warnings = 0;
  total_records = 0;
  total_bytes = 0;
}

-- check_idx, check_bars (for .bars and .renko), check_s10 and check_vol
pub record Checks (E P T : Type 0) : Type 0 where
  pub idx : FileName → Outcome (Option E) (SizedReport P T)
  pub bars : FileName → Outcome (Option E) (SizedReport P T)
  pub s10 : FileName → Outcome (Option E) (SizedReport P T)
  pub vol : FileName → Outcome (Option E) (SizedReport P T)

abbrev pub ext_of : Option String → String
ext_of none = ""
ext_of (some ext) = ext

abbrev pub unhealed : List OrphanBakFinding → Bool
unhealed = any (λ o. not o.promoted)

module _ {P T : Type 0} where
  abbrev pub count_report : AggregateSummary → FileReport P T → AggregateSummary
  count_report s r =
      if not (is_empty r.log.errors)
      then record s { n_with_errors = s.n_with_errors + 1 }
      else if not (is_empty r.log.warnings)
      then record s { n_with_warnings = s.n_with_warnings + 1 }
      else record s { n_clean = s.n_clean + 1 }

  abbrev pub add_report : AggregateSummary → SizedReport P T → AggregateSummary
  add_report s r =
      count_report
        (record s {
          total_records = s.total_records + r.report.records;
          total_bytes = s.total_bytes + r.bytes;
        })
        r.report

  abbrev pub summarize : AggregateSummary → List (SizedReport P T) → AggregateSummary
  summarize s [] = s
  summarize s (r ∷ reports) = summarize (add_report s r) reports

  abbrev pub length_of : List (SizedReport P T) → ℕ
  length_of [] = 0
  length_of (r ∷ reports) = suc (length_of reports)

  -- A check that fails gives a report with that error. `none` is an extension that no check handles.
  module _ {E : Type 0} (failed : Option E → P) where
    abbrev pub of_check : Outcome (Option E) (SizedReport P T) → SizedReport P T
    of_check (ok r) = r
    of_check (err e) = record {
      report = record {
        records = 0;
        log = record { errors = record { record_ix = none; msg = failed e } ∷ []; warnings = [] };
        stats = none;
      };
      bytes = 0;
    }

    abbrev pub check_ext : Checks E P T → String → FileName → Outcome (Option E) (SizedReport P T)
    check_ext c ext f =
        if str_eq ext "idx"
        then c.idx f
        else if str_eq ext "bars"
        then c.bars f
        else if str_eq ext "s10"
        then c.s10 f
        else if str_eq ext "renko"
        then c.bars f
        else if str_eq ext "vol"
        then c.vol f
        else err none

    abbrev pub check_file : Checks E P T → FileName → SizedReport P T
    check_file c f = of_check (check_ext c (ext_of f.ext) f)

    -- The scan for orphans comes between the collection and the checks.
    unfoldable pub check_dir :
        {C : Type 0}
        → Checks E P T
        → (FileName → FileName → Bool)
        → Option ℕ
        → Nodes
        → Bool
        → Option (List (Entry C))
        → AggregateReport P T
    check_dir c le since nodes heal live =
        let files = map (check_file c) (collect_files le since nodes) in
        record {
          files = files;
          summary = summarize (no_files (length_of files)) files;
          orphaned_bak = (scan_orphaned_bak heal live).1;
        }

  abbrev pub reports_of : List (SizedReport P T) → List (FileReport P T)
  reports_of = map (λ (r : SizedReport P T). r.report)

  -- The exit code of `main` over a directory.
  unfoldable pub dir_exit : AggregateReport P T → Bool → ℕ
  dir_exit agg strict =
      max (exit_code (reports_of agg.files) strict) (if unhealed agg.orphaned_bak then 2 else 0)
