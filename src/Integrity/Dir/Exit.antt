-- ===== src/Integrity/Dir/Exit.antt =====
-- The exit code and the summary of a directory, of src/bin/integrity_check.rs.
use series_factory.Prelude.{
  ℕ, suc, ◌+◌, ◌≡◌, refl, ◌∙◌, max, Bool, not, ◌||◌, Option, List, [], ◌∷◌, any, ltb, arith,
  if◌then◌else◌,
}
use series_factory.Integrity.File.{FileReport, clean, no_findings, exit_code}
use series_factory.Integrity.Orphan.{Entry}
use series_factory.Integrity.Dir.{
  FileName, Nodes, AggregateSummary, SizedReport, add_report, summarize, no_files, length_of,
  Checks, unhealed, reports_of, check_dir, dir_exit,
}

with_orphans :
    (a b strict u : Bool)
    → max (if a then 2 else if b then (if strict then 2 else 1) else 0) (if u then 2 else 0)
      ≡ (if a || u then 2 else if b then (if strict then 2 else 1) else 0)
with_orphans a b strict u = ground arith

module _ {P T : Type 0} where
  counted :
      (rs : List (SizedReport P T)) (s : AggregateSummary)
      → (summarize s rs).n_clean + (summarize s rs).n_with_errors + (summarize s rs).n_with_warnings
        ≡ s.n_clean + s.n_with_errors + s.n_with_warnings + length_of rs
  counted [] s = omega arith
  counted (r ∷ rs) s = counted rs (add_report s r) ∙ one
    where
      one :
          (add_report s r).n_clean
            + (add_report s r).n_with_errors
            + (add_report s r).n_with_warnings
            + length_of rs
          ≡ s.n_clean + s.n_with_errors + s.n_with_warnings + suc (length_of rs)
      one = ground arith

  errors_counted :
      (rs : List (SizedReport P T)) (s : AggregateSummary)
      → ltb 0 (summarize s rs).n_with_errors
        ≡ (ltb 0 s.n_with_errors || any (λ (r : FileReport P T). not (clean r)) (reports_of rs))
  errors_counted [] s = ground arith
  errors_counted (r ∷ rs) s = errors_counted rs (add_report s r) ∙ ground arith

  -- A report with a finding has an error, or is counted under warnings.
  findings_counted :
      (rs : List (SizedReport P T)) (s : AggregateSummary)
      → (ltb 0 (summarize s rs).n_with_errors || ltb 0 (summarize s rs).n_with_warnings) ≡ (
          ltb 0 s.n_with_errors
          || (ltb 0 s.n_with_warnings
              || any (λ (r : FileReport P T). not (no_findings r)) (reports_of rs)))
  findings_counted [] s = ground arith
  findings_counted (r ∷ rs) s = findings_counted rs (add_report s r) ∙ ground arith

  exit_counted :
      (rs : List (SizedReport P T)) (n : ℕ) (strict : Bool)
      → exit_code (reports_of rs) strict ≡ (
          if ltb 0 (summarize (no_files n) rs).n_with_errors
          then 2
          else if ltb 0 (summarize (no_files n) rs).n_with_warnings
          then (if strict then 2 else 1)
          else 0)
  unfolding exit_code
  exit_counted rs n strict =
      ground (arith, errors_counted rs (no_files n), findings_counted rs (no_files n))

  files_kept :
      (rs : List (SizedReport P T)) (s : AggregateSummary) → (summarize s rs).n_files ≡ s.n_files
  files_kept [] s = refl
  files_kept (r ∷ rs) s = files_kept rs (add_report s r) ∙ ground arith

  -- The summary of a directory counts each file once: as clean, with errors, or with warnings alone. The exit code
  -- is 2 where a file has errors or an orphan is not promoted, and under strict where a file has warnings; else 1
  -- where a file has warnings; else 0.
  pub dir_exit-check_dir :
      {E C : Type 0} (failed : Option E → P) (c : Checks E P T) (le : FileName → FileName → Bool)
      (since : Option ℕ) (nodes : Nodes) (heal : Bool) (live : Option (List (Entry C)))
      (strict : Bool)
      → let agg = check_dir failed c le since nodes heal live in
        (agg.summary.n_clean + agg.summary.n_with_errors + agg.summary.n_with_warnings
          ≡ agg.summary.n_files)
        × (dir_exit agg strict ≡ (
            if ltb 0 agg.summary.n_with_errors || unhealed agg.orphaned_bak
            then 2
            else if ltb 0 agg.summary.n_with_warnings
            then (if strict then 2 else 1)
            else 0))
  unfolding check_dir dir_exit
  dir_exit-check_dir failed c le since nodes heal live strict =
      let files = (check_dir failed c le since nodes heal live).files in
      let n = length_of files in
      (
        omega (arith, counted files (no_files n), files_kept files (no_files n)),
        rw (exit_counted files n strict) (with_orphans _ _ strict _),
      )
