-- ===== src/Resample/Run.antt =====
-- `main` and `collect_shards` of src/bin/resample_idx.rs. The shards are processed one after the other
-- here, in the collected order: rayon runs them at once, and each touches files of its own only. The
-- CSV file, the log and a panic inside a shard are not modelled.
pub mod Live
use text.Mathlib.Text.{◌==◌ as str_eq}
use series_factory.Prelude.{
  ℕ, ◌-◌, ◌/◌, ◌%◌, String, Bool, true, false, not, ◌&&◌, ◌||◌, Option, none, some, List, [], ◌∷◌,
  ◌++◌, length, filter, is_empty, ltb, ◌==◌, if◌then◌else◌,
}
use series_factory.Prelude.Sort.{sort_by}
use series_factory.Prelude.Parse.{parse_u64}
use series_factory.Prelude.Outcome.{Outcome, ok, err}
use series_factory.Mitch.{IndexRecord, Wire}
use series_factory.Files.{FilePath, World, Io, done, fault, ShardIo}
use series_factory.Resample.Shard.{Args, ShardRef, ShardReport, error, err_report, resample_shard}

pub data ArgError : Type 0 where
  commit_with_dry_run zero_cadence not_multiple factor_too_small no_shards : ArgError

-- The checks at the start of `main`; the result is the factor.
unfoldable pub validate : Args → Outcome ArgError ℕ
validate args =
    if args.commit && args.dry_run
    then err commit_with_dry_run
    else if args.target_ms == 0 || args.source_ms == 0
    then err zero_cadence
    else if not (args.target_ms % args.source_ms == 0)
    then err not_multiple
    else if ltb (args.target_ms / args.source_ms) 2
    then err factor_too_small
    else ok (args.target_ms / args.source_ms)

-- An entry of the input directory, with what `list_shards` finds below it. `D` is `NaiveDate`.
pub record DirEntry (D : Type 0) : Type 0 where
  pub name : String
  pub is_dir : Bool
  pub shards : List (D × FilePath)

-- `Option::is_err` of the parse, and `only`.
abbrev pub is_ticker : String → Bool
is_ticker name = elim (parse_u64 name) [ none ↦ false | some n ↦ true ]

abbrev pub wanted : Option String → String → Bool
wanted none ticker = true
wanted (some f) ticker = str_eq ticker f

-- `before d today` is `!(date >= today)`.
module _ {D : Type 0} (before : D → D → Bool) (date_stem : D → String) where
  abbrev pub closed_shards : String → D → List (D × FilePath) → List ShardRef
  closed_shards ticker today [] = []
  closed_shards ticker today ((date, path) ∷ rest) =
      let more = closed_shards ticker today rest in
      if before date today
      then record { ticker = ticker; date = date_stem date; path = path } ∷ more
      else more

  abbrev pub scan : D → Option String → List (DirEntry D) → List ShardRef
  scan today only [] = []
  scan today only (e ∷ es) =
      (if e.is_dir && (is_ticker e.name && wanted only e.name)
        then closed_shards e.name today e.shards
        else [])
      ++ scan today only es

  -- `le` is the order of the pairs of strings (ticker, date).
  unfoldable pub collect_shards :
      (ShardRef → ShardRef → Bool) → D → Option String → List (DirEntry D) → List ShardRef
  collect_shards le today only entries = sort_by le (scan today only entries)

abbrev pub report_of : ShardRef → Io ShardReport → ShardReport
report_of sh (done r) = r
report_of sh (fault e) = err_report sh (error e)

module _ {H F : Type 0} (w : Wire H) (io : ShardIo (IndexRecord H F)) (median : List ℕ → ℕ) where
  -- An error ends its own shard only.
  unfoldable pub resample_all :
      Args → List ShardRef → World (IndexRecord H F) → List ShardReport × World (IndexRecord H F)
  resample_all args [] d = ([], d)
  resample_all args (sh ∷ shards) d =
      let (r, d') = resample_shard w io median sh args d in
      let (reports, d'') = resample_all args shards d' in (report_of sh r ∷ reports, d'')

  -- The exit status of the process beside the reports.
  abbrev pub exit_status : List ShardReport → ℕ
  exit_status reports =
      let passed = length (filter (λ r. r.invariants_passed) reports) in
      if ltb 0 (length reports - passed) then 2 else 0

  -- A refused run leaves the world as it was, `d`; any other leaves `d'`.
  abbrev pub finish :
      Outcome ArgError ℕ
      → Bool
      → List ShardReport
      → World (IndexRecord H F)
      → World (IndexRecord H F)
      → Outcome ArgError (ℕ × List ShardReport) × World (IndexRecord H F)
  finish (err e) none_found reports d d' = (err e, d)
  finish (ok factor) true reports d d' = (err no_shards, d)
  finish (ok factor) false reports d d' = (ok (exit_status reports, reports), d')

  unfoldable pub run :
      {D : Type 0}
      → (D → D → Bool)
      → (D → String)
      → (ShardRef → ShardRef → Bool)
      → D
      → List (DirEntry D)
      → Args
      → World (IndexRecord H F)
      → Outcome ArgError (ℕ × List ShardReport) × World (IndexRecord H F)
  unfolding validate collect_shards resample_all
  run before date_stem le today entries args d =
      let shards = collect_shards before date_stem le today args.ticker entries in
      let (reports, d') = resample_all args shards d in
      finish (validate args) (is_empty shards) reports d d'
