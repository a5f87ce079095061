-- ===== src/Onchain/Days.antt =====
-- `validate_range`, `precheck` and `write_days` of src/bin/onchain_backfill.rs. A file is a list of bytes `U`; `R`
-- is the type of records, `J` that of JSON values and `M` that of manifests.
pub mod Checked
pub mod Kept
use Prim.Native.String.{◌++◌ as str_append}
use series_factory.Prelude.{
  ℕ, zero, suc, ◌+◌, ◌-◌, String, Bool, true, false, not, ◌&&◌, Option, none, some, List, [], ◌∷◌,
  filter, map, any, is_empty, length, ltb, leb, ◌==◌, if◌then◌else◌,
}
use series_factory.Files.{
  FilePath, Files, World, Io, done, fault, refused, not_found, Action, remove_file, spend,
}
use series_factory.Sharding.Entry.{ShardEntry, Layout, shard_entry_for_idx}
use series_factory.Onchain.Staged.{Run, ◌>>=◌, ◌>>◌, pure, lift, of_io, put, commit, dropping}

-- What the file system says of directories at one moment.
pub record Look : Type 0 where
  pub is_symlink : String → Bool
  pub exists : String → Bool
  pub canonicalize : String → Io String

-- The paths and calls of `nxr_sdk::shard`, `std`, `chrono` and `serde_json`.
pub record Host (U R J M : Type 0) : Type 0 where
  pub layout : Layout U R
  pub join : String → String → String
  pub starts_with : String → String → Bool
  pub idx_dir : String → ℕ → String
  pub shard_path : String → ℕ → FilePath
  pub manifest_path : String → FilePath
  pub day_start_ms : ℕ → ℕ
  pub ms_per_day : ℕ
  -- NaiveDate::MAX, behind which `succ_opt` has no day
  pub max_date : ℕ
  pub list_shards : String → Action U (List (ℕ × FilePath))
  pub create_dir_all : String → Action U (Unit {0})
  pub acquire_idx_writer_lock : String → Action U (Unit {0})
  pub read : FilePath → Action U (List U)
  pub write_manifest : FilePath → M → Action U (Unit {0})
  -- Manifest::new with set_shards_batch
  pub manifest : String → ℕ → List ShardEntry → M
  pub to_value : ShardEntry → Io J
  pub to_string_pretty : J → Io (List U)
  -- The suffix of a staged file: the target's own, the process and the instant.
  pub tmp_suffix : String → ℕ → String

pub record Job (R : Type 0) : Type 0 where
  pub date : ℕ
  pub path : FilePath
  pub rows : List R

-- A day's rows, and the days without any.
pub record Plan (R : Type 0) : Type 0 where
  pub jobs : List (Job R)
  pub skipped : List ℕ

-- The arguments that every step has.
pub record Args : Type 0 where
  pub out_root : String
  pub ticker : String
  pub ticker_id : ℕ
  pub asset : String
  pub from : ℕ
  pub to : ℕ
  pub force : Bool
  pub prune_empty : Bool
  pub today : ℕ

abbrev pub sidecar_path : String → String → FilePath
sidecar_path out_root asset = record {
  dir = out_root;
  stem = str_append "onchain-backfill." asset;
  suffix = "json";
}

-- Whether the range may be built: none of it is today or later.
unfoldable pub validate_range : ℕ → ℕ → ℕ → Bool
validate_range from to today = if leb today to then false else if ltb to from then false else true

-- NotFound is no failure where a shard is pruned.
abbrev pub tolerate : Io (Unit {0}) → Io (Unit {0})
tolerate (done _) = done tt
tolerate (fault not_found) = done tt
tolerate (fault e) = fault e

module _ {U : Type 0} where
  abbrev pub bail : {A : Type 0} → Run U A
  bail st w = (fault refused, st, w)

  abbrev pub guard : Bool → Run U (Unit {0})
  guard ok = if ok then pure tt else bail

  abbrev pub is_some : Option (List U) → Bool
  is_some none = false
  is_some (some bytes) = true

  -- Path::exists
  unfoldable pub exists : FilePath → Run U Bool
  exists p st w = (done (is_some (w.files p)), st, w)

  abbrev pub refuse_path : FilePath → Bool → Run U (Unit {0})
  refuse_path p force = exists p >>= λ there. guard (not (there && not force))

  abbrev pub prune : FilePath → Run U (Unit {0})
  prune p st w = let (r, w') = remove_file p w in (tolerate r, st, w')

module _ {U R J M : Type 0} (host : Host U R J M) where
  -- d.succ_opt()
  abbrev pub step_day : ℕ → Run U (Unit {0})
  step_day d = guard (not (d == host.max_date))

  abbrev pub refuse_days : String → Bool → ℕ → ℕ → Run U (Unit {0})
  refuse_days dir force zero d = pure tt
  refuse_days dir force (suc k) d = do
    refuse_path (host.shard_path dir d) force
    step_day d
    refuse_days dir force k (suc d)

  -- The directory is below the root, and has no shard of today or later.
  abbrev pub check_dir : Look → String → String → ℕ → Run U (Unit {0})
  check_dir look out_root dir today = do
    real ← of_io (look.canonicalize dir)
    root ← of_io (look.canonicalize out_root)
    guard (host.starts_with real root)
    shards ← lift (host.list_shards dir)
    guard (not (any (λ (s : ℕ × FilePath). leb today s.0) shards))

  unfoldable pub precheck : Args → Look → Run U (Unit {0})
  precheck a look = do
    let dir = host.idx_dir a.out_root a.ticker_id
    guard (not (any look.is_symlink (a.out_root ∷ host.join a.out_root "indexes" ∷ dir ∷ [])))
    if look.exists dir then check_dir look a.out_root dir a.today else pure tt
    refuse_days dir a.force (suc a.to - a.from) a.from
    refuse_path (sidecar_path a.out_root a.asset) a.force
    refuse_path (host.manifest_path dir) a.force

  abbrev pub rows_of : List (ℕ × R) → ℕ → List R
  rows_of recs d =
      map (λ (r : ℕ × R). r.1)
        (filter
          (λ (r : ℕ × R).
            leb (host.day_start_ms d) r.0 && ltb r.0 (host.day_start_ms d + host.ms_per_day))
          recs)

  abbrev pub add_day : FilePath → ℕ → List R → Plan R → Plan R
  add_day path d [] p = record p { skipped = d ∷ p.skipped }
  add_day path d (r ∷ rows) p = record p {
    jobs = record { date = d; path = path; rows = r ∷ rows } ∷ p.jobs;
  }

  abbrev pub plan_days : String → List (ℕ × R) → ℕ → ℕ → Run U (Plan R)
  plan_days dir recs zero d = pure (record { jobs = []; skipped = [] })
  plan_days dir recs (suc k) d = do
    step_day d
    p ← plan_days dir recs k (suc d)
    pure (add_day (host.shard_path dir d) d (rows_of recs d) p)

  abbrev pub entry_of : ℕ → FilePath → Run U ShardEntry
  entry_of d p = do bytes ← lift (host.read p); of_io (shard_entry_for_idx host.layout d bytes)

  -- `clock` has the instants that the next calls read, `none` where the clock is before the epoch.
  abbrev pub suffix_at : (ℕ → Io ℕ) → ℕ → FilePath → Io String
  suffix_at clock i p = elim (clock i) [
    | done ns ↦ done (host.tmp_suffix p.suffix ns)
    | fault e ↦ fault e
  ]

  abbrev pub stage_jobs : (ℕ → Io ℕ) → ℕ → List (Job R) → Run U (List (FilePath × J))
  stage_jobs clock i [] = pure []
  stage_jobs clock i (job ∷ jobs) = do
    tmp ← put job.path (suffix_at clock i job.path) (host.layout.to_bytes job.rows)
    entry ← entry_of job.date tmp
    value ← of_io (host.to_value entry)
    rest ← stage_jobs clock (suc i) jobs
    pure ((tmp, value) ∷ rest)

  abbrev pub commit_jobs : List (Job R) → List (FilePath × J) → Run U (List (ℕ × FilePath))
  commit_jobs [] staged = pure []
  commit_jobs (job ∷ jobs) [] = pure []
  commit_jobs (job ∷ jobs) ((tmp, value) ∷ staged) = do
    commit tmp job.path
    rest ← commit_jobs jobs staged
    pure ((job.date, job.path) ∷ rest)

  abbrev pub prune_days : String → List ℕ → Run U (Unit {0})
  prune_days dir [] = pure tt
  prune_days dir (d ∷ days) = do prune (host.shard_path dir d); prune_days dir days

  abbrev pub entries_of : List (ℕ × FilePath) → Run U (List ShardEntry)
  entries_of [] = pure []
  entries_of ((d, p) ∷ shards) = do e ← entry_of d p; es ← entries_of shards; pure (e ∷ es)

  -- What follows once everything is staged: the renames, and the manifest of what is there then.
  abbrev pub publish :
      Args → Plan R → List (FilePath × J) → FilePath → Run U (List (ℕ × FilePath) × List ℕ)
  publish a p staged sp_tmp = do
    let dir = host.idx_dir a.out_root a.ticker_id
    written ← commit_jobs p.jobs staged
    commit sp_tmp (sidecar_path a.out_root a.asset)
    if a.prune_empty then prune_days dir p.skipped else pure tt
    shards ← lift (host.list_shards dir)
    es ← entries_of shards
    lift (host.write_manifest (host.manifest_path dir) (host.manifest a.ticker a.ticker_id es))
    pure (written, p.skipped)

  -- `look 0`, `look 1` and `look 2` are what the three prechecks see.
  pub write_plan :
      Args
      → (ℕ → Look)
      → (ℕ → Io ℕ)
      → (List J → List ℕ → Io J)
      → Plan R
      → Run U (List (ℕ × FilePath) × List ℕ)
  write_plan a look clock side p = do
    let sp = sidecar_path a.out_root a.asset
    staged ← stage_jobs clock 0 p.jobs
    doc ← of_io (side (map (λ (s : FilePath × J). s.1) staged) p.skipped)
    text ← of_io (host.to_string_pretty doc)
    sp_tmp ← put sp (suffix_at clock (length p.jobs) sp) text
    precheck a (look 2)
    publish a p staged sp_tmp

  unfoldable pub write_days :
      Args
      → (ℕ → Look)
      → (ℕ → Io ℕ)
      → (List J → List ℕ → Io J)
      → List (ℕ × R)
      → Action U (List (ℕ × FilePath) × List ℕ)
  unfolding write_plan
  write_days a look clock side recs = dropping do
    let dir = host.idx_dir a.out_root a.ticker_id
    precheck a (look 0)
    lift (host.create_dir_all dir)
    lift (host.acquire_idx_writer_lock dir)
    precheck a (look 1)
    p ← plan_days dir recs (suc a.to - a.from) a.from
    guard (not (is_empty p.jobs))
    write_plan a look clock side p
