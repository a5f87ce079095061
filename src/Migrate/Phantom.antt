-- ===== src/Migrate/Phantom.antt =====
-- `migrate_tree` of src/bin/migrate_phantom_ids.rs: the shards of a ticker move from the
-- directory of its old id to that of its new one. `U` is the type of bytes, `Q` that of fingerprints, `M` that of
-- manifests; a date is a day's number.
pub mod Steps
pub mod Moved
pub mod Kept
pub mod Survives
use series_factory.Prelude.{
  ℕ, String, Bool, true, false, not, ◌&&◌, Option, none, some, List, [], ◌∷◌, filter, is_empty, ltb,
  ◌==◌, if◌then◌else◌,
}
use series_factory.Files.{
  FilePath, Files, World, Io, done, fault, refused, Action, ◌>>=◌, ◌>>◌, pure, rename,
}

pub data TreeState : Type 0 where
  finished partial_today : TreeState

pub record Candidate : Type 0 where
  pub symbol : String
  pub old_id : ℕ
  pub new_id : ℕ

-- The calls of `nxr_sdk::shard`, and the directories below the data root. A shard's path is given by its date.
pub record Store (U Q M : Type 0) : Type 0 where
  pub date_stem : ℕ → String
  pub tree_dir : String → ℕ → String
  pub park_dir : String → ℕ → String
  pub list_shards : String → String → Action U (List ℕ)
  pub shard_entry : FilePath → Action U Q
  pub same_entry : Q → Q → Bool
  pub create_dir_all : String → Action U (Unit {0})
  pub manifest_path : String → FilePath
  pub read_manifest : FilePath → Action U (Option M)
  pub new_manifest : String → ℕ → String → M
  pub identify : M → String → ℕ → M
  pub refresh_kind : M → String → String → Action U M
  pub write_manifest : FilePath → M → Action U (Unit {0})

module _ {U : Type 0} where
  abbrev pub bail : {A : Type 0} → Action U A
  bail w = (fault refused, w)

  abbrev pub is_some : Option (List U) → Bool
  is_some none = false
  is_some (some bytes) = true

  -- Path::exists
  abbrev pub exists : FilePath → Action U Bool
  exists p w = (done (is_some (w.files p)), w)

module _ {U Q M : Type 0} (store : Store U Q M) (subdir ext : String) where
  abbrev pub shard_in : String → ℕ → FilePath
  shard_in dir date = record { dir = dir; stem = store.date_stem date; suffix = ext }

  abbrev pub fingerprint : String → List ℕ → Action U (List (ℕ × Q))
  fingerprint dir [] = pure []
  fingerprint dir (date ∷ dates) = do
    e ← store.shard_entry (shard_in dir date)
    es ← fingerprint dir dates
    pure ((date, e) ∷ es)

  -- Where the new directory has the date, the old shard is parked; `some` is a date that moved.
  unfoldable pub move_shard : Candidate → ℕ → Action U (Option ℕ)
  move_shard c date = do
    let src = shard_in (store.tree_dir subdir c.old_id) date
    let to = shard_in (store.tree_dir subdir c.new_id) date
    let park = store.park_dir subdir c.old_id
    there ← exists to
    if there
        then (do store.create_dir_all park; rename src (shard_in park date); pure none)
        else (do rename src to; pure (some date))

  abbrev pub add_moved : Option ℕ → List ℕ → List ℕ
  add_moved none moved = moved
  add_moved (some date) moved = date ∷ moved

  abbrev pub move_shards : Candidate → List ℕ → Action U (List ℕ)
  move_shards c [] = pure []
  move_shards c (date ∷ dates) = do
    m ← move_shard c date
    moved ← move_shards c dates
    pure (add_moved m moved)

  abbrev pub entry_at : ℕ → List (ℕ × Q) → Option Q
  entry_at date [] = none
  entry_at date ((d, q) ∷ rest) = if d == date then some q else entry_at date rest

  abbrev pub is_entry : Q → Option Q → Bool
  is_entry want none = true
  is_entry want (some got) = store.same_entry got want

  -- A date that was parked is not among those that moved.
  abbrev pub verify : List (ℕ × Q) → List (ℕ × Q) → Action U (Unit {0})
  verify [] after = pure tt
  verify ((date, want) ∷ before) after =
      if is_entry want (entry_at date after) then verify before after else bail

  abbrev pub or_new : Option M → Candidate → M
  or_new none c = store.new_manifest c.symbol c.new_id ext
  or_new (some m) c = m

  abbrev pub rewrite_new : Candidate → Action U (Unit {0})
  rewrite_new c = do
    let dst = store.tree_dir subdir c.new_id
    o ← store.read_manifest (store.manifest_path dst)
    m ← store.refresh_kind (store.identify (or_new o c) c.symbol c.new_id) dst ext
    store.write_manifest (store.manifest_path dst) m

  abbrev pub refresh_old : String → Option M → Action U (Unit {0})
  refresh_old src none = pure tt
  refresh_old src (some sm) = do
    m ← store.refresh_kind sm src ext
    store.write_manifest (store.manifest_path src) m

  -- A manifest of an empty directory is retired.
  abbrev pub rewrite_old : Candidate → Action U (Unit {0})
  rewrite_old c = do
    let src = store.tree_dir subdir c.old_id
    let path = store.manifest_path src
    left ← store.list_shards src ext
    there ← exists path
    if is_empty left && there
        then rename path (record path { suffix = "json.migrated" })
        else store.read_manifest path >>= λ sm. refresh_old src sm

  abbrev pub move_tree : Candidate → List ℕ → List ℕ → List (ℕ × Q) → Action U (Option TreeState)
  move_tree c movable held before = do
    let dst = store.tree_dir subdir c.new_id
    store.create_dir_all dst
    moved ← move_shards c movable
    after ← fingerprint dst moved
    verify before after
    rewrite_new c
    rewrite_old c
    pure (some (if is_empty held then finished else partial_today))

  abbrev pub movable_of : ℕ → List ℕ → List ℕ
  movable_of today = filter (λ d. ltb d today)

  abbrev pub migrate_shards : Candidate → ℕ → Bool → List ℕ → Action U (Option TreeState)
  migrate_shards c today apply all = do
    let movable = movable_of today all
    let held = filter (λ d. not (ltb d today)) all
    if is_empty movable then pure (some partial_today) else (do
      before ← fingerprint (store.tree_dir subdir c.old_id) movable
      if apply then move_tree c movable held before else pure none)

  -- `is_dir` is whether the old directory is there.
  unfoldable pub migrate_tree : Candidate → ℕ → Bool → Bool → Action U (Option TreeState)
  unfolding move_shard
  migrate_tree c today apply is_dir =
      if is_dir
      then (do
        all ← store.list_shards (store.tree_dir subdir c.old_id) ext
        if is_empty all then pure none else migrate_shards c today apply all)
      else pure none
