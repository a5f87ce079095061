-- ===== src/Migrate/Phantom/Steps.antt =====
-- What each step of `migrate_tree` of src/bin/migrate_phantom_ids.rs does to the three places of one date's shard.

use text.Mathlib.Text.{◌==◌ as str_eq}
use series_factory.Prelude.{ℕ, ◌≡◌, ap, String, Bool, true, false, Option, List, if◌then◌else◌}
use series_factory.Files.{
  FilePath, same_path, World, Io, done, fault, Action, continue, ◌>>=◌, pure,
}
use series_factory.Migrate.Phantom.{Candidate, Store, bail, shard_in}

-- What is relied on: reads change no file, a directory is made without touching one, a manifest is written to its
-- path alone, days have names of their own, and a shard is no manifest.
pub record IsStore {U Q M : Type 0} (store : Store U Q M) (subdir ext : String) : Type 0 where
  pub files-list : (dir e : String) (w : World U) → (store.list_shards dir e w).1.files ≡ w.files
  pub files-entry : (p : FilePath) (w : World U) → (store.shard_entry p w).1.files ≡ w.files
  pub files-create : (dir : String) (w : World U) → (store.create_dir_all dir w).1.files ≡ w.files
  pub files-read : (p : FilePath) (w : World U) → (store.read_manifest p w).1.files ≡ w.files
  pub files-refresh :
      (m : M) (dir e : String) (w : World U) → (store.refresh_kind m dir e w).1.files ≡ w.files
  pub write_other :
      (p q : FilePath) (m : M) (w : World U)
      → same_path p q ≡ false
      → (store.write_manifest p m w).1.files q ≡ w.files q
  pub stem_injective : (d e : ℕ) → store.date_stem d ≡ store.date_stem e → d ≡ e
  pub manifest_suffix : (dir : String) → str_eq (store.manifest_path dir).suffix ext ≡ false
  pub retired_suffix : str_eq "json.migrated" ext ≡ false

-- The old, the new and the parking directory are three.
pub record IsApart {U Q M : Type 0} (store : Store U Q M) (subdir : String) (c : Candidate)
    : Type 0 where
  pub old_new : str_eq (store.tree_dir subdir c.old_id) (store.tree_dir subdir c.new_id) ≡ false
  pub old_park : str_eq (store.tree_dir subdir c.old_id) (store.park_dir subdir c.old_id) ≡ false
  pub new_park : str_eq (store.tree_dir subdir c.new_id) (store.park_dir subdir c.old_id) ≡ false

module _ {U Q M : Type 0} (store : Store U Q M) (subdir ext : String) (c : Candidate) (d : ℕ) where
  abbrev pub src : FilePath
  src = shard_in store subdir ext (store.tree_dir subdir c.old_id) d

  abbrev pub dst : FilePath
  dst = shard_in store subdir ext (store.tree_dir subdir c.new_id) d

  abbrev pub park : FilePath
  park = shard_in store subdir ext (store.park_dir subdir c.old_id) d

  module _ (P : Option (List U) → Option (List U) → Option (List U) → Type 0) where
    -- The property of what stands at the three places survives the action.
    pub record Preserves {A : Type 0} (m : Action U A) : Type 0 where
      pub at :
          (w : World U)
          → P (w.files src) (w.files dst) (w.files park)
          → P ((m w).1.files src) ((m w).1.files dst) ((m w).1.files park)

-- A property of three values survives their change to equal ones.
pub transport :
    {X : Type 0} (P : X → X → X → Type 0) (a b z a' b' z' : X)
    → a' ≡ a
    → b' ≡ b
    → z' ≡ z
    → P a b z
    → P a' b' z'
transport P a b z a' b' z' p q r h = rw (p, q, r) h

module _ {U Q M : Type 0} {store : Store U Q M} {subdir ext : String} {c : Candidate} {d : ℕ}
    {P : Option (List U) → Option (List U) → Option (List U) → Type 0} where
  pub Preserves-same :
      {A : Type 0} (m : Action U A)
      → ((w : World U) → (m w).1.files ≡ w.files)
      → Preserves store subdir ext c d P m
  Preserves-same m h = record {
    at = λ w p.
        transport P _ _ _ _ _ _ (ap (λ f. f (src store subdir ext c d)) (h w))
          (ap (λ f. f (dst store subdir ext c d)) (h w))
          (ap (λ f. f (park store subdir ext c d)) (h w)) p;
  }

  pub Preserves-pure : {A : Type 0} (a : A) → Preserves store subdir ext c d P (pure a)
  Preserves-pure a = record { at = λ w p. p }

  pub Preserves-bail : {A : Type 0} → Preserves store subdir ext c d P (bail {A = A})
  Preserves-bail = record { at = λ w p. p }

  continue-P :
      {A B : Type 0} (r : Io A) (f : A → Action U B) (w : World U)
      → ((a : A) → Preserves store subdir ext c d P (f a))
      → P
          (w.files (src store subdir ext c d))
          (w.files (dst store subdir ext c d))
          (w.files (park store subdir ext c d))
      → P
          ((continue r f w).1.files (src store subdir ext c d))
          ((continue r f w).1.files (dst store subdir ext c d))
          ((continue r f w).1.files (park store subdir ext c d))
  continue-P (done a) f w h p = (h a).at w p
  continue-P (fault e) f w h p = p

  pub Preserves-bind :
      {A B : Type 0} {m : Action U A} {f : A → Action U B}
      → Preserves store subdir ext c d P m
      → ((a : A) → Preserves store subdir ext c d P (f a))
      → Preserves store subdir ext c d P (m >>= f)
  Preserves-bind {m = m} {f = f} h k = record {
    at = λ w p. continue-P (m w).0 f (m w).1 k (h.at w p);
  }

  pub Preserves-if :
      {A : Type 0} (b : Bool) {m n : Action U A}
      → Preserves store subdir ext c d P m
      → Preserves store subdir ext c d P n
      → Preserves store subdir ext c d P (if b then m else n)
  Preserves-if true h k = h
  Preserves-if false h k = k

  -- A call that changes none of the three.
  pub Preserves-other :
      {A : Type 0} (m : Action U A)
      → ((w : World U)
          → (m w).1.files (src store subdir ext c d) ≡ w.files (src store subdir ext c d))
      → ((w : World U)
          → (m w).1.files (dst store subdir ext c d) ≡ w.files (dst store subdir ext c d))
      → ((w : World U)
          → (m w).1.files (park store subdir ext c d) ≡ w.files (park store subdir ext c d))
      → Preserves store subdir ext c d P m
  Preserves-other m a b e = record { at = λ w p. transport P _ _ _ _ _ _ (a w) (b w) (e w) p }
