-- ===== src/Migrate/Phantom/Kept.antt =====
-- The rules by which the steps of `migrate_tree` of src/bin/migrate_phantom_ids.rs keep a property of one date's shard,
-- composed to the whole of it.
use text.Mathlib.Text.{◌==◌ as str_eq}
use series_factory.Prelude.{
  ℕ, ◌<◌, ◌≡◌, ◌≢◌, ◌⊎◌, inl, inr, refl, String, Bool, true, false, not, ◌&&◌, Option, none, some,
  List, [], ◌∷◌, filter, is_empty, All, Bool-cases, ltb, arith,
}
use series_factory.Files.{FilePath, same_path, World, Action, rename}
use series_factory.Files.Laws.{rename_other}
use series_factory.Migrate.Phantom.{
  partial_today, Candidate, Store, exists, shard_in, fingerprint, add_moved, move_shards, entry_at,
  is_entry, verify, or_new, rewrite_new, refresh_old, rewrite_old, move_tree, movable_of,
  migrate_tree,
}
use series_factory.Migrate.Phantom.Steps.{
  IsStore, IsApart, src, dst, park, Preserves, Preserves-same, Preserves-pure, Preserves-bail,
  Preserves-bind, Preserves-if, Preserves-other,
}
use series_factory.Migrate.Phantom.Moved.{Moves, move_shard-Preserves}

module _ {U Q M : Type 0} (store : Store U Q M) (subdir ext : String)
    (laws : IsStore store subdir ext) (c : Candidate) (apart : IsApart store subdir c) (d : ℕ)
    (P : Option (List U) → Option (List U) → Option (List U) → Type 0) where
  abbrev Keeps : {A : Type 0} → Action U A → Type 0
  Keeps m = Preserves store subdir ext c d P m

  -- The date is another, or its moves keep the property.
  abbrev Handled : ℕ → Type 0
  Handled e = (e ≢ d) ⊎ ((e ≡ d) × Moves P)

  fingerprint-Keeps :
      (dir : String) (dates : List ℕ) → Keeps (fingerprint store subdir ext dir dates)
  fingerprint-Keeps dir [] = Preserves-pure []
  fingerprint-Keeps dir (date ∷ dates) =
      Preserves-bind
        (Preserves-same (store.shard_entry (shard_in store subdir ext dir date))
          (laws.files-entry (shard_in store subdir ext dir date)))
        (λ e. Preserves-bind (fingerprint-Keeps dir dates) (λ es. Preserves-pure ((date, e) ∷ es)))

  move_shards-Keeps :
      (dates : List ℕ) → All Handled dates → Keeps (move_shards store subdir ext c dates)
  move_shards-Keeps [] h = Preserves-pure []
  move_shards-Keeps (date ∷ dates) h =
      Preserves-bind (move_shard-Preserves store subdir ext laws c apart d P date h.0) (λ m.
        Preserves-bind (move_shards-Keeps dates h.1)
          (λ moved. Preserves-pure (add_moved store subdir ext m moved)))

  verify-Keeps : (before after : List (ℕ × Q)) → Keeps (verify store subdir ext before after)
  verify-Keeps [] after = Preserves-pure tt
  verify-Keeps ((date, want) ∷ before) after =
      Preserves-if (is_entry store subdir ext want (entry_at store subdir ext date after))
        (verify-Keeps before after) Preserves-bail

  suffix_ne : (p q : FilePath) → str_eq p.suffix q.suffix ≡ false → same_path p q ≡ false
  suffix_ne p q h = rw h

  -- A file whose suffix is not that of the shards.
  write_manifest-Keeps :
      (dir : String) (m : M) → Keeps (store.write_manifest (store.manifest_path dir) m)
  write_manifest-Keeps dir m =
      let path = store.manifest_path dir in
      let away : (q : FilePath)
          → q.suffix ≡ ext
          → (w : World U) → (store.write_manifest path m w).1.files q ≡ w.files q =
        λ q e w. laws.write_other path q m w (suffix_ne path q (rw e (laws.manifest_suffix dir))) in
      Preserves-other (store.write_manifest path m) (away (src store subdir ext c d) refl)
        (away (dst store subdir ext c d) refl) (away (park store subdir ext c d) refl)

  retire-Keeps :
      (dir : String)
      → let path = store.manifest_path dir in
        Keeps (rename path (record path { suffix = "json.migrated" }))
  retire-Keeps dir =
      let path = store.manifest_path dir in
      let gone = record path { suffix = "json.migrated" } in
      let away : (q : FilePath)
          → q.suffix ≡ ext
          → (w : World U) → (rename path gone w).1.files q ≡ w.files q =
        λ q e w.
          rename_other path gone q w (suffix_ne path q (rw e (laws.manifest_suffix dir)))
            (suffix_ne gone q (rw e laws.retired_suffix)) in
      Preserves-other (rename path gone) (away (src store subdir ext c d) refl)
        (away (dst store subdir ext c d) refl) (away (park store subdir ext c d) refl)

  refresh-Keeps : (m : M) (dir : String) → Keeps (store.refresh_kind m dir ext)
  refresh-Keeps m dir = Preserves-same (store.refresh_kind m dir ext) (laws.files-refresh m dir ext)

  read-Keeps : (dir : String) → Keeps (store.read_manifest (store.manifest_path dir))
  read-Keeps dir =
      Preserves-same (store.read_manifest (store.manifest_path dir))
        (laws.files-read (store.manifest_path dir))

  rewrite_new-Keeps : Keeps (rewrite_new store subdir ext c)
  rewrite_new-Keeps =
      let dir = store.tree_dir subdir c.new_id in
      Preserves-bind (read-Keeps dir) (λ o.
        Preserves-bind
          (refresh-Keeps (store.identify (or_new store subdir ext o c) c.symbol c.new_id) dir)
          (λ m. write_manifest-Keeps dir m))

  refresh_old-Keeps : (dir : String) (o : Option M) → Keeps (refresh_old store subdir ext dir o)
  refresh_old-Keeps dir none = Preserves-pure tt
  refresh_old-Keeps dir (some sm) =
      Preserves-bind (refresh-Keeps sm dir) (λ m. write_manifest-Keeps dir m)

  list-Keeps : (dir : String) → Keeps (store.list_shards dir ext)
  list-Keeps dir = Preserves-same (store.list_shards dir ext) (laws.files-list dir ext)

  rewrite_old-Keeps : Keeps (rewrite_old store subdir ext c)
  rewrite_old-Keeps =
      let dir = store.tree_dir subdir c.old_id in
      Preserves-bind (list-Keeps dir) (λ left.
        Preserves-bind (Preserves-same (exists (store.manifest_path dir)) (λ w. refl)) (λ there.
          Preserves-if (is_empty left && there) (retire-Keeps dir)
            (Preserves-bind (read-Keeps dir) (λ sm. refresh_old-Keeps dir sm))))

  move_tree-Keeps :
      (movable held : List ℕ) (before : List (ℕ × Q))
      → All Handled movable
      → Keeps (move_tree store subdir ext c movable held before)
  move_tree-Keeps movable held before h =
      let dir = store.tree_dir subdir c.new_id in
      Preserves-bind (Preserves-same (store.create_dir_all dir) (laws.files-create dir)) (λ _.
        Preserves-bind (move_shards-Keeps movable h) (λ moved.
          Preserves-bind (fingerprint-Keeps dir moved) (λ after.
            Preserves-bind (verify-Keeps before after) (λ _.
              Preserves-bind rewrite_new-Keeps
                (λ _. Preserves-bind rewrite_old-Keeps (λ _. Preserves-pure _))))))

  movable-Handled :
      (today : ℕ) (all : List ℕ)
      → ((e : ℕ) → e < today → Handled e)
      → All Handled (movable_of store subdir ext today all)
  movable-Handled today [] h = tt
  movable-Handled today (e ∷ all) h = elim (Bool-cases (ltb e today)) [
    | inl y ↦ rw y (h e (below e today y), movable-Handled today all h)
    | inr n ↦ rw n (movable-Handled today all h)
  ]
    where
      below : (e today : ℕ) → ltb e today ≡ true → e < today
      below e today y = ground arith

  pub migrate_tree-Preserves :
      (today : ℕ) (apply is_dir : Bool)
      → ((e : ℕ) → e < today → Handled e)
      → Preserves store subdir ext c d P (migrate_tree store subdir ext c today apply is_dir)
  unfolding migrate_tree
  migrate_tree-Preserves today apply is_dir h =
      let dir = store.tree_dir subdir c.old_id in
      Preserves-if is_dir
        (Preserves-bind (list-Keeps dir) (λ all.
          let movable = movable_of store subdir ext today all in
          Preserves-if (is_empty all) (Preserves-pure none) (
            Preserves-if (is_empty movable) (Preserves-pure (some partial_today)) (
              Preserves-bind (fingerprint-Keeps dir movable) (λ before.
                Preserves-if apply
                  (move_tree-Keeps movable (filter (λ e. not (ltb e today)) all) before
                    (movable-Handled today all h))
                  (Preserves-pure none))))))
        (Preserves-pure none)
