-- ===== src/Migrate/Phantom/Moved.antt =====
-- What a move of `migrate_tree` of src/bin/migrate_phantom_ids.rs does to the three places of one date's shard.
use text.Mathlib.TextEquality.{eq_iff}
use text.Mathlib.Text.{◌==◌ as str_eq}
use series_factory.Prelude.{
  ℕ, zero, suc, ◌≡◌, ◌≢◌, ◌⊎◌, inl, inr, refl, ap, sym, subst, ◌∙◌, String, false, Option, none,
  some, List, Bool-cases, arith,
}
use series_factory.Files.{
  FilePath, same_path, Files, write, World, Io, done, fault, Action, continue, ◌>>=◌, ◌>>◌, pure,
  rename,
}
use series_factory.Files.Laws.{rename_other, write_ne, write_self}
use series_factory.Migrate.Phantom.{Candidate, Store, exists, shard_in, move_shard}
use series_factory.Migrate.Phantom.Steps
use series_factory.Migrate.Phantom.Steps.{
  transport, IsStore, IsApart, Preserves, Preserves-same, Preserves-pure, Preserves-bind,
  Preserves-if, Preserves-other,
}

-- What a shard's move does to the property: to the new directory, or to the parking one.
pub record Moves {U : Type 0} (P : Option (List U) → Option (List U) → Option (List U) → Type 0)
    : Type 0 where
  pub to_new : (x : List U) (z : Option (List U)) → P (some x) none z → P none (some x) z
  pub to_park :
      (x y : List U) (z : Option (List U)) → P (some x) (some y) z → P none (some y) (some x)

module _ {U Q M : Type 0} (store : Store U Q M) (subdir ext : String)
    (laws : IsStore store subdir ext) (c : Candidate) (apart : IsApart store subdir c) (d : ℕ) where
  abbrev src : FilePath
  src = Steps.src store subdir ext c d

  abbrev dst : FilePath
  dst = Steps.dst store subdir ext c d

  abbrev park : FilePath
  park = Steps.park store subdir ext c d

  dir_ne : (p q : FilePath) → str_eq p.dir q.dir ≡ false → same_path p q ≡ false
  dir_ne p q h = ground arith

  stem_ne : (p q : FilePath) → str_eq p.stem q.stem ≡ false → same_path p q ≡ false
  stem_ne p q h = ground arith

  str_eq_comm : (s t : String) → str_eq s t ≡ false → str_eq t s ≡ false
  str_eq_comm s t h = ground (arith, eq_iff s t, eq_iff t s)

  date_ne : (e : ℕ) → e ≢ d → str_eq (store.date_stem e) (store.date_stem d) ≡ false
  date_ne e n = elim (Bool-cases (str_eq (store.date_stem e) (store.date_stem d))) [
    | inl same ↦ absurd (n (laws.stem_injective e d ((eq_iff _ _).0 same)))
    | inr other ↦ other
  ]

  module _ (P : Option (List U) → Option (List U) → Option (List U) → Type 0) where
    -- The shard of another date is moved.
    rename-elsewhere :
        (e : ℕ) (from to : String)
        → e ≢ d
        → Preserves store subdir ext c d P
            (rename (shard_in store subdir ext from e) (shard_in store subdir ext to e))
    rename-elsewhere e from to n =
        Preserves-other (rename (shard_in store subdir ext from e) (shard_in store subdir ext to e))
          (λ w. away src (date_ne e n) w) (λ w. away dst (date_ne e n) w)
          (λ w. away park (date_ne e n) w)
      where
        away :
            (q : FilePath)
            → str_eq (store.date_stem e) q.stem ≡ false
            → (w : World U)
            → (rename (shard_in store subdir ext from e) (shard_in store subdir ext to e) w).1.files
                q
              ≡ w.files q
        away q h w =
            rename_other (shard_in store subdir ext from e) (shard_in store subdir ext to e) q w
              (stem_ne (shard_in store subdir ext from e) q h)
              (stem_ne (shard_in store subdir ext to e) q h)

    move_new :
        (n : ℕ) (files : Files U) (o : Option (List U))
        → Moves P
        → files src ≡ o
        → files dst ≡ none
        → P (files src) (files dst) (files park)
        → let w = (rename src dst (record { files = files; budget = n })).1 in
          P (w.files src) (w.files dst) (w.files park)
    unfolding rename
    move_new zero files o mv a b p = p
    move_new (suc n) files none mv a b p = rw a p
    move_new (suc n) files (some x) mv a b p =
        let ds = dir_ne dst src (str_eq_comm _ _ apart.old_new) in
        let cleared = write src none files in
        rw a (
          transport P none (some x) (files park) _ _ _
            (write_ne dst src (some x) cleared ds ∙ write_self src none files)
            (write_self dst (some x) cleared)
            (write_ne dst park (some x) cleared (dir_ne dst park apart.new_park)
              ∙ write_ne src park none files (dir_ne src park apart.old_park))
            (mv.to_new x (files park)
              (transport P (files src) (files dst) (files park) _ _ _ (sym a) (sym b) refl p)))

    move_parked :
        (n : ℕ) (files : Files U) (o : Option (List U)) (y : List U)
        → Moves P
        → files src ≡ o
        → files dst ≡ some y
        → P (files src) (files dst) (files park)
        → let w = (rename src park (record { files = files; budget = n })).1 in
          P (w.files src) (w.files dst) (w.files park)
    unfolding rename
    move_parked zero files o y mv a b p = p
    move_parked (suc n) files none y mv a b p = rw a p
    move_parked (suc n) files (some x) y mv a b p =
        let cleared = write src none files in
        rw a (
          transport P none (some y) (some x) _ _ _
            (write_ne park src (some x) cleared (dir_ne park src (str_eq_comm _ _ apart.old_park))
              ∙ write_self src none files)
            (write_ne park dst (some x) cleared (dir_ne park dst (str_eq_comm _ _ apart.new_park))
              ∙ (write_ne src dst none files (dir_ne src dst apart.old_new) ∙ b))
            (write_self park (some x) cleared)
            (mv.to_park x y (files park)
              (transport P (files src) (files dst) (files park) _ _ _ (sym a) (sym b) refl p)))

    abbrev Holds : World U → Type 0
    Holds w = P (w.files src) (w.files dst) (w.files park)

    continue-Holds :
        {A B : Type 0} (r : Io A) (f : A → Action U B) (w : World U)
        → ((a : A) → Holds (f a w).1)
        → Holds w
        → Holds (continue r f w).1
    continue-Holds (done a) f w h p = h a
    continue-Holds (fault e) f w h p = p

    then_pure :
        {A B : Type 0} (m : Action U A) (b : B) (w : World U)
        → Holds (m w).1
        → Holds ((m >>= λ _. pure b) w).1
    then_pure m b w p = continue-Holds (m w).0 (λ _. pure b) (m w).1 (λ a. p) p

    park_here :
        (w : World U) (y : List U)
        → Moves P
        → w.files dst ≡ some y
        → Holds w
        → Holds
            ((store.create_dir_all (store.park_dir subdir c.old_id)
                >> (rename src park >> pure {A = Option ℕ} none))
              w).1
    park_here w y mv b p =
        let made = store.create_dir_all (store.park_dir subdir c.old_id) w in
        let same = laws.files-create (store.park_dir subdir c.old_id) w in
        let q : Holds made.1 = rw same p in
        continue-Holds made.0 (λ _. rename src park >> pure {A = Option ℕ} none) made.1
          (λ _. then_pure (rename src park) none made.1 (
            move_parked made.1.budget made.1.files (made.1.files src) y mv refl
              (ap (λ f. f dst) same ∙ b) q))
          q

    shard_here :
        (w : World U) (o : Option (List U))
        → Moves P
        → w.files dst ≡ o
        → Holds w
        → Holds (move_shard store subdir ext c d w).1
    unfolding move_shard
    shard_here w none mv b p = rw b (
        then_pure (rename src dst) (some d) w (move_new w.budget w.files (w.files src) mv refl b p))
    shard_here w (some y) mv b p = rw b (park_here w y mv b p)

    -- One date of the loop: another one, or this one where its moves keep the property.
    pub move_shard-Preserves :
        (e : ℕ)
        → (e ≢ d) ⊎ ((e ≡ d) × Moves P)
        → Preserves store subdir ext c d P (move_shard store subdir ext c e)
    unfolding move_shard
    move_shard-Preserves e (inl n) =
        Preserves-bind {m = exists (shard_in store subdir ext (store.tree_dir subdir c.new_id) e)}
          (Preserves-same (exists (shard_in store subdir ext (store.tree_dir subdir c.new_id) e))
            (λ w. refl))
          (λ there.
            Preserves-if there
              (Preserves-bind
                (Preserves-same (store.create_dir_all (store.park_dir subdir c.old_id))
                  (laws.files-create (store.park_dir subdir c.old_id)))
                (λ _.
                  Preserves-bind
                    (rename-elsewhere e (store.tree_dir subdir c.old_id)
                      (store.park_dir subdir c.old_id) n)
                    (λ _. Preserves-pure none)))
              (Preserves-bind
                (rename-elsewhere e (store.tree_dir subdir c.old_id)
                  (store.tree_dir subdir c.new_id) n)
                (λ _. Preserves-pure (some e))))
    move_shard-Preserves e (inr h) =
        subst (λ k. Preserves store subdir ext c d P (move_shard store subdir ext c k)) (sym h.0)
          (record { at = λ w p. shard_here w (w.files dst) h.1 refl p })
