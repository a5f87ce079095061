-- ===== src/Tests/Migrate.antt =====
-- `migrate_tree` of src/bin/migrate_phantom_ids.rs at concrete inputs: bytes are numbers.
use series_factory.Prelude.{
  ℕ, zero, suc, ◌≡◌, refl, ap, String, true, Option, none, some, List, [], ◌∷◌, length, filter,
  ◌==◌, if◌then◌else◌,
}
use series_factory.Files.{FilePath, write, World, Io, done, fault, not_found, rename}
use series_factory.Files.Laws.{write_ne}
use series_factory.Migrate.Phantom.{
  Candidate, Store, TreeState, partial_today, is_some, shard_in, migrate_tree,
}
use series_factory.Migrate.Phantom.Steps.{IsStore, IsApart}
use series_factory.Migrate.Phantom.Survives.{Survives, Stays, migrate_tree-Survives}

-- A day's name is a tally.
abbrev tally : ℕ → String
tally zero = String.[]
tally (suc d) = String.◌∷◌ "x" (tally d)

tally_injective : (d e : ℕ) → tally d ≡ tally e → d ≡ e
tally_injective zero zero h = refl
tally_injective zero (suc e) h = cc h
tally_injective (suc d) zero h = cc h
tally_injective (suc d) (suc e) h =
    let t : tally d ≡ tally e = cc h in ap suc (tally_injective d e t)

abbrev dir_name : ℕ → String
dir_name id = if id == 7 then "old" else "new"

abbrev size_of : Option (List ℕ) → Io ℕ
size_of none = fault not_found
size_of (some bytes) = done (length bytes)

abbrev store : Store ℕ ℕ ℕ
store = record {
  date_stem = tally;
  tree_dir = λ subdir id. dir_name id;
  park_dir = λ subdir id. "park";
  list_shards = λ dir e w. (
    done (
        filter (λ d. is_some (w.files (record { dir = dir; stem = tally d; suffix = e })))
          (1 ∷ 2 ∷ 3 ∷ [])),
    w,
  );
  shard_entry = λ p w. (size_of (w.files p), w);
  same_entry = λ a b. a == b;
  create_dir_all = λ dir w. (done tt, w);
  manifest_path = λ dir. record { dir = dir; stem = "manifest"; suffix = "json" };
  read_manifest = λ p w. (done none, w);
  new_manifest = λ symbol id e. 0;
  identify = λ m symbol id. m;
  refresh_kind = λ m dir e w. (done m, w);
  write_manifest = λ p m w. (done tt, record w { files = write p (some (m ∷ [])) w.files });
}

store_laws : IsStore store "indexes" "idx"
store_laws = record {
  files-list = λ dir e w. refl;
  files-entry = λ p w. refl;
  files-create = λ dir w. refl;
  files-read = λ p w. refl;
  files-refresh = λ m dir e w. refl;
  write_other = λ p q m w h. write_ne p q (some (m ∷ [])) w.files h;
  stem_injective = tally_injective;
  manifest_suffix = λ dir. refl;
  retired_suffix = refl;
}

abbrev candidate : Candidate
candidate = record { symbol = "X"; old_id = 7; new_id = 8 }

apart : IsApart store "indexes" candidate
apart = record { old_new = refl; old_park = refl; new_park = refl }

abbrev shard : String → ℕ → FilePath
shard dir d = shard_in store "indexes" "idx" dir d

-- Days 1 to 3 under the old id, the last being today, and day 2 under the new one.
abbrev before : World ℕ
before = record {
  files = write (shard "old" 1) (some (11 ∷ [])) (
      write (shard "old" 2) (some (12 ∷ [])) (
        write (shard "old" 3) (some (13 ∷ []))
          (write (shard "new" 2) (some (22 ∷ [])) (λ p. none))));
  budget = 9;
}

abbrev run : ℕ → Io (Option TreeState) × World ℕ
run n = migrate_tree store "indexes" "idx" candidate 3 true true (record before { budget = n })

moves_tree : (run 9).0 ≡ done (some partial_today)
unfolding migrate_tree rename
moves_tree = refl

moves_shard : (run 9).1.files (shard "new" 1) ≡ some (11 ∷ [])
unfolding migrate_tree rename
moves_shard = refl

parks_shard : (run 9).1.files (shard "park" 2) ≡ some (12 ∷ [])
unfolding migrate_tree rename
parks_shard = refl

leaves_today : (run 9).1.files (shard "old" 3) ≡ some (13 ∷ [])
unfolding migrate_tree rename
leaves_today = refl

-- A shard that is parked replaces one that an earlier run parked.
replaces_parked :
    (migrate_tree store "indexes" "idx" candidate 3 true true
        (record before { files = write (shard "park" 2) (some (32 ∷ [])) before.files })).1.files
      (shard "park" 2)
    ≡ some (12 ∷ [])
unfolding migrate_tree rename
replaces_parked = refl

migrate_tree-Survives_example :
    Survives 3 2
      (12 ∷ [])
      ((run 1).1.files (shard "old" 2))
      ((run 1).1.files (shard "new" 2))
      ((run 1).1.files (shard "park" 2))
    × Stays (before.files (shard "new" 2)) ((run 1).1.files (shard "new" 2))
migrate_tree-Survives_example =
    migrate_tree-Survives store "indexes" "idx" store_laws candidate apart 2 3 true true (12 ∷ [])
      (record before { budget = 1 }) refl
