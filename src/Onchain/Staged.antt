-- ===== src/Onchain/Staged.antt =====
-- `Staged` of src/bin/onchain_backfill.rs: files written beside their targets, renamed into place, and removed
-- at the end of the run unless they were. The calls are those of `std::fs`.
pub mod Keeping
use series_factory.Prelude.{
  ℕ, suc, Bool, true, false, not, Option, none, some, List, [], ◌∷◌, ◌++◌, String, filter,
  if◌then◌else◌,
}
use series_factory.Files.{
  FilePath, same_path, Files, write, World, Io, done, fault, refused, Action, continue, spend,
  rename, remove_file,
}

module _ {R : Type 0} where
  abbrev pub created : FilePath → Option (List R) → Files R → Io (Unit {0}) × Files R
  created p none files = (done tt, write p (some []) files)
  created p (some content) files = (fault refused, files)

  -- OpenOptions::new().write(true).create_new(true).open: refused where the file exists.
  unfoldable pub create_new : FilePath → Action R (Unit {0})
  create_new p w = spend w.budget (λ files. created p (files p) files) w.files

  -- File::write_all to a file just created.
  unfoldable pub write_all : FilePath → List R → Action R (Unit {0})
  write_all p bytes w = spend w.budget (λ files. (done tt, write p (some bytes) files)) w.files

  -- File::sync_data
  unfoldable pub sync_data : Action R (Unit {0})
  sync_data w = spend w.budget (λ files. (done tt, files)) w.files

-- The staged files that are not in place yet.
abbrev pub Staged : Type 0
Staged = List FilePath

-- An action that also stages files.
abbrev pub Run : Type 0 → Type 0 → Type 0
Run R A = Staged → World R → Io A × Staged × World R

module _ {R : Type 0} where
  abbrev pub then_run : {A B : Type 0} → Io A → (A → Run R B) → Run R B
  then_run (done a) f st w = f a st w
  then_run (fault e) f st w = (fault e, st, w)

  infixl 10 ◌>>=◌ ◌>>◌
  abbrev pub ◌>>=◌ : {A B : Type 0} → Run R A → (A → Run R B) → Run R B
  ◌>>=◌ m f st w = let (r, st', w') = m st w in then_run r f st' w'

  abbrev pub ◌>>◌ : {B : Type 0} → Run R (Unit {0}) → Run R B → Run R B
  m >> n = m >>= λ _. n

  abbrev pub pure : {A : Type 0} → A → Run R A
  pure a st w = (done a, st, w)

  abbrev pub lift : {A : Type 0} → Action R A → Run R A
  lift m st w = let (r, w') = m w in (r, st, w')

  -- A value of another part of the program, which may be a failure.
  abbrev pub of_io : {A : Type 0} → Io A → Run R A
  of_io r st w = (r, st, w)

  abbrev pub remember : FilePath → Run R (Unit {0})
  remember tmp st w = (done tt, st ++ tmp ∷ [], w)

  abbrev pub forget : FilePath → Run R (Unit {0})
  forget tmp st w = (done tt, filter (λ p. not (same_path p tmp)) st, w)

  -- Staged::put; `suffix` is what the path's own one becomes: with the process and the instant, and `.tmp`.
  unfoldable pub put : FilePath → Io String → List R → Run R FilePath
  put path suffix bytes = do
    s ← of_io suffix
    let tmp = record path { suffix = s }
    lift (create_new tmp)
    remember tmp
    lift (write_all tmp bytes)
    lift sync_data
    pure tmp

  -- Staged::commit
  unfoldable pub commit : FilePath → FilePath → Run R (Unit {0})
  commit tmp to = do lift (rename tmp to); forget tmp

  -- Drop for Staged: a file that cannot be removed stays.
  unfoldable pub drop_staged : Staged → World R → World R
  drop_staged [] w = w
  drop_staged (p ∷ st) w = drop_staged st (remove_file p w).1

  -- What a function that owns a `Staged` leaves: it is dropped on every way out.
  abbrev pub dropping : {A : Type 0} → Run R A → Action R A
  dropping m w = let (r, st, w') = m [] w in (r, drop_staged st w')
