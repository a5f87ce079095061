-- ===== src/Files.antt =====
-- The part of `std::fs` that the offline tools use, over whole records: a file is the list of its
-- records, since `read_shard_aligned` and `write_atomic` move nothing else. Each call may fail, and a
-- run may be killed, at any point: `budget` counts the calls that succeed before that.
pub mod Laws
use text.Mathlib.Text.{◌==◌ as str_eq}
use series_factory.Prelude.{
  ℕ, zero, suc, ◌≡◌, String, Bool, false, ◌&&◌, Option, none, some, List, if◌then◌else◌,
}

-- `<dir>/2026-06-01.idx.bak` has the stem `2026-06-01` and the suffix `idx.bak`.
pub record FilePath : Type 0 where
  pub dir : String
  pub stem : String
  pub suffix : String

abbrev pub same_path : FilePath → FilePath → Bool
same_path p q = str_eq p.suffix q.suffix && (str_eq p.stem q.stem && str_eq p.dir q.dir)

abbrev pub Files : Type 0 → Type 0
Files R = FilePath → Option (List R)

abbrev pub write : {R : Type 0} → FilePath → Option (List R) → Files R → Files R
write p content files q = if same_path p q then content else files q

pub record World (R : Type 0) : Type 0 where
  pub files : Files R
  pub budget : ℕ

pub data Fault : Type 0 where
  failed not_found refused : Fault

pub data Io (A : Type 0) : Type 0 where
  done : A → Io A
  fault : Fault → Io A

-- An action; what it did before a fault stays done.
abbrev pub Action : Type 0 → Type 0 → Type 0
Action R A = World R → Io A × World R

abbrev pub continue : {R A B : Type 0} → Io A → (A → Action R B) → Action R B
continue (done a) f w = f a w
continue (fault e) f w = (fault e, w)

infixl 10 ◌>>=◌ ◌>>◌
abbrev pub ◌>>=◌ : {R A B : Type 0} → Action R A → (A → Action R B) → Action R B
◌>>=◌ m f w = let (r, w') = m w in continue r f w'

abbrev pub ◌>>◌ : {R B : Type 0} → Action R (Unit {0}) → Action R B → Action R B
m >> n = m >>= λ _. n

abbrev pub pure : {R A : Type 0} → A → Action R A
pure a w = (done a, w)

-- A call of the file system, made if the budget allows it.
abbrev pub spend : {R A : Type 0} → ℕ → (Files R → Io A × Files R) → Files R → Io A × World R
spend zero act files = (fault failed, record { files = files; budget = 0 })
spend (suc n) act files = let (r, files') = act files in (r, record { files = files'; budget = n })

abbrev pub move_content :
    {R : Type 0} → FilePath → FilePath → Option (List R) → Files R → Io (Unit {0}) × Files R
move_content p q none files = (fault not_found, files)
move_content p q (some content) files = (done tt, write q (some content) (write p none files))

-- std::fs::rename: the target is replaced in one step.
unfoldable pub rename : {R : Type 0} → FilePath → FilePath → Action R (Unit {0})
rename p q w = spend w.budget (λ files. move_content p q (files p) files) w.files

abbrev pub delete_content :
    {R : Type 0} → FilePath → Option (List R) → Files R → Io (Unit {0}) × Files R
delete_content p none files = (fault not_found, files)
delete_content p (some content) files = (done tt, write p none files)

-- std::fs::remove_file
unfoldable pub remove_file : {R : Type 0} → FilePath → Action R (Unit {0})
remove_file p w = spend w.budget (λ files. delete_content p (files p) files) w.files

-- `read_shard_aligned` and `write_atomic` of the `nxr_sdk` crate.
pub record ShardIo (R : Type 0) : Type 0 where
  pub read_shard_aligned : FilePath → Action R (List R)
  pub write_atomic : FilePath → List R → Action R (Unit {0})

-- A read changes no file and returns what is there; a write changes no other file, and on success
-- the file has the new records. Both succeed where the file system lets them.
pub record IsShardIo {R : Type 0} (io : ShardIo R) : Type 0 where
  pub files-read : (p : FilePath) (w : World R) → (io.read_shard_aligned p w).1.files ≡ w.files
  pub read_done :
      (p : FilePath) (w : World R) (rs : List R)
      → (io.read_shard_aligned p w).0 ≡ done rs
      → w.files p ≡ some rs
  pub read_total :
      (p : FilePath) (files : Files R) (n : ℕ) (rs : List R)
      → files p ≡ some rs
      → io.read_shard_aligned p (record { files = files; budget = suc n })
        ≡ (done rs, record { files = files; budget = n })
  pub write_other :
      (p q : FilePath) (rs : List R) (w : World R)
      → same_path p q ≡ false
      → (io.write_atomic p rs w).1.files q ≡ w.files q
  pub write_done :
      (p : FilePath) (rs : List R) (w : World R)
      → (io.write_atomic p rs w).0 ≡ done tt
      → (io.write_atomic p rs w).1.files p ≡ some rs
  pub write_total :
      (p : FilePath) (files : Files R) (n : ℕ) (rs : List R)
      → io.write_atomic p rs (record { files = files; budget = suc n })
        ≡ (done tt, record { files = write p (some rs) files; budget = n })
