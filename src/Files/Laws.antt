-- ===== src/Files/Laws.antt =====
-- Paths of one shard directory that differ in their suffix, and what a rename does to each path.

use text.Mathlib.TextPositions.{eq_refl}
use text.Mathlib.Text.{◌==◌ as str_eq}
use series_factory.Prelude.{
  ℕ, suc, arith, ◌≡◌, refl, ◌∙◌, Bool, true, false, Option, none, some, List, if◌then◌else◌,
}
use series_factory.Files.{
  FilePath, same_path, Files, write, World, Fault, Io, done, fault, Action, continue, pure, ◌>>=◌,
  rename, remove_file,
}

pub same_path_refl : (p : FilePath) → same_path p p ≡ true
same_path_refl p = rw (eq_refl p.suffix, eq_refl p.stem, eq_refl p.dir)

pub same_path_suffix : (p q : FilePath) → str_eq p.suffix q.suffix ≡ false → same_path p q ≡ false
same_path_suffix p q h = rw h

-- A rename that succeeds moves the content and touches no third path.
pub rename_total :
    {R : Type 0} (p q : FilePath) (files : Files R) (n : ℕ) (content : List R)
    → files p ≡ some content
    → rename p q (record { files = files; budget = suc n })
      ≡ (done tt, record { files = write q (some content) (write p none files); budget = n })
unfolding rename
rename_total p q files n content h = rw h

-- With no call left a rename leaves every file alone.
pub rename_refused :
    {R : Type 0} (p q : FilePath) (files : Files R)
    → rename p q (record { files = files; budget = 0 })
      ≡ (fault Fault.failed, record { files = files; budget = 0 })
unfolding rename
rename_refused p q files = refl

pub write_self :
    {R : Type 0} (p : FilePath) (content : Option (List R)) (files : Files R)
    → write p content files p ≡ content
write_self p content files = rw (same_path_refl p)

pub write_ne :
    {R : Type 0} (p q : FilePath) (content : Option (List R)) (files : Files R)
    → same_path p q ≡ false
    → write p content files q ≡ files q
write_ne p q content files h = rw h

-- What holds of the files after both branches holds after a test, and what a step leaves is what it
-- leaves with a value returned behind it.
pub if_action :
    {R A : Type 0} (P : Files R → Type 0) (b : Bool) (m n : Action R A) (d : World R)
    → P (m d).1.files
    → P (n d).1.files
    → P ((if b then m else n) d).1.files
if_action P true m n d h k = h
if_action P false m n d h k = k

pub continue-pure :
    {R A B : Type 0} (r : Io A) (b : B) (d : World R) → (continue r (λ _. pure b) d).1 ≡ d
continue-pure (done a) b d = refl
continue-pure (fault e) b d = refl

pub rename_other :
    {R : Type 0} (p p' q : FilePath) (d : World R)
    → same_path p q ≡ false
    → same_path p' q ≡ false
    → (rename p p' d).1.files q ≡ d.files q
unfolding rename
rename_other p p' q d h k = ground (arith, write_ne p q none d.files h)

-- Keeping the file at `q`, a step at a time.
pub record Keeps {R A : Type 0} (q : FilePath) (m : Action R A) : Type 0 where
  pub at : (d : World R) → (m d).1.files q ≡ d.files q

pub Keeps-pure : {R A : Type 0} (q : FilePath) (a : A) → Keeps {R = R} q (pure a)
Keeps-pure q a = record { at = λ d. refl }

pub Keeps-if :
    {R A : Type 0} (q : FilePath) (b : Bool) (m n : Action R A)
    → Keeps q m
    → Keeps q n
    → Keeps q (if b then m else n)
Keeps-if q true m n h k = h
Keeps-if q false m n h k = k

Keeps-continue :
    {R A B : Type 0} (q : FilePath) (r : Io A) (f : A → Action R B) (d : World R)
    → ((a : A) → Keeps q (f a))
    → (continue r f d).1.files q ≡ d.files q
Keeps-continue q (done a) f d h = (h a).at d
Keeps-continue q (fault e) f d h = refl

pub Keeps-bind :
    {R A B : Type 0} (q : FilePath) (m : Action R A) (f : A → Action R B)
    → Keeps q m
    → ((a : A) → Keeps q (f a))
    → Keeps q (m >>= f)
Keeps-bind q m f h k = record { at = λ d. let (r, d') = m d in Keeps-continue q r f d' k ∙ h.at d }

pub ruleset keeps_rules = (Keeps-pure, Keeps-if, Keeps-bind)

pub remove_file_other :
    {R : Type 0} (p q : FilePath) (d : World R)
    → same_path p q ≡ false
    → (remove_file p d).1.files q ≡ d.files q
unfolding remove_file
remove_file_other p q d h = ground arith
