-- ===== src/Resample/Run/Live.antt =====
-- A whole run of src/bin/resample_idx.rs and the files of the live shard of the current day.
use text.Mathlib.Text.{◌==◌ as str_eq}
use series_factory.Prelude.{
  ℕ, String, ◌≡◌, refl, ◌∙◌, ap, Bool, true, false, ◌&&◌, Option, none, some, List, [], ◌∷◌, arith,
  All, All-append, All-choice, Bool-cases, inl, inr, is_empty,
}
use series_factory.Prelude.Outcome.{Outcome, ok, err}
use series_factory.Mitch.{IndexRecord, Wire}
use series_factory.Files.{FilePath, World, rename, ShardIo, IsShardIo}
use series_factory.Files.Laws.{Keeps, rename_other, Keeps-bind, Keeps-if, Keeps-pure}
use series_factory.Resample.Shard.{
  Args, ShardRef, ShardReport, resample_shard, resample_records, swap_in, file_len, or_fault,
}
use series_factory.Prelude.Sort.{sort_by-All}
use series_factory.Resample.Run.{
  DirEntry, closed_shards, scan, collect_shards, is_ticker, wanted, resample_all, run, validate,
  finish, ArgError,
}

-- The files at `q` belong to another shard than `p`'s.
abbrev OtherStem : FilePath → FilePath → Type 0
OtherStem q p = str_eq p.stem q.stem ≡ false

other_path :
    (p q : FilePath) (b : Bool)
    → str_eq p.stem q.stem ≡ false
    → (b && (str_eq p.stem q.stem && str_eq p.dir q.dir)) ≡ false
other_path p q b h = rw h (ground arith)

module _ {H F : Type 0} (w : Wire H) {io : ShardIo (IndexRecord H F)} (laws : IsShardIo io)
    (median : List ℕ → ℕ) (args : Args) (q : FilePath) where
  write-Keeps :
      (p : FilePath) (rs : List (IndexRecord H F)) → OtherStem q p → Keeps q (io.write_atomic p rs)
  write-Keeps p rs h = record { at = λ d. laws.write_other p q rs d (other_path p q _ h) }

  rename-Keeps :
      (p p' : FilePath)
      → OtherStem q p
      → OtherStem q p'
      → Keeps {R = IndexRecord H F} q (rename p p')
  rename-Keeps p p' h k = record {
    at = λ d. rename_other p p' q d (other_path p q _ h) (other_path p' q _ k);
  }

  read-Keeps : (p : FilePath) → Keeps q (io.read_shard_aligned p)
  read-Keeps p = record { at = λ d. ap (λ f. f q) (laws.files-read p d) }

  len-Keeps : (p : FilePath) → Keeps {R = IndexRecord H F} q (file_len p)
  unfolding file_len
  len-Keeps p = record { at = λ d. ground arith }

  or_fault-Keeps : {A : Type 0} (o : Option A) → Keeps {R = IndexRecord H F} q (or_fault o)
  or_fault-Keeps none = record { at = λ d. refl }
  or_fault-Keeps (some a) = record { at = λ d. refl }

  swap_in-Keeps :
      (sh : ShardRef) (rs : List (IndexRecord H F))
      → OtherStem q sh.path
      → Keeps q (swap_in w io median sh args rs)
  unfolding swap_in
  swap_in-Keeps sh rs h = Keeps-bind q _ _ (write-Keeps _ rs h) (λ _.
      Keeps-if q args.commit _ _
        (Keeps-bind q _ _ (rename-Keeps sh.path _ h h) (λ _. rename-Keeps _ sh.path h h))
        (Keeps-pure q tt))

  records-Keeps :
      (sh : ShardRef) (bytes_old raw_count dropped : ℕ) (rs : List (IndexRecord H F))
      → OtherStem q sh.path
      → Keeps q (resample_records w io median sh args bytes_old raw_count dropped rs)
  unfolding resample_records
  records-Keeps sh bytes_old raw_count dropped [] h = Keeps-pure q _
  records-Keeps sh bytes_old raw_count dropped (r ∷ rs) h = Keeps-if q _ _ _ (Keeps-pure q _) (
      Keeps-bind q _ _ (Keeps-if q _ _ _ (swap_in-Keeps sh _ h) (Keeps-pure q tt))
        (λ _. Keeps-pure q _))

  shard-Keeps : (sh : ShardRef) → OtherStem q sh.path → Keeps q (resample_shard w io median sh args)
  unfolding resample_shard
  shard-Keeps sh h = Keeps-bind q _ _ (or_fault-Keeps _) (λ t.
      Keeps-bind q _ _ (len-Keeps sh.path)
        (λ n. Keeps-bind q _ _ (read-Keeps sh.path) (λ raw. records-Keeps sh n _ _ _ h)))

  resample_all-Keeps :
      (shards : List ShardRef) (d : World (IndexRecord H F))
      → All (λ sh. OtherStem q sh.path) shards
      → (resample_all w io median args shards d).1.files q ≡ d.files q
  unfolding resample_all
  resample_all-Keeps [] d h = refl
  resample_all-Keeps (sh ∷ shards) d h =
      let (r, d') = resample_shard w io median sh args d in
      resample_all-Keeps shards d' h.1 ∙ (shard-Keeps sh h.0).at d

module _ {D : Type 0} (before : D → D → Bool) (date_stem : D → String) (today : D)
    (q : FilePath) where
  -- Of the dates before today none has a file of `q`'s stem.
  abbrev pub LiveOnly : List (D × FilePath) → Type 0
  LiveOnly shards = All (λ s. before s.0 today ≡ true → OtherStem q s.1) shards

  closed_apart :
      (ticker : String) (shards : List (D × FilePath))
      → LiveOnly shards
      → All (λ sh. OtherStem q sh.path) (closed_shards before date_stem ticker today shards)
  closed_apart ticker [] h = tt
  closed_apart ticker ((date, path) ∷ rest) h = elim (Bool-cases (before date today)) [
    | inl past ↦ rw past (h.0 past, closed_apart ticker rest h.1)
    | inr live ↦ rw live (closed_apart ticker rest h.1)
  ]

  scan_apart :
      (only : Option String) (entries : List (DirEntry D))
      → All (λ e. LiveOnly e.shards) entries
      → All (λ sh. OtherStem q sh.path) (scan before date_stem today only entries)
  scan_apart only [] h = tt
  scan_apart only (e ∷ es) h =
      All-append _ _ _
        (All-choice _ (e.is_dir && (is_ticker e.name && wanted only e.name)) _ _
          (closed_apart e.name e.shards h.0) tt)
        (scan_apart only es h.1)

module _ {H F : Type 0} (w : Wire H) (io : ShardIo (IndexRecord H F)) (median : List ℕ → ℕ) where
  finish-files :
      (q : FilePath) (v : Outcome ArgError ℕ) (b : Bool) (reports : List ShardReport)
      (d d' : World (IndexRecord H F))
      → d'.files q ≡ d.files q
      → (finish w io median v b reports d d').1.files q ≡ d.files q
  finish-files q (err e) b reports d d' h = refl
  finish-files q (ok n) true reports d d' h = refl
  finish-files q (ok n) false reports d d' h = h

-- A file whose stem no shard of an earlier date has, such as the shard of the current day, its
-- backup or its `.new` file, is the same after a run with any arguments, whatever fails on the way.
pub run-live :
    {H F D : Type 0} (w : Wire H) {io : ShardIo (IndexRecord H F)}
    → IsShardIo io
    → (median : List ℕ → ℕ) (before : D → D → Bool) (date_stem : D → String)
    → (le : ShardRef → ShardRef → Bool) (today : D) (entries : List (DirEntry D)) (args : Args)
    → (d : World (IndexRecord H F)) (q : FilePath)
    → All (λ e. LiveOnly before date_stem today q e.shards) entries
    → (run w io median before date_stem le today entries args d).1.files q ≡ d.files q
unfolding run
run-live w {io} laws median before date_stem le today entries args d q h =
    let shards = collect_shards before date_stem le today args.ticker entries in
    finish-files w io median q (validate args) (is_empty shards) _ d _ (
      resample_all-Keeps w laws median args q shards d
        (sort_by-All _ le _ (scan_apart before date_stem today q args.ticker entries h)))
