-- ===== src/Resample/Shard/Commit.antt =====
-- The swap of a resampled shard into place: what is on disk when a run ends at any point.
use series_factory.Prelude.{
  ℕ, zero, suc, ◌≡◌, refl, ◌∙◌, ap, ◌⊎◌, inl, inr, Bool, true, false, Option, none, some, List, [],
  ◌∷◌, arith, if◌then◌else◌, ◌-◌, not, ◌&&◌, is_empty, filter, length, ◌==◌,
}
use series_factory.Mitch.{IndexRecord, Wire}
use series_factory.Files.{
  FilePath, same_path, Files, write, World, Io, done, fault, continue, ◌>>=◌, pure, rename, ShardIo,
  IsShardIo,
}
use series_factory.Resample.Bucket.{resample_last_in_bucket}
use series_factory.Resample.Spacing.{is_already_target}
use series_factory.Resample.Verify.{verify_invariants}
use series_factory.Files.Laws.{
  write_self, write_ne, if_action, continue-pure, rename_total, rename_refused,
}
use series_factory.Prelude.Parse.{parse_u64}
use series_factory.Resample.Shard.{
  Args, ShardRef, or_fault, file_len, swap_in, final_report, resample_records, resample_shard,
}

abbrev pub bak : FilePath → FilePath
bak path = record path { suffix = "idx.bak" }

abbrev pub new : FilePath → FilePath
new path = record path { suffix = "idx.new" }

-- The shard has its original records, or these are in the backup and the shard is the resampled
-- one, or about to become it.
abbrev pub Recoverable : {R : Type 0} → FilePath → List R → List R → Files R → Type 0
Recoverable path original resampled files =
    (files path ≡ some original)
    ⊎ ((files (bak path) ≡ some original)
        × (((files path ≡ none) × (files (new path) ≡ some resampled))
            ⊎ (files path ≡ some resampled)))

module _ (path : FilePath) (idx : path.suffix ≡ "idx") where
  pub new-ne-path : same_path (new path) path ≡ false
  new-ne-path = rw idx

  pub path-ne-bak : same_path path (bak path) ≡ false
  path-ne-bak = rw idx

  pub bak-ne-path : same_path (bak path) path ≡ false
  bak-ne-path = rw idx

  pub path-ne-new : same_path path (new path) ≡ false
  path-ne-new = rw idx

module _ {R : Type 0} (path : FilePath) (idx : path.suffix ≡ "idx") where
  -- After the first rename.
  abbrev pub moved : List R → Files R → Files R
  moved original files = write (bak path) (some original) (write path none files)

  moved_path : (original : List R) (files : Files R) → moved original files path ≡ none
  moved_path original files =
      write_ne (bak path) path _ (write path none files) (bak-ne-path path idx)
      ∙ write_self path none files

  moved-bak :
      (original : List R) (files : Files R) → moved original files (bak path) ≡ some original
  moved-bak original files = write_self (bak path) _ (write path none files)

  pub moved-new :
      (original : List R) (files : Files R) → moved original files (new path) ≡ files (new path)
  moved-new original files = write_ne path (new path) none files (path-ne-new path idx)

  -- After the second.
  pub swapped-bak :
      (original resampled : List R) (files : Files R)
      → write path (some resampled) (write (new path) none (moved original files)) (bak path)
        ≡ some original
  swapped-bak original resampled files =
      write_ne path (bak path) _ (write (new path) none (moved original files))
        (path-ne-bak path idx)
      ∙ moved-bak original files

  -- The two renames, whatever the budget.
  renames :
      (original resampled : List R) (files : Files R) (n : ℕ)
      → files path ≡ some original
      → files (new path) ≡ some resampled
      → Recoverable path original resampled
          ((rename path (bak path) >>= λ _. rename (new path) path)
            (record { files = files; budget = n })).1.files
  renames original resampled files zero p q = rw (rename_refused path (bak path) files) (inl p)
  renames original resampled files (suc zero) p q =
      rw (rename_total path (bak path) files 0 original p, rename_refused)
        (inr
          (moved-bak original files, inl (moved_path original files, moved-new original files ∙ q)))
  renames original resampled files (suc (suc n)) p q =
      rw
        (
          rename_total path (bak path) files (suc n) original p,
          rename_total (new path) path (moved original files) n resampled
              (moved-new original files ∙ q),
        )
        (inr (
          swapped-bak original resampled files,
          inr (write_self path _ (write (new path) none (moved original files))),
        ))

-- The records of the directory's ticker, as `retain` leaves them.
abbrev pub own_records : {H F : Type 0} → Option ℕ → List (IndexRecord H F) → List (IndexRecord H F)
own_records none raw = []
own_records (some t) raw = filter (λ r. r.index.ticker == t) raw

file_len-files : {R : Type 0} (p : FilePath) (d : World R) → (file_len p d).1.files ≡ d.files
unfolding file_len
file_len-files p d = ground arith

module _ {H F : Type 0} (w : Wire H) {io : ShardIo (IndexRecord H F)} (laws : IsShardIo io)
    (median : List ℕ → ℕ) (sh : ShardRef) (args : Args) (idx : sh.path.suffix ≡ "idx") where
  abbrev Rec : Type 0
  Rec = IndexRecord H F

  after_write :
      (original resampled : List Rec) (r : Io (Unit {0})) (d : World Rec) (commit : Bool)
      → d.files sh.path ≡ some original
      → (r ≡ done tt → d.files (new sh.path) ≡ some resampled)
      → Recoverable sh.path original resampled
          (continue r
            (λ _.
              if commit
              then (rename sh.path (bak sh.path) >>= λ _. rename (new sh.path) sh.path)
              else pure tt)
            d).1.files
  after_write original resampled (fault e) d commit h k = inl h
  after_write original resampled (done tt) d false h k = inl h
  after_write original resampled (done tt) d true h k =
      renames sh.path idx original resampled d.files d.budget h (k refl)

  swap_in-Recoverable :
      (original resampled : List Rec) (d : World Rec)
      → d.files sh.path ≡ some original
      → Recoverable sh.path original resampled (swap_in w io median sh args resampled d).1.files
  unfolding swap_in
  swap_in-Recoverable original resampled d h =
      let (r, d') = io.write_atomic (new sh.path) resampled d in
      after_write original resampled r d' args.commit
        (laws.write_other (new sh.path) sh.path resampled d (new-ne-path sh.path idx) ∙ h)
        (laws.write_done (new sh.path) resampled d)

  -- Everything before the swap only reads.
  records-Recoverable :
      (bytes_old raw_count dropped : ℕ) (original records : List Rec) (d : World Rec)
      → d.files sh.path ≡ some original
      → Recoverable sh.path original
          (resample_last_in_bucket w records args.target_ms)
          (resample_records w io median sh args bytes_old raw_count dropped records d).1.files
  unfolding resample_records
  records-Recoverable bytes_old raw_count dropped original [] d h = inl h
  records-Recoverable bytes_old raw_count dropped original (r ∷ rs) d h =
      let records = r ∷ rs in
      let resampled = resample_last_in_bucket w records args.target_ms in
      let failures = verify_invariants w records resampled args.target_ms in
      if_action (Recoverable sh.path original resampled)
        (is_already_target w median records args.target_ms) _ _ d (inl h)
        (rw
          (continue-pure _
            (final_report w io median sh bytes_old dropped records resampled failures) _)
          (if_action (Recoverable sh.path original resampled)
            (not args.dry_run && is_empty failures) (swap_in w io median sh args resampled)
            (pure tt) d (swap_in-Recoverable original resampled d h) (inl h)))

  read-Recoverable :
      (bytes_old t : ℕ) (original : List Rec) (r : Io (List Rec)) (d : World Rec)
      → d.files sh.path ≡ some original
      → ((raw : List Rec) → r ≡ done raw → raw ≡ original)
      → Recoverable sh.path original
          (resample_last_in_bucket w (own_records (some t) original) args.target_ms)
          (continue r
            (λ raw.
              resample_records w io median sh args bytes_old
                (length raw)
                (length raw - length (own_records (some t) raw))
                (own_records (some t) raw))
            d).1.files
  read-Recoverable bytes_old t original (fault e) d h k = inl h
  read-Recoverable bytes_old t original (done raw) d h k =
      rw (k raw refl)
        (records-Recoverable bytes_old _ _ original (own_records (some t) original) d h)

  -- The length is read before the records.
  len-Recoverable :
      (t : ℕ) (original : List Rec) (r : Io ℕ) (d : World Rec)
      → d.files sh.path ≡ some original
      → Recoverable sh.path original
          (resample_last_in_bucket w (own_records (some t) original) args.target_ms)
          (continue r
            (λ bytes_old. io.read_shard_aligned sh.path >>= λ raw.
              resample_records w io median sh args bytes_old
                (length raw)
                (length raw - length (own_records (some t) raw))
                (own_records (some t) raw))
            d).1.files
  len-Recoverable t original (fault e) d h = inl h
  len-Recoverable t original (done bytes_old) d h =
      let (r, d') = io.read_shard_aligned sh.path d in
      read-Recoverable bytes_old t original r d'
        (ap (λ (f : Files Rec). f sh.path) (laws.files-read sh.path d) ∙ h)
        (λ raw e. cc (laws.read_done sh.path d raw e))

  ticker-Recoverable :
      (t : Option ℕ) (original : List Rec) (d : World Rec)
      → d.files sh.path ≡ some original
      → Recoverable sh.path original
          (resample_last_in_bucket w (own_records t original) args.target_ms)
          ((or_fault t >>= λ expected. file_len sh.path >>= λ bytes_old.
              io.read_shard_aligned sh.path >>= λ raw.
              resample_records w io median sh args bytes_old
                (length raw)
                (length raw - length (own_records (some expected) raw))
                (own_records (some expected) raw))
            d).1.files
  ticker-Recoverable none original d h = inl h
  ticker-Recoverable (some t) original d h =
      let (r, d') = file_len sh.path d in
      len-Recoverable t original r d'
        (ap (λ (f : Files Rec). f sh.path) (file_len-files sh.path d) ∙ h)

-- However far a run of `resample_shard` on a readable `.idx` shard gets, and whatever its arguments,
-- the shard on disk keeps its original records, or else the `.bak` file has them and the shard is
-- either the resampled records or absent with the resampled records in `.new`.
pub resample_shard-Recoverable :
    {H F : Type 0} (w : Wire H) {io : ShardIo (IndexRecord H F)}
    → IsShardIo io
    → (median : List ℕ → ℕ) (sh : ShardRef) (args : Args) → sh.path.suffix ≡ "idx"
    → (original : List (IndexRecord H F)) (d : World (IndexRecord H F))
    → d.files sh.path ≡ some original
    → Recoverable sh.path original
        (resample_last_in_bucket w (own_records (parse_u64 sh.ticker) original) args.target_ms)
        (resample_shard w io median sh args d).1.files
unfolding resample_shard
resample_shard-Recoverable w laws median sh args idx original d h =
    ticker-Recoverable w laws median sh args idx (parse_u64 sh.ticker) original d h
