-- ===== src/Integrity/Orphan/Healed.antt =====
-- What a scan for orphaned backups with healing leaves.
use series_factory.Prelude.{
  ℕ, ◌≤◌, ◌<◌, ◌≡◌, refl, ap, Bool, true, false, Option, none, some, List, [], ◌∷◌, ap₂, inl, inr,
  Bool-cases, All, arith, leb, if◌then◌else◌,
}
use series_factory.Integrity.Orphan.{
  Stamped, Entry, or_epoch, scan_entry, scan_entries, scan_orphaned_bak,
}

module _ {C : Type 0} where
  -- A time that can be read, behind the epoch.
  abbrev pub IsTimed : Option (Stamped C) → Type 0
  IsTimed none = Unit {0}
  IsTimed (some f) = (t : ℕ) × (f.mtime ≡ some t) × (0 < t)

  abbrev pub IsReadable : Entry C → Type 0
  IsReadable e = IsTimed e.idx × IsTimed e.bak × (e.renames ≡ true)

  -- The fresher of two files, the first of two that are equal.
  abbrev pub fresher : Option (Stamped C) → Option (Stamped C) → Option (Stamped C)
  fresher idx none = idx
  fresher none (some b) = some b
  fresher (some i) (some b) = if leb (or_epoch b.mtime) (or_epoch i.mtime) then some i else some b

  -- In a directory, readers see the fresher file.
  abbrev pub IsHealed : Entry C → Entry C → Type 0
  IsHealed e e' = (e.is_dir ≡ true → e'.idx ≡ fresher e.idx e.bak) × (e.is_dir ≡ false → e' ≡ e)

  -- What a scan with healing does to one directory.
  abbrev Fixed : Entry C → Option (Stamped C) → Option (Stamped C) → Type 0
  Fixed e idx bak =
      ((scan_entry true e).0.idx ≡ fresher idx bak)
      × ((heal : Bool)
          → ((scan_entry heal (scan_entry true e).0).0 ≡ (scan_entry true e).0)
            × ((scan_entry heal (scan_entry true e).0).1 ≡ none))

  healed :
      (e : Entry C) (idx bak : Option (Stamped C))
      → e.idx ≡ idx
      → e.bak ≡ bak
      → e.is_dir ≡ true
      → e.renames ≡ true
      → IsTimed idx
      → IsTimed bak
      → Fixed e idx bak
  unfolding scan_entry
  healed e none none p q d r h k = (ground arith, λ heal. (ground arith, ground arith))
  healed e (some i) none p q d r h k = (ground arith, λ heal. (ground arith, ground arith))
  healed e none (some b) p q d r h k = (ground arith, λ heal. (ground arith, ground arith))
  healed e (some i) (some b) p q d r h k = (ground arith, λ heal. (ground arith, ground arith))

  abbrev Settled : Entry C → Type 0
  Settled e =
      IsHealed e (scan_entry true e).0
      × ((heal : Bool)
          → ((scan_entry heal (scan_entry true e).0).0 ≡ (scan_entry true e).0)
            × ((scan_entry heal (scan_entry true e).0).1 ≡ none))

  elsewhere : (e : Entry C) → e.is_dir ≡ false → (scan_entry true e).0 ≡ e
  unfolding scan_entry
  elsewhere e d = ground arith

  elsewhere_again :
      (e : Entry C)
      → e.is_dir ≡ false
      → (heal : Bool)
      → ((scan_entry heal (scan_entry true e).0).0 ≡ (scan_entry true e).0)
        × ((scan_entry heal (scan_entry true e).0).1 ≡ none)
  unfolding scan_entry
  elsewhere_again e d heal = (ground arith, ground arith)

  settled : (e : Entry C) → IsReadable e → Settled e
  settled e h = elim (Bool-cases e.is_dir) [
    | inl d ↦
        let f = healed e e.idx e.bak refl refl d h.2 h.0 h.1 in
        ((λ _. f.0, λ n. absurd_of d n), f.1)
    | inr d ↦ ((λ y. absurd_of y d, λ _. elsewhere e d), λ heal. elsewhere_again e d heal)
  ]
    where
      absurd_of : {A : Type 0} → e.is_dir ≡ true → e.is_dir ≡ false → A
      absurd_of y n = cc (y, n)

  untouched : (e : Entry C) → (scan_entry false e).0 ≡ e
  unfolding scan_entry
  untouched e = ground arith

  -- Entry by entry.
  abbrev pub AllHealed : List (Entry C) → List (Entry C) → Type 0
  AllHealed [] [] = Unit {0}
  AllHealed [] (e' ∷ es') = 1 ≤ 0
  AllHealed (e ∷ es) [] = 1 ≤ 0
  AllHealed (e ∷ es) (e' ∷ es') = IsHealed e e' × AllHealed es es'

  scan_entries-AllHealed :
      (entries : List (Entry C))
      → All IsReadable entries
      → AllHealed entries (scan_entries true entries).0
        × ((heal : Bool)
            → scan_entries heal (scan_entries true entries).0 ≡ ((scan_entries true entries).0, []))
  scan_entries-AllHealed [] h = (tt, λ heal. refl)
  scan_entries-AllHealed (e ∷ es) h =
      let one = settled e h.0 in
      let ih = scan_entries-AllHealed es h.1 in
      ((one.0, ih.0), λ heal. again heal (one.1 heal) (ih.1 heal))
    where
      again :
          (heal : Bool)
          → ((scan_entry heal (scan_entry true e).0).0 ≡ (scan_entry true e).0)
            × ((scan_entry heal (scan_entry true e).0).1 ≡ none)
          → scan_entries heal (scan_entries true es).0 ≡ ((scan_entries true es).0, [])
          → scan_entries heal (scan_entries true (e ∷ es)).0 ≡ ((scan_entries true (e ∷ es)).0, [])
      again heal h k = rw (h.0, h.1, k)

  scan_entries-reports : (entries : List (Entry C)) → (scan_entries false entries).0 ≡ entries
  scan_entries-reports [] = refl
  scan_entries-reports (e ∷ es) = ap₂ (λ a as'. a ∷ as') (untouched e) (scan_entries-reports es)

  -- A scan that only reports moves nothing. A scan with healing, where the times of the files can be read and are
  -- behind the epoch and the renames succeed, leaves in each directory the fresher of the shard and its backup as
  -- the shard, and everything else as it is; a further scan of either kind then finds and moves nothing.
  pub scan_orphaned_bak-AllHealed :
      (entries : List (Entry C))
      → All IsReadable entries
      → ((scan_orphaned_bak false (some entries)).0 ≡ some entries)
        × AllHealed entries (scan_entries true entries).0
        × ((scan_orphaned_bak true (some entries)).0 ≡ some (scan_entries true entries).0)
        × ((heal : Bool)
            → scan_orphaned_bak heal (scan_orphaned_bak true (some entries)).0
              ≡ ((scan_orphaned_bak true (some entries)).0, []))
  unfolding scan_orphaned_bak
  scan_orphaned_bak-AllHealed entries h =
      let r = scan_entries-AllHealed entries h in
      (ap some (scan_entries-reports entries), r.0, refl, λ heal. rw (r.1 heal))
