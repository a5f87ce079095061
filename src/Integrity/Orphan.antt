-- ===== src/Integrity/Orphan.antt =====
-- `scan_orphaned_bak` of src/bin/integrity_check.rs: an offline job that renamed the shard of the current day made
-- the live writer follow it to the backup, which is then fresher than the shard.
pub mod Healed
use series_factory.Prelude.{
  ℕ, Bool, true, false, not, Option, none, some, List, [], ◌∷◌, leb, ◌==◌, if◌then◌else◌,
}

-- A file, and its modification time where that can be read.
pub record Stamped (C : Type 0) : Type 0 where
  pub mtime : Option ℕ
  pub content : C

-- An entry of the scanned directory, with the shard and the backup of the current day in it. `renames` is
-- whether the file system lets the backup be renamed.
pub record Entry (C : Type 0) : Type 0 where
  pub is_dir : Bool
  pub idx : Option (Stamped C)
  pub bak : Option (Stamped C)
  pub renames : Bool

-- `idx_mtime` is `none` for "MISSING".
pub record OrphanBakFinding : Type 0 where
  pub idx_mtime : Option ℕ
  pub bak_mtime : ℕ
  pub promoted : Bool

abbrev pub or_epoch : Option ℕ → ℕ
or_epoch none = 0
or_epoch (some t) = t

abbrev pub finding : ℕ → ℕ → Bool → OrphanBakFinding
finding bm im promoted = record {
  idx_mtime = if im == 0 then none else some im;
  bak_mtime = bm;
  promoted = promoted;
}

abbrev pub add_finding : Option OrphanBakFinding → List OrphanBakFinding → List OrphanBakFinding
add_finding none out = out
add_finding (some f) out = f ∷ out

module _ {C : Type 0} where
  abbrev pub mtime_of : Option (Stamped C) → Option ℕ
  mtime_of none = none
  mtime_of (some f) = f.mtime

  -- The rename of the backup over the shard.
  abbrev pub promote : Entry C → Entry C
  promote e = if e.renames then record e { idx = e.bak; bak = none } else e

  abbrev pub scan_fresher : Bool → Entry C → ℕ → ℕ → Entry C × Option OrphanBakFinding
  scan_fresher heal e bm im =
      if leb bm im
      then (e, none)
      else if heal
      then (promote e, some (finding bm im e.renames))
      else (e, some (finding bm im false))

  -- A backup that is no file, or whose time cannot be read, is passed over.
  abbrev pub scan_bak : Bool → Entry C → Option ℕ → Entry C × Option OrphanBakFinding
  scan_bak heal e none = (e, none)
  scan_bak heal e (some bm) = scan_fresher heal e bm (or_epoch (mtime_of e.idx))

  unfoldable pub scan_entry : Bool → Entry C → Entry C × Option OrphanBakFinding
  scan_entry heal e = if e.is_dir then scan_bak heal e (mtime_of e.bak) else (e, none)

  -- The directory is none where it cannot be read.
  abbrev pub scan_entries : Bool → List (Entry C) → List (Entry C) × List OrphanBakFinding
  scan_entries heal [] = ([], [])
  scan_entries heal (e ∷ entries) =
      let (e', f) = scan_entry heal e in
      let (entries', out) = scan_entries heal entries in (e' ∷ entries', add_finding f out)

  unfoldable pub scan_orphaned_bak :
      Bool → Option (List (Entry C)) → Option (List (Entry C)) × List OrphanBakFinding
  unfolding scan_entry
  scan_orphaned_bak heal none = (none, [])
  scan_orphaned_bak heal (some entries) =
      let (entries', out) = scan_entries heal entries in (some entries', out)
