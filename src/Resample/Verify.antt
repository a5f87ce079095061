-- ===== src/Resample/Verify.antt =====
-- `verify_invariants` of src/bin/resample_idx.rs: the seven self-checks that gate a commit.
pub mod Passes
use series_factory.Prelude.{
  ℕ, ◌%◌, bit_and, Bool, not, Option, none, some, List, [], ◌∷◌, ◌++◌, length, head?, last?, any,
  find?, ltb, leb, ◌==◌, if◌then◌else◌,
}
use series_factory.Mitch.{IndexRecord, Wire}
use series_factory.Resample.Bucket.{ts_of}

pub data Marker : Type 0 where
  freshness active : Marker

-- One for each `failures.push(format!(...))`, with what the message shows.
pub data Failure : Type 0 where
  count_grew : ℕ → ℕ → Failure
  not_aligned : ℕ → ℕ → Failure
  non_increasing : ℕ → ℕ → Failure
  after_last : ℕ → ℕ → Failure
  missing_healed : ℕ → Failure
  fabricated : Marker → ℕ → Failure
  type_changed : ℕ → ℕ → Failure

module _ {H F : Type 0} (w : Wire H) where
  -- (r.index.flags & bit) != 0
  abbrev pub has_flag : ℕ → IndexRecord H F → Bool
  has_flag bit r = not (bit_and r.index.flags bit == 0)

  unfoldable pub check_count : List (IndexRecord H F) → List (IndexRecord H F) → List Failure
  check_count old new =
      if ltb (length old) (length new) then count_grew (length old) (length new) ∷ [] else []

  abbrev pub report_unaligned : ℕ → Option (IndexRecord H F) → List Failure
  report_unaligned target_ms none = []
  report_unaligned target_ms (some bad) = not_aligned (ts_of w bad) target_ms ∷ []

  unfoldable pub check_aligned : List (IndexRecord H F) → ℕ → List Failure
  check_aligned new target_ms =
      report_unaligned target_ms (find? (λ r. not (ts_of w r % target_ms == 0)) new)

  -- `for w in new.windows(2)`, which stops at its first failure.
  unfoldable pub check_increasing : List (IndexRecord H F) → List Failure
  check_increasing [] = []
  check_increasing (x ∷ []) = []
  check_increasing (x ∷ y ∷ rest) =
      let later = check_increasing (y ∷ rest) in
      if leb (ts_of w y) (ts_of w x) then non_increasing (ts_of w x) (ts_of w y) ∷ [] else later

  unfoldable pub check_last : Option (IndexRecord H F) → Option (IndexRecord H F) → List Failure
  check_last none oldest = []
  check_last (some newest) none = []
  check_last (some newest) (some oldest) =
      if ltb (ts_of w oldest) (ts_of w newest)
      then after_last (ts_of w newest) (ts_of w oldest) ∷ []
      else []

  abbrev pub report_unmarked : Option (IndexRecord H F) → List Failure
  report_unmarked none = []
  report_unmarked (some bad) = missing_healed bad.index.flags ∷ []

  unfoldable pub check_healed : List (IndexRecord H F) → List Failure
  check_healed new = report_unmarked (find? (λ r. not (has_flag w.flag_idx_healed r)) new)

  abbrev pub report_fabricated : Marker → Option (IndexRecord H F) → List Failure
  report_fabricated name none = []
  report_fabricated name (some bad) = fabricated name bad.index.flags ∷ []

  unfoldable pub check_marker :
      Marker → ℕ → List (IndexRecord H F) → List (IndexRecord H F) → List Failure
  check_marker name bit old new =
      if any (has_flag bit) old then [] else report_fabricated name (find? (has_flag bit) new)

  unfoldable pub check_type : Option (IndexRecord H F) → Option (IndexRecord H F) → List Failure
  check_type none n = []
  check_type (some o) none = []
  check_type (some o) (some n) =
      let ot = w.message_type o.header in
      let nt = w.message_type n.header in if ot == nt then [] else type_changed ot nt ∷ []

  -- The checks in the order of the source, each appending to `failures`.
  unfoldable pub verify_invariants :
      List (IndexRecord H F) → List (IndexRecord H F) → ℕ → List Failure
  verify_invariants old new target_ms =
      check_count old new
      ++ (check_aligned new target_ms
          ++ (check_increasing new
              ++ (check_last (last? new) (last? old)
                  ++ (check_healed new
                      ++ (check_marker freshness w.flag_conf_freshness old new
                          ++ (check_marker active w.flag_conf_active old new
                              ++ check_type (head? old) (head? new)))))))
