-- ===== src/Glue/Holes.antt =====
-- The calendar holes that `check_sharded` of src/bin/glue_check.rs looks for. A date is its distance
-- in days from `NaiveDate::MIN`, and `last_day` is `NaiveDate::MAX`.
pub mod Count
use series_factory.Prelude.{
  ℕ, zero, suc, ◌+◌, ◌-◌, Bool, true, false, ◌&&◌, ◌||◌, Option, none, some, List, [], ◌∷◌, ltb,
  leb, ◌==◌, if◌then◌else◌,
}

abbrev pub contains : List ℕ → ℕ → Bool
contains [] d = false
contains (t ∷ ts) d = t == d || contains ts d

-- succ_opt().unwrap_or(d)
abbrev pub succ_or : ℕ → ℕ → ℕ
succ_or last_day d = if ltb d last_day then suc d else d

module _ (last_day : ℕ) (present : List ℕ) (max_date : ℕ) where
  -- The loop from `d`, with at most `fuel` rounds.
  abbrev pub missing_from : ℕ → ℕ → List ℕ
  missing_from zero d = []
  missing_from (suc fuel) d =
      let d' = succ_or last_day d in
      let rest = missing_from fuel d' in
      let behind = if d' == succ_or last_day max_date && d' == max_date then [] else rest in
      if leb d max_date then if contains present d then behind else d ∷ behind else []

-- A round ends on the last day or moves on by one, so this many rounds are enough.
unfoldable pub missing_dates : ℕ → List ℕ → ℕ → ℕ → List ℕ
missing_dates last_day present min_date max_date =
    missing_from last_day present max_date (suc (suc (max_date - min_date))) min_date
