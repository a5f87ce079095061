-- ===== src/Integrity/S10/Missing.antt =====
-- The buckets that `check_s10` of src/bin/integrity_check.rs counts as missing.
use native.Mathlib.Nat.{add-mul, suc-mul}
use series_factory.Prelude.{
  ℕ, suc, ◌+◌, ◌*◌, ◌<◌, ◌≡◌, refl, ap, ◌∙◌, true, false, some, List, [], ◌∷◌, ◌++◌, map, length,
  last_or, arith, ltb,
}
use series_factory.Integrity.File.{Log, whole, no_log, push_all, each_record}
use series_factory.Integrity.Bar.{Real, Bar, BarProblem, total_missing, ohlc_finite}
use series_factory.Integrity.S10.{S10State, s10_start, check_s10_row, of_file, check_s10}
use series_factory.Integrity.S10.Spaced.{After, Passes, IsSpaced, missing_lem, check_s10-PassesFile}

module _ {F : Type 0} (fl : Real F) (bucket_ms : ℕ) (positive : 0 < bucket_ms) where
  abbrev closes : List (Bar F) → List ℕ
  closes = map (λ (bar : Bar F). bar.close_time_ms)

  prev_row :
      (s : S10State) (i : ℕ) (bar : Bar F)
      → (check_s10_row fl bucket_ms s i bar).0.prev_close_ts_ms ≡ some bar.close_time_ms
  unfolding check_s10_row
  prev_row s i bar = refl

  gaps_row :
      (s : S10State) (p i : ℕ) (bar : Bar F) (h : After fl bucket_ms (some p) bar.close_time_ms)
      → s.prev_close_ts_ms ≡ some p
      → ohlc_finite fl bar ≡ true
      → (check_s10_row fl bucket_ms s i bar).0.n_gaps ≡ s.n_gaps + h.0
  unfolding check_s10_row
  gaps_row s p i bar h e f =
      rw (f, e) (ap (λ m. s.n_gaps + m) (missing_lem fl bucket_ms positive p bar.close_time_ms h))

  first_gaps : (bar : Bar F) → (check_s10_row fl bucket_ms s10_start 0 bar).0.n_gaps ≡ 0
  unfolding check_s10_row
  first_gaps bar = ground arith

  telescope :
      (p ts g total l last before now : ℕ)
      → ts ≡ p + (g + 1) * bucket_ms
      → now ≡ before + g
      → ts + (total + l) * bucket_ms ≡ last + now * bucket_ms
      → p + (total + suc l) * bucket_ms ≡ last + before * bucket_ms
  telescope p ts g total l last before now e f h =
      let h' : ts + (total + l) * bucket_ms ≡ last + (before + g) * bucket_ms =
        h ∙ ap (λ n. last + n * bucket_ms) f in
      omega (
        arith,
        add-mul g 1 bucket_ms,
        add-mul total l bucket_ms,
        add-mul total (suc l) bucket_ms,
        suc-mul l bucket_ms,
        add-mul before g bucket_ms,
      )

  n_gaps_lem :
      (bars : List (Bar F)) (s : S10State) (p i : ℕ) (log : Log BarProblem)
      → s.prev_close_ts_ms ≡ some p
      → IsSpaced fl bucket_ms (Passes fl bucket_ms) (some p) bars
      → p
          + ((each_record (check_s10_row fl bucket_ms) s i bars log).0.n_gaps + length bars)
            * bucket_ms
        ≡ last_or p (closes bars) + s.n_gaps * bucket_ms
  n_gaps_lem [] s p i log e h = omega arith
  n_gaps_lem (bar ∷ bars) s p i log e h =
      let one = check_s10_row fl bucket_ms s i bar in
      telescope p bar.close_time_ms h.1.0 _ (length bars) _ s.n_gaps one.0.n_gaps h.1.1
        (gaps_row s p i bar h.1 e h.0.2)
        (n_gaps_lem bars one.0 bar.close_time_ms (suc i) (push_all log one.1) (prev_row s i bar)
          h.2)

  -- Where a file of a bar and more has no error, its bars and the missing buckets that are reported behind the
  -- warnings of the rows fill the time from the first close to the last.
  pub check_s10_missing :
      (bar : Bar F) (bars : List (Bar F))
      → (check_s10 fl bucket_ms false (whole (bar ∷ bars))).log.errors ≡ []
      → (m : ℕ) × (last_or bar.close_time_ms (closes bars)
          ≡ bar.close_time_ms + (m + length bars) * bucket_ms)
        × ((check_s10 fl bucket_ms false (whole (bar ∷ bars))).log.warnings
            ≡ (each_record (check_s10_row fl bucket_ms) s10_start 0 (bar ∷ bars) no_log).1.warnings
              ++ of_file fl bucket_ms (ltb 0 m) (total_missing m))
  unfolding check_s10
  check_s10_missing bar bars h =
      let spaced = (check_s10-PassesFile fl bucket_ms positive (whole (bar ∷ bars))).0 h in
      let one = check_s10_row fl bucket_ms s10_start 0 bar in
      (
        (each_record (check_s10_row fl bucket_ms) s10_start 0 (bar ∷ bars) no_log).0.n_gaps,
        omega (
          arith,
          ap (λ n. n * bucket_ms) (first_gaps bar),
          n_gaps_lem bars one.0 bar.close_time_ms 1 (push_all no_log one.1)
              (prev_row s10_start 0 bar) spaced.2,
        ),
        refl,
      )
