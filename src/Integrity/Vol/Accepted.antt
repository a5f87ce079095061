-- ===== src/Integrity/Vol/Accepted.antt =====
-- Which files `check_vol` of src/bin/integrity_check.rs has no error for.
use series_factory.Prelude.{
  ℕ, suc, ◌+◌, ◌≤◌, ◌<◌, ◌≡◌, refl, sym, subst, true, false, ◌↔◌, Option, none, some, List, [], ◌∷◌,
  arith,
}
use series_factory.Integrity.File.{Log, Content, torn, whole, push_all, each_record, no_log}
use series_factory.Integrity.File.Clean.{append_empty}
use series_factory.Integrity.Vol.{
  Sigma, VolRecord, VolState, Problem, epoch_2000_ms, future_slack_ms, epoch_errors, order_errors,
  sigma_errors, check_vol_row, vol_start, check_vol,
}

module _ {F : Type 0} (fl : Sigma F) (to_epoch_ms : ℕ → ℕ) (now_ms : ℕ → ℕ) where
  abbrev pub Behind : Option ℕ → ℕ → Type 0
  Behind none mts = Unit {0}
  Behind (some prev) mts = prev < mts

  -- Rows behind one at `prev`: sane times, strictly increasing, and volatilities in their range.
  abbrev pub IsSane : Option ℕ → ℕ → List (VolRecord F) → Type 0
  IsSane prev i [] = Unit {0}
  IsSane prev i (r ∷ rows) =
      (epoch_2000_ms ≤ to_epoch_ms r.mts)
      × (to_epoch_ms r.mts ≤ now_ms i + future_slack_ms)
      × Behind prev r.mts
      × (fl.is_finite r.sigma_pct ≡ true)
      × (fl.below_zero r.sigma_pct ≡ false)
      × (fl.at_ceiling r.sigma_pct ≡ false)
      × (fl.in_range r.sigma_pct ≡ true)
      × IsSane (some r.mts) (suc i) rows

  abbrev pub IsSaneFile : Content (VolRecord F) → Type 0
  IsSaneFile (torn n) = 1 ≤ 0
  IsSaneFile (whole rows) = IsSane none 0 rows

  epoch_errors_iff :
      (i ts : ℕ)
      → (epoch_errors fl to_epoch_ms now_ms i ts ≡ [])
        ↔ ((epoch_2000_ms ≤ ts) × (ts ≤ now_ms i + future_slack_ms))
  epoch_errors_iff i ts = (λ h. ground arith, λ h. ground arith)

  order_errors_iff :
      (i : ℕ) (prev : Option ℕ) (mts : ℕ)
      → (order_errors fl to_epoch_ms now_ms i prev mts ≡ []) ↔ Behind prev mts
  order_errors_iff i none mts = (λ h. tt, λ h. refl)
  order_errors_iff i (some prev) mts = (λ h. ground arith, λ h. ground arith)

  abbrev SaneSigma : F → Type 0
  SaneSigma sigma =
      (fl.is_finite sigma ≡ true)
      × (fl.below_zero sigma ≡ false)
      × (fl.at_ceiling sigma ≡ false)
      × (fl.in_range sigma ≡ true)

  sigma_errors_iff :
      (i : ℕ) (sigma : F) → (sigma_errors fl to_epoch_ms now_ms i sigma ≡ []) ↔ SaneSigma sigma
  sigma_errors_iff i sigma = (λ h. ground arith, λ h. ground arith)

  check_vol_row-errors :
      (s : VolState F) (i : ℕ) (r : VolRecord F)
      → ((check_vol_row fl to_epoch_ms now_ms s i r).1.errors ≡ []) ↔ IsSane s.prev_mts i (r ∷ [])
  unfolding check_vol_row
  check_vol_row-errors s i r = (
    λ h.
        let first =
          (append_empty (epoch_errors fl to_epoch_ms now_ms i (to_epoch_ms r.mts)) _).0 h in
        let second =
          (append_empty (order_errors fl to_epoch_ms now_ms i s.prev_mts r.mts) _).0 first.1 in
        let time = (epoch_errors_iff i (to_epoch_ms r.mts)).0 first.0 in
        let sigma = (sigma_errors_iff i r.sigma_pct).0 second.1 in
        (
          time.0,
          time.1,
          (order_errors_iff i s.prev_mts r.mts).0 second.0,
          sigma.0,
          sigma.1,
          sigma.2,
          sigma.3,
          tt,
        ),
    λ h. (append_empty (epoch_errors fl to_epoch_ms now_ms i (to_epoch_ms r.mts)) _).1 (
      (epoch_errors_iff i (to_epoch_ms r.mts)).1 (h.0, h.1),
      (append_empty (order_errors fl to_epoch_ms now_ms i s.prev_mts r.mts) _).1 (
        (order_errors_iff i s.prev_mts r.mts).1 h.2,
        (sigma_errors_iff i r.sigma_pct).1 (h.3, h.4, h.5, h.6),
      ),
    ),
  )

  prev-check_vol_row :
      (s : VolState F) (i : ℕ) (r : VolRecord F)
      → (check_vol_row fl to_epoch_ms now_ms s i r).0.prev_mts ≡ some r.mts
  unfolding check_vol_row
  prev-check_vol_row s i r = ground arith

  -- The loop pushes no error exactly over sane rows.
  each_record-errors :
      (rows : List (VolRecord F)) (s : VolState F) (i : ℕ) (log : Log Problem)
      → ((each_record (check_vol_row fl to_epoch_ms now_ms) s i rows log).1.errors ≡ [])
        ↔ ((log.errors ≡ []) × IsSane s.prev_mts i rows)
  each_record-errors [] s i log = (λ h. (h, tt), λ h. h.0)
  each_record-errors (r ∷ rows) s i log =
      let one = check_vol_row fl to_epoch_ms now_ms s i r in
      let ih = each_record-errors rows one.0 (suc i) (push_all log one.1) in
      let row = check_vol_row-errors s i r in
      let split = append_empty log.errors one.1.errors in
      (
        λ h.
            let both = ih.0 h in
            let now = row.0 (split.0 both.0).1 in
            (
              (split.0 both.0).0,
              (
                now.0,
                now.1,
                now.2,
                now.3,
                now.4,
                now.5,
                now.6,
                subst (λ p. IsSane p (suc i) rows) (prev-check_vol_row s i r) both.1,
              ),
            ),
        λ h. ih.1 (
          split.1 (h.0, row.1 (h.1.0, h.1.1, h.1.2, h.1.3, h.1.4, h.1.5, h.1.6, tt)),
          subst (λ p. IsSane p (suc i) rows) (sym (prev-check_vol_row s i r)) h.1.7,
        ),
      )

  -- A file has no error exactly if it is whole, its times are sane and strictly increase, and each volatility
  -- is finite and in its range.
  check_vol-IsSaneFile :
      (file : Content (VolRecord F))
      → ((check_vol fl to_epoch_ms now_ms file).log.errors ≡ []) ↔ IsSaneFile file
  unfolding check_vol
  check_vol-IsSaneFile (torn n) = (λ h. cc h, λ h. elim (absurd_of h) [ ])
    where
      absurd_of : 1 ≤ 0 → 1 ≤ 0
      absurd_of h = h
  check_vol-IsSaneFile (whole []) = (λ h. tt, λ h. refl)
  check_vol-IsSaneFile (whole (r ∷ rows)) =
      let all = each_record-errors (r ∷ rows) (vol_start fl to_epoch_ms now_ms) 0 no_log in
      (
        λ h. (all.0 ((append_empty _ []).0 h).0).1,
        λ h. (append_empty _ []).1 (all.1 (refl, h), refl),
      )
