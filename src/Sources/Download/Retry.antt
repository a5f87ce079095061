-- ===== src/Sources/Download/Retry.antt =====
-- Which attempt of `download_to_file_retry` decides.
use series_factory.Prelude.{
  ℕ, zero, suc, ◌+◌, ◌≤◌, ◌<◌, ◌≡◌, refl, sym, subst, ◌∙◌, ap, ◌⊎◌, inl, inr, Bool, true, false,
  not, Option, none, some, arith, Bool-cases, ◌==◌, ==_iff, if◌then◌else◌,
}
use series_factory.Prelude.Outcome.{Outcome, ok, err}
use series_factory.Sources.Download.{
  DownloadedArchive, RetryError, transfer, is_truncated, unwrapped, Answer, truncation, attempt,
  attempts, download_to_file_retry,
}

module _ {P E : Type 0} (missing : E → Bool) (download : ℕ → Outcome E (DownloadedArchive P)) where
  -- A whole archive, or an object that is not there.
  abbrev pub decides : Outcome E (DownloadedArchive P) → Bool
  decides (ok dl) = not (is_truncated dl.bytes_got dl.content_length)
  decides (err e) = missing e

  -- What an attempt means for the caller.
  abbrev pub meaning :
      Outcome E (DownloadedArchive P) → Outcome (RetryError E) (DownloadedArchive P)
  meaning (ok dl) =
      if is_truncated dl.bytes_got dl.content_length
      then err (truncation missing download dl)
      else ok dl
  meaning (err e) = err (transfer e)

  -- The attempt `i` decides; or none of them does, and it is the last.
  abbrev pub Settles : ℕ → ℕ → ℕ → Answer missing download → Type 0
  Settles first past i answer =
      (answer ≡ some (meaning (download i)))
      × (first ≤ i)
      × (i < past)
      × ((j : ℕ) → first ≤ j → j < i → decides (download j) ≡ false)
      × ((decides (download i) ≡ true) ⊎ (suc i ≡ past))

  attempt-decides :
      (next : Option (RetryError E) → Answer missing download) (o : Outcome E (DownloadedArchive P))
      → decides o ≡ true
      → attempt missing download next o ≡ some (meaning o)
  attempt-decides next (ok dl) h = ground arith
  attempt-decides next (err e) h = rw h refl

  attempt-fails :
      (next : Option (RetryError E) → Answer missing download) (o : Outcome E (DownloadedArchive P))
      → decides o ≡ false
      → (cause : RetryError E) × (attempt missing download next o ≡ next (some cause))
        × (meaning o ≡ err cause)
  attempt-fails next (ok dl) h = (truncation missing download dl, rw short refl, rw short refl)
    where
      short : is_truncated dl.bytes_got dl.content_length ≡ true
      short = ground arith
  attempt-fails next (err e) h = (transfer e, rw h refl, refl)

  abbrev Settled : ℕ → ℕ → Answer missing download → Type 0
  Settled first past answer = (i : ℕ) × Settles first past i answer

  -- The first attempt decides.
  at_once :
      (first past : ℕ) (next : Option (RetryError E) → Answer missing download)
      → first < past
      → decides (download first) ≡ true
      → Settled first past (attempt missing download next (download first))
  at_once first past next lt h = (
    first,
    (
      attempt-decides next (download first) h,
      omega arith,
      lt,
      λ j le below. elim (none_between j le below) [ ],
      inl h,
    ),
  )
    where
      none_between : (j : ℕ) → first ≤ j → j < first → 1 ≤ 0
      none_between j le below = omega arith

  -- The only attempt fails.
  gives_up :
      (first : ℕ)
      → decides (download first) ≡ false
      → Settled first (suc first) (attempt missing download unwrapped (download first))
  gives_up first h = (
    first,
    (
      f.1 ∙ ap some (sym f.2),
      omega arith,
      omega arith,
      λ j le below. elim (none_between j le below) [ ],
      inr refl,
    ),
  )
    where
      f :
          (cause : RetryError E) × (attempt missing download unwrapped (download first)
            ≡ unwrapped (some cause))
          × (meaning (download first) ≡ err cause)
      f = attempt-fails unwrapped (download first) h

      none_between : (j : ℕ) → first ≤ j → j < first → 1 ≤ 0
      none_between j le below = omega arith

  -- The first attempt fails and others are left.
  goes_on :
      (first past : ℕ) (next : Option (RetryError E) → Answer missing download)
      → decides (download first) ≡ false
      → ((last_err : Option (RetryError E)) → Settled (suc first) past (next last_err))
      → Settled first past (attempt missing download next (download first))
  goes_on first past next h rest = (
    r.0,
    (
      f.1 ∙ r.1.0,
      omega (arith, r.1.1),
      r.1.2,
      λ j le below. elim (Bool-cases (j == first)) [
        | inl same ↦ subst (λ t. decides (download t) ≡ false) (sym ((==_iff j first).0 same)) h
        | inr other ↦ r.1.3 j (above j le other) below
      ],
      r.1.4,
    ),
  )
    where
      f :
          (cause : RetryError E) × (attempt missing download next (download first)
            ≡ next (some cause))
          × (meaning (download first) ≡ err cause)
      f = attempt-fails next (download first) h

      r : Settled (suc first) past (next (some f.0))
      r = rest (some f.0)

      above : (j : ℕ) → first ≤ j → (j == first) ≡ false → suc first ≤ j
      above j le other = ground arith

  attempts-Settled :
      (left first past : ℕ) (last_err : Option (RetryError E))
      → first + suc left ≡ past
      → Settled first past (attempts missing download (suc left) first last_err)
  attempts-Settled zero first past last_err e = elim (Bool-cases (decides (download first))) [
    | inl h ↦ at_once first past unwrapped (omega arith) h
    | inr h ↦
        subst (λ t. Settled first t (attempt missing download unwrapped (download first))) (last e)
          (gives_up first h)
  ]
    where
      last : first + 1 ≡ past → suc first ≡ past
      last e = omega arith
  attempts-Settled (suc left) first past last_err e = elim (Bool-cases (decides (download first))) [
    | inl h ↦ at_once first past (attempts missing download (suc left) (suc first)) (omega arith) h
    | inr h ↦
        goes_on first past (attempts missing download (suc left) (suc first)) h
          λ last'. attempts-Settled left (suc first) past last' (omega arith)
  ]

  -- With at least one attempt allowed the download comes to an answer without a panic, and it is what one
  -- attempt means: the first that brings a whole archive or finds the object missing, or the last one where
  -- none does. A truncated archive is never returned as one.
  pub download_to_file_retry-Settled :
      (more : ℕ)
      → (i : ℕ) × Settles 0 (suc more) i (download_to_file_retry missing download (suc more))
  unfolding download_to_file_retry
  download_to_file_retry-Settled more = attempts-Settled more 0 (suc more) none (omega arith)
