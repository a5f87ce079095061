-- ===== src/Glue/Holes/Count.antt =====
-- The days that the calendar loop of `check_sharded` in src/bin/glue_check.rs counts.
use series_factory.Prelude.{
  ℕ, zero, suc, ◌+◌, ◌-◌, ◌≤◌, ◌<◌, ◌≡◌, refl, sym, ◌∙◌, ap, Bool, true, false, not, List, [], ◌∷◌,
  arith, length, filter, last_or, ◌==◌, Bool-cases, inl, inr, if◌then◌else◌, subst, lt→ltb, le→leb,
  ◌&&◌,
}
use series_factory.Glue.Holes.{contains, succ_or, missing_from, missing_dates}

-- `n` days from `d` on.
abbrev pub days : ℕ → ℕ → List ℕ
days zero d = []
days (suc n) d = d ∷ days n (suc d)

-- Strictly ascending behind `d`.
abbrev pub Ascends : ℕ → List ℕ → Type 0
Ascends d [] = Unit {0}
Ascends d (e ∷ es) = (d < e) × Ascends e es

abbrev absent : List ℕ → ℕ → Bool
absent present d = not (contains present d)

module _ (last_day : ℕ) (present : List ℕ) (max_date : ℕ) where
  beyond : (fuel d : ℕ) → max_date < d → missing_from last_day present max_date fuel d ≡ []
  beyond zero d h = refl
  beyond (suc fuel) d h = ground arith

  -- The last day is a shard's; the calendar may end with it.
  at_max :
      (fuel : ℕ)
      → contains present max_date ≡ true
      → missing_from last_day present max_date fuel max_date ≡ []
  at_max zero h = refl
  at_max (suc fuel) h = ground (arith, h, beyond fuel (suc max_date) (omega arith))

  stops : (b : Bool) (rest : List ℕ) → (b ≡ true → rest ≡ []) → (if b then [] else rest) ≡ rest
  stops true rest h = sym (h refl)
  stops false rest h = refl

  missing_from-eq :
      (n fuel d : ℕ)
      → n < fuel
      → d + n ≡ max_date
      → max_date ≤ last_day
      → contains present max_date ≡ true
      → missing_from last_day present max_date fuel d ≡ filter (absent present) (days (suc n) d)
  missing_from-eq n zero d lt e le h = elim lt [ ]
  missing_from-eq zero (suc fuel) d lt e le h =
      subst
        (λ t.
          missing_from last_day present max_date (suc fuel) t ≡ filter (absent present) (days 1 t))
        (sym last) (at_max (suc fuel) h ∙ sym none_absent)
    where
      none_absent : filter (absent present) (days 1 max_date) ≡ []
      none_absent = rw h refl

      last : d ≡ max_date
      last = omega arith
  missing_from-eq (suc n) (suc fuel) d lt e le h =
      rw
        (
          lt→ltb d last_day (omega arith),
          le→leb d max_date (omega arith),
          stops (suc d == succ_or last_day max_date && suc d == max_date)
              (missing_from last_day present max_date fuel (suc d)) ended,
          missing_from-eq n fuel (suc d) (omega arith) (omega arith) le h,
        )
        (ground arith)
    where
      same : (suc d == succ_or last_day max_date && suc d == max_date) ≡ true → suc d ≡ max_date
      same both = ground arith

      ended :
          (suc d == succ_or last_day max_date && suc d == max_date) ≡ true
          → missing_from last_day present max_date fuel (suc d) ≡ []
      ended both =
          subst (λ t. missing_from last_day present max_date fuel t ≡ []) (sym (same both))
            (at_max fuel h)

-- Strictly ascending, from `l` and below `u`.
abbrev Between : ℕ → ℕ → List ℕ → Type 0
Between l u [] = Unit {0}
Between l u (e ∷ es) = (l ≤ e) × (e < u) × Between (suc e) u es

filter-days :
    (p q : ℕ → Bool) (n d : ℕ)
    → ((x : ℕ) → d ≤ x → p x ≡ q x)
    → filter p (days n d) ≡ filter q (days n d)
filter-days p q zero d h = refl
filter-days p q (suc n) d h =
    rw (h d (omega arith), filter-days p q n (suc d) (λ x le. h x (omega arith)))

contains-below : (l u : ℕ) (ds : List ℕ) (x : ℕ) → Between l u ds → x < l → contains ds x ≡ false
contains-below l u [] x b lt = refl
contains-below l u (e ∷ es) x b lt =
    ground (arith, contains-below (suc e) u es x b.2 (omega (arith, b.0)))

count-absent :
    (n d u : ℕ) (ds : List ℕ)
    → d + n ≡ u
    → Between d u ds
    → length (filter (absent ds) (days n d)) + length ds ≡ n
count-absent zero d u [] e b = omega arith
count-absent zero d u (x ∷ xs) e b = omega (arith, b.0, b.1)
count-absent (suc n) d u [] e b = omega (arith, count-absent n (suc d) u [] (omega arith) tt)
count-absent (suc n) d u (x ∷ xs) e b = elim (Bool-cases (x == d)) [
  | inl here ↦ omega (
    arith,
    ap length (first here ∙ others here),
    count-absent n (suc d) u xs (omega arith) (rest here),
  )
  | inr later ↦ omega (
    arith,
    counted later,
    count-absent n (suc d) u (x ∷ xs) (omega arith) (behind later, b.1, b.2),
  )
]
  where
    apart : x == d ≡ true → (y : ℕ) → suc d ≤ y → absent (x ∷ xs) y ≡ absent xs y
    apart here y le = ground arith

    first :
        x == d ≡ true
        → filter (absent (x ∷ xs)) (days (suc n) d) ≡ filter (absent (x ∷ xs)) (days n (suc d))
    first here = rw here refl

    others :
        x == d ≡ true
        → filter (absent (x ∷ xs)) (days n (suc d)) ≡ filter (absent xs) (days n (suc d))
    others here = filter-days (absent (x ∷ xs)) (absent xs) n (suc d) (apart here)

    same : x == d ≡ true → x ≡ d
    same here = ground arith

    rest : x == d ≡ true → Between (suc d) u xs
    rest here = subst (λ t. Between (suc t) u xs) (same here) b.2

    behind : x == d ≡ false → suc d ≤ x
    behind later = ground (arith, b.0)

    counted :
        x == d ≡ false
        → length (filter (absent (x ∷ xs)) (days (suc n) d))
          ≡ suc (length (filter (absent (x ∷ xs)) (days n (suc d))))
    counted later = rw (later, contains-below (suc x) u xs d b.2 (omega (arith, b.0))) refl

between : (d : ℕ) (ds : List ℕ) (u : ℕ) → Ascends d ds → last_or d ds < u → Between (suc d) u ds
between d [] u a lt = tt
between d (e ∷ es) u a lt = (a.0, reach e es u a.1 lt, between e es u a.1 lt)
  where
    reach : (e : ℕ) (es : List ℕ) (u : ℕ) → Ascends e es → last_or e es < u → e < u
    reach e [] u a lt = lt
    reach e (f ∷ fs) u a lt = omega (arith, a.0, reach f fs u a.1 lt)

last_or-ge : (d : ℕ) (ds : List ℕ) → Ascends d ds → d ≤ last_or d ds
last_or-ge d [] a = omega arith
last_or-ge d (e ∷ es) a = omega (arith, a.0, last_or-ge e es a.1)

contains-last : (d : ℕ) (ds : List ℕ) → contains (d ∷ ds) (last_or d ds) ≡ true
contains-last d [] = ground arith
contains-last d (e ∷ es) = ground (arith, contains-last e es)

-- For shards in strictly ascending order of their dates, the missing dates and the shards together are
-- as many as the days from the first to the last, also where the calendar ends with that last day.
pub missing_dates-count :
    (last_day min_date : ℕ) (rest : List ℕ)
    → Ascends min_date rest
    → last_or min_date rest ≤ last_day
    → let ds = min_date ∷ rest in
      length (missing_dates last_day ds min_date (last_or min_date rest)) + length ds
      ≡ suc (last_or min_date rest - min_date)
unfolding missing_dates
missing_dates-count last_day min_date rest a le =
    ap (λ t. length t + suc (length rest))
      (missing_from-eq last_day (min_date ∷ rest) (last_or min_date rest)
        (last_or min_date rest - min_date) (suc (suc (last_or min_date rest - min_date))) min_date
        (omega arith) (omega (arith, ordered)) le (contains-last min_date rest))
    ∙ count-absent (suc (last_or min_date rest - min_date)) min_date (suc (last_or min_date rest))
        (min_date ∷ rest) (omega (arith, ordered))
        (
          omega arith,
          omega (arith, ordered),
          between min_date rest (suc (last_or min_date rest)) a (omega arith),
        )
  where
    ordered : min_date ≤ last_or min_date rest
    ordered = last_or-ge min_date rest a
