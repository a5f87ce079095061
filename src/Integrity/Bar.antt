-- ===== src/Integrity/Bar.antt =====
-- `check_bar_ohlc` of src/bin/integrity_check.rs, which the checks of bar files share. `F` is the type of f64
-- values; the times of a bar are those that the `mitch` crate decodes from its unsigned clock.
use series_factory.Prelude.{
  ℕ, Bool, true, ◌&&◌, Option, none, some, List, [], ◌∷◌, ltb, if◌then◌else◌,
}

-- The operations on f64: `lt` is `<` and `le` is `<=`, which are false at NaN; `of_diff b a` is `(b - a) as f64`.
pub record Real (F : Type 0) : Type 0 where
  pub is_finite : F → Bool
  pub lt : F → F → Bool
  pub le : F → F → Bool
  pub fmax : F → F → F
  pub fmin : F → F → F
  pub abs : F → F
  pub divide : F → F → F
  pub of_ℕ : ℕ → F
  pub of_diff : ℕ → ℕ → F
  -- the literals 1.0 + 1e-3, 0.5, and 1.0 + 1e-6
  pub one_and_slack : F
  pub half : F
  pub one_and_tiny : F

-- mitch::Bar
pub record Bar (F : Type 0) : Type 0 where
  pub kind : ℕ
  pub open_price : F
  pub high : F
  pub low : F
  pub close : F
  pub open_time_ms : ℕ
  pub close_time_ms : ℕ
  pub realized_var : F
  pub bipower_var : F
  pub drift : F
  pub vol_imbalance : F
  pub avg_spread_bps : F
  pub max_abs_return : F

-- What the checks of bars push.
pub data BarProblem : Type 0 where
  truncated open_after_close non_finite high_below low_above negative_var negative_bipower :
      BarProblem
  not_kline off_grid imbalance negative_spread negative_return large_drift : BarProblem
  not_monotone uneven gap gap_fraction : BarProblem
  total_missing : ℕ → BarProblem

-- The first open and the last close so far.
pub record Span : Type 0 where
  pub ts_first_ms : Option ℕ
  pub ts_last_ms : Option ℕ

abbrev pub or_first : Option ℕ → ℕ → Option ℕ
or_first none ts = some ts
or_first (some first) ts = some first

module _ {F : Type 0} (fl : Real F) where
  abbrev pub zero_f : F
  zero_f = fl.of_ℕ 0

  abbrev pub seen : Bar F → Span → Span
  seen bar t = record {
    ts_first_ms = or_first t.ts_first_ms bar.open_time_ms;
    ts_last_ms = some bar.close_time_ms;
  }

  abbrev pub ohlc_finite : Bar F → Bool
  ohlc_finite bar =
      fl.is_finite bar.open_price
      && (fl.is_finite bar.high && (fl.is_finite bar.low && fl.is_finite bar.close))

  abbrev pub price_tests : Bar F → List (Bool × BarProblem)
  price_tests bar =
      (fl.lt bar.high (fl.fmax (fl.fmax bar.open_price bar.close) bar.low), high_below)
      ∷ (fl.lt (fl.fmin (fl.fmin bar.open_price bar.close) bar.high) bar.low, low_above)
      ∷ (fl.lt bar.realized_var zero_f, negative_var)
      ∷ (fl.lt bar.bipower_var zero_f, negative_bipower)
      ∷ []

  -- The prices are looked at only where they are finite.
  abbrev pub ohlc_tests : Bar F → List (Bool × BarProblem)
  ohlc_tests bar =
      (ltb bar.close_time_ms bar.open_time_ms, open_after_close)
      ∷ (if ohlc_finite bar then price_tests bar else (true, non_finite) ∷ [])

  -- span_hours, and bars_per_day where the span is positive
  abbrev pub span_hours : Span → Option F
  span_hours t = elim t.ts_first_ms [
    | none ↦ none
    | some a ↦ elim t.ts_last_ms [
      | none ↦ none
      | some b ↦ some (fl.divide (fl.of_diff b a) (fl.of_ℕ 3600000))
    ]
  ]

  abbrev pub bars_per_day : ℕ → Option F → F
  bars_per_day n none = zero_f
  bars_per_day n (some h) =
      if fl.lt zero_f h then fl.divide (fl.of_ℕ n) (fl.divide h (fl.of_ℕ 24)) else zero_f
