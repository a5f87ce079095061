-- ===== src/Onchain/Events/Kept.antt =====
-- What the events of a pool in src/bin/onchain_backfill.rs keep of its logs.
use series_factory.Prelude.{
  ℕ, zero, suc, ◌+◌, ◌*◌, ◌%◌, ◌^◌, ◌≤◌, ◌<◌, ◌≡◌, ◌≢◌, ◌⊎◌, inl, inr, refl, Bool-cases, false, min,
  ltb, ◌||◌, if◌then◌else◌, subst, ◌∙◌, ap, true, Option, none, some, List, [], ◌∷◌, length,
  get_elem?, All, All-imp, arith,
}
use series_factory.Prelude.Int.{ℤ, pos, negsuc}
use series_factory.Prelude.Outcome.{ok}
use series_factory.Onchain.Words.{parse_curve}
use series_factory.Onchain.Events.{
  eq_ℤ, Float, PoolMath, PoolCfg, curve, Log, Counts, Reading, undecodable, skipped, event,
  read_curve, curve_reading, tally, tally_logs, to_events, read_log, check_counts, min_curve_raw,
  curve_state, finite_state,
}

eq_ℤ→eq : (a b : ℤ) → eq_ℤ a b ≡ true → a ≡ b
eq_ℤ→eq (pos a) (pos b) h = ground arith
eq_ℤ→eq (pos a) (negsuc b) h = cc h
eq_ℤ→eq (negsuc a) (pos b) h = cc h
eq_ℤ→eq (negsuc a) (negsuc b) h = ground arith

ne_of_eq_ℤ : (a b : ℤ) → eq_ℤ a b ≡ false → a ≢ b
ne_of_eq_ℤ (pos a) (pos b) h = ground arith
ne_of_eq_ℤ (pos a) (negsuc b) h = λ e. cc e
ne_of_eq_ℤ (negsuc a) (pos b) h = λ e. cc e
ne_of_eq_ℤ (negsuc a) (negsuc b) h = ground arith

module _ {F : Type 0} (fl : Float F) (pools : PoolMath F) (p : PoolCfg F) where
  length-tally :
      (ts : ℕ) (r : Reading F) (rest : List (ℕ × F × F) × Counts)
      → length (tally fl pools p ts r rest).0
          + (tally fl pools p ts r rest).1.parse_dropped
          + (tally fl pools p ts r rest).1.skipped
        ≡ suc (length rest.0 + rest.1.parse_dropped + rest.1.skipped)
  length-tally ts undecodable (ev, c) = omega arith
  length-tally ts skipped (ev, c) = omega arith
  length-tally ts (event (px, depth)) (ev, c) = omega arith

  length-tally_logs :
      (logs : List (Log × ℕ))
      → length (tally_logs fl pools p logs).0
          + (tally_logs fl pools p logs).1.parse_dropped
          + (tally_logs fl pools p logs).1.skipped
        ≡ length logs
  length-tally_logs [] = refl
  length-tally_logs ((l, ts) ∷ logs) =
      length-tally ts (read_log fl pools p p.kind l) (tally_logs fl pools p logs)
      ∙ ap suc (length-tally_logs logs)

  -- Logs, fewer than 2^64 / 100, that pass the gate have an event, and at least 99 of 100 are events or skipped;
  -- each is counted once.
  pub check_counts-to_events :
      (logs : List (Log × ℕ))
      → length logs * 100 < 2 ^ 64
      → check_counts (to_events fl pools p logs).1 ≡ ok tt
      → (1 ≤ length (to_events fl pools p logs).0)
        × (length (to_events fl pools p logs).0
              + (to_events fl pools p logs).1.parse_dropped
              + (to_events fl pools p logs).1.skipped
            ≡ length logs)
        × (length logs * 99
            ≤ (length (to_events fl pools p logs).0 + (to_events fl pools p logs).1.skipped) * 100)
  unfolding to_events check_counts
  check_counts-to_events logs small passed =
      gate (tally_logs fl pools p logs) (length-tally_logs logs) passed
    where
      gate :
          (r : List (ℕ × F × F) × Counts)
          → length r.0 + r.1.parse_dropped + r.1.skipped ≡ length logs
          → check_counts (record r.1 { total = length logs; usable = length r.0 }) ≡ ok tt
          → (1 ≤ length r.0)
            × (length r.0 + r.1.parse_dropped + r.1.skipped ≡ length logs)
            × (length logs * 99 ≤ (length r.0 + r.1.skipped) * 100)
      gate (ev, c) sum passed = (ground arith, sum, ground arith)

  -- The price of the base coin in the other coin, as the amounts of the fill give it, without the fee: where the
  -- base was sold, what was bought for it was short of the fee; where it was bought, what was paid had the fee in it.
  abbrev pub IsPrice : ℤ × ℕ × ℤ × ℕ → F → Type 0
  IsPrice (sid, sold, bid, bought) px =
      ((sid ≡ p.base_idx)
        × (px ≡ fl.over (fl.over (fl.of_u128 bought) (fl.of_u128 sold)) (fl.minus fl.one p.fee)))
      ⊎ ((sid ≢ p.base_idx)
          × (bid ≡ p.base_idx)
          × (px ≡ fl.times (fl.over (fl.of_u128 sold) (fl.of_u128 bought)) (fl.minus fl.one p.fee)))

  -- A fill that both coins are large enough for, and that is not too large; its price and its depth.
  abbrev pub IsFill : ℤ × ℕ × ℤ × ℕ → F → F → Type 0
  IsFill (sid, sold, bid, bought) px depth =
      (min_curve_raw ≤ sold)
      × (min_curve_raw ≤ bought)
      × (sold ≤ p.max_sold_raw)
      × IsPrice (sid, sold, bid, bought) px
      × (fl.is_finite px ≡ true)
      × (depth ≡ fl.times fl.four p.floor)

  within :
      (sold bought : ℕ) {A : Type 0} {s : Option A} {a : A}
      → (if ltb (min sold bought) min_curve_raw || ltb p.max_sold_raw sold then none else s)
        ≡ some a
      → (min_curve_raw ≤ sold) × (min_curve_raw ≤ bought) × (sold ≤ p.max_sold_raw) × (s ≡ some a)
  within sold bought e = ground arith

  filled :
      (py px depth : F)
      → finite_state fl pools p py py (fl.times fl.four p.floor) ≡ some (px, depth)
      → (px ≡ py) × (fl.is_finite px ≡ true) × (depth ≡ fl.times fl.four p.floor)
  filled py px depth e = elim (Bool-cases (fl.is_finite py)) [
    | inl finite ↦ ground (arith, rw finite at e)
    | inr not_finite ↦ ground (arith, rw not_finite at e)
  ]

  curve_state-IsFill :
      (x : ℤ × ℕ × ℤ × ℕ) (px depth : F)
      → curve_state fl pools p x ≡ some (px, depth)
      → IsFill x px depth
  unfolding curve_state
  curve_state-IsFill (sid, sold, bid, bought) px depth e =
      let (s, b, most, e') = within sold bought e in
      elim (Bool-cases (eq_ℤ sid p.base_idx)) [
        | inl base_sold ↦
            let f = filled _ px depth (rw base_sold at e') in
            (s, b, most, inl (eq_ℤ→eq sid p.base_idx base_sold, f.0), f.1, f.2)
        | inr not_sold ↦ elim (Bool-cases (eq_ℤ bid p.base_idx)) [
          | inl base_bought ↦
              let f = filled _ px depth (rw (not_sold, base_bought) at e') in
              (
                s,
                b,
                most,
                inr (ne_of_eq_ℤ sid p.base_idx not_sold, eq_ℤ→eq bid p.base_idx base_bought, f.0),
                f.1,
                f.2,
              )
          | inr neither ↦ absurd (cc (rw (not_sold, neither) at e'))
        ]
      ]

  -- An event is the price of a fill that one of the logs has, at the time of its block.
  abbrev pub FromFill : List (Log × ℕ) → ℕ × F × F → Type 0
  FromFill logs (t, px, depth) =
      (i : ℕ) × (l : Log) × (ts : ℕ) × (x : ℤ × ℕ × ℤ × ℕ) × (get_elem? logs i ≡ some (l, ts))
      × (parse_curve l.bytes ≡ some x)
      × (t ≡ ts * 1000 % 2 ^ 64)
      × IsFill x px depth

  FromFill-cons :
      (l : Log × ℕ) (logs : List (Log × ℕ)) (e : ℕ × F × F)
      → FromFill logs e
      → FromFill (l ∷ logs) e
  FromFill-cons l logs (t, px, depth) (i, l', ts, x, at, parsed, time, fill) =
      (suc i, l', ts, x, at, parsed, time, fill)

  tally-FromFill :
      (l : Log) (ts : ℕ) (logs : List (Log × ℕ)) (r : Reading F) (rest : List (ℕ × F × F) × Counts)
      → ((px depth : F)
          → r ≡ event (px, depth)
          → FromFill ((l, ts) ∷ logs) (ts * 1000 % 2 ^ 64, px, depth))
      → All (FromFill logs) rest.0
      → All (FromFill ((l, ts) ∷ logs)) (tally fl pools p ts r rest).0
  tally-FromFill l ts logs undecodable (ev, c) h k =
      All-imp (FromFill logs) (FromFill ((l, ts) ∷ logs)) (FromFill-cons (l, ts) logs) ev k
  tally-FromFill l ts logs skipped (ev, c) h k =
      All-imp (FromFill logs) (FromFill ((l, ts) ∷ logs)) (FromFill-cons (l, ts) logs) ev k
  tally-FromFill l ts logs (event (px, depth)) (ev, c) h k = (
    h px depth refl,
    All-imp (FromFill logs) (FromFill ((l, ts) ∷ logs)) (FromFill-cons (l, ts) logs) ev k,
  )

  read_curve-event :
      (o : Option (ℤ × ℕ × ℤ × ℕ)) (px depth : F)
      → read_curve fl pools p o ≡ event (px, depth)
      → (x : ℤ × ℕ × ℤ × ℕ) × (o ≡ some x) × IsFill x px depth
  read_curve-event none px depth e = cc e
  read_curve-event (some x) px depth e = (x, refl, by_state (curve_state fl pools p x) refl e)
    where
      by_state :
          (s : Option (F × F))
          → curve_state fl pools p x ≡ s
          → curve_reading fl pools p s ≡ event (px, depth)
          → IsFill x px depth
      by_state none same e = cc e
      by_state (some (py, d)) same e = curve_state-IsFill x px depth (same ∙ cc e)

  -- Every event of a Curve pool comes from a fill within the size limits that one of the logs has, with the base
  -- coin on one side, at the time of its block: its price is finite, and is the one of the base coin in the other
  -- that the amounts of the fill give without the fee, and its depth is four times the floor.
  pub to_events-FromFill :
      p.kind ≡ curve → (logs : List (Log × ℕ)) → All (FromFill logs) (to_events fl pools p logs).0
  unfolding to_events read_log
  to_events-FromFill is_curve logs = each logs
    where
      reading :
          (l : Log) (ts : ℕ) (logs : List (Log × ℕ)) (px depth : F)
          → read_log fl pools p p.kind l ≡ event (px, depth)
          → FromFill ((l, ts) ∷ logs) (ts * 1000 % 2 ^ 64, px, depth)
      reading l ts logs px depth e =
          let fill =
            read_curve-event (parse_curve l.bytes) px depth
              (subst (λ k. read_log fl pools p k l ≡ event (px, depth)) is_curve e) in
          (zero, l, ts, fill.0, refl, fill.1, refl, fill.2)

      each : (logs : List (Log × ℕ)) → All (FromFill logs) (tally_logs fl pools p logs).0
      each [] = tt
      each ((l, ts) ∷ logs) =
          tally-FromFill l ts logs (read_log fl pools p p.kind l) (tally_logs fl pools p logs)
            (reading l ts logs) (each logs)
