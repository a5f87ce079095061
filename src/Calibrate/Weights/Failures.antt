-- ===== src/Calibrate/Weights/Failures.antt =====
-- The failures that `Staged::apply` of src/bin/nxr_calibrate.rs counts for a ticker.
use text.Mathlib.Text.{◌==◌ as str_eq}
use text.Mathlib.TextEquality.{eq_iff}
use series_factory.Prelude.{
  ℕ, suc, ◌+◌, ◌≤◌, ◌≡◌, refl, ◌∙◌, ap, min, String, Bool, true, false, ◌&&◌, ◌||◌, Option, none,
  some, List, [], ◌∷◌, arith, length, filter, any, if◌then◌else◌,
}
use series_factory.Calibrate.Weights.{
  Status, WeightsFile, Staged, no_status, insert, lookup_or, after_attempt, apply, apply_all,
}

module _ {V : Type 0} where
  lookup_or-insert :
      (d : V) (j k : String) (v : V) (m : List (String × V))
      → lookup_or d j (insert k v m) ≡ (if str_eq k j then v else lookup_or d j m)
  lookup_or-insert d j k v [] = refl
  lookup_or-insert d j k v ((i, w) ∷ m) =
      ground (arith, eq_iff k j, eq_iff i k, eq_iff i j, lookup_or-insert d j k v m)

module _ {K : Type 0} (key : String) where
  abbrev pub fails : Option K → Option String → Bool
  fails none none = true
  fails none (some reason) = false
  fails (some k) skip = false

  abbrev pub is_k : Option K → Bool
  is_k none = false
  is_k (some k) = true

  -- The outcome is a failure, or a success, of the ticker.
  abbrev pub failed : Staged K → Bool
  failed s = str_eq s.id_key key && fails s.k_ok s.skip

  abbrev pub succeeded : Staged K → Bool
  succeeded s = str_eq s.id_key key && is_k s.k_ok

  -- The outcomes behind the last success.
  abbrev pub since_success : List (Staged K) → List (Staged K)
  since_success [] = []
  since_success (s ∷ queue) =
      let rest = since_success queue in
      if any succeeded queue then rest else if succeeded s then queue else s ∷ queue

  abbrev pub failures : {X : Type 0} → WeightsFile K X → ℕ
  failures w = (lookup_or no_status key w.calibration_status).consecutive_failures

  -- The failures of the queue, after `start` earlier ones.
  abbrev pub streak : ℕ → List (Staged K) → ℕ
  streak start queue =
      if any succeeded queue
      then length (filter failed (since_success queue))
      else start + length (filter failed queue)

  abbrev next_failures : ℕ → ℕ → Staged K → ℕ
  next_failures most n s = if succeeded s then 0 else if failed s then min (suc n) most else n

  attempt_failures :
      (most : ℕ) (s : Staged K) (k : Option K) (skip : Option String) (st : Status)
      → s.skip ≡ skip
      → (after_attempt most s k st).consecutive_failures ≡ (
          if is_k k
          then 0
          else if fails k skip
          then min (suc st.consecutive_failures) most
          else st.consecutive_failures)
  attempt_failures most s none none st e = rw e refl
  attempt_failures most s none (some reason) st e = rw e refl
  attempt_failures most s (some k) skip st e = refl

  failures-apply :
      {X : Type 0} (most : ℕ) (s : Staged K) (w : WeightsFile K X)
      → failures (apply most s w) ≡ next_failures most (failures w) s
  unfolding apply
  failures-apply most s w =
      ap (λ (st : Status). st.consecutive_failures)
        (lookup_or-insert no_status key s.id_key
          (after_attempt most s s.k_ok (lookup_or no_status s.id_key w.calibration_status))
          w.calibration_status)
      ∙ of_key (str_eq s.id_key key) refl
    where
      of_key :
          (b : Bool)
          → str_eq s.id_key key ≡ b
          → (if b
              then after_attempt most s s.k_ok (lookup_or no_status s.id_key w.calibration_status)
              else lookup_or no_status key w.calibration_status).consecutive_failures
            ≡ (if b && is_k s.k_ok
                then 0
                else if b && fails s.k_ok s.skip
                then min (suc (failures w)) most
                else failures w)
      of_key false e = refl
      of_key true e =
          ap
            (λ id.
              (after_attempt most s s.k_ok
                (lookup_or no_status id w.calibration_status)).consecutive_failures)
            ((eq_iff s.id_key key).0 e)
          ∙ attempt_failures most s s.k_ok s.skip (lookup_or no_status key w.calibration_status)
              refl

  streak_next :
      (most n : ℕ) (s : Staged K) (queue : List (Staged K))
      → min (streak (next_failures most n s) queue) most ≡ min (streak n (s ∷ queue)) most
  streak_next most n s queue = go (any succeeded queue) (succeeded s) (failed s)
    where
      go :
          (a b f : Bool)
          → min
              (if a
                then length (filter failed (since_success queue))
                else (if b then 0 else if f then min (suc n) most else n)
                  + length (filter failed queue))
              most
            ≡ min
                (if b || a
                  then length (
                      filter failed
                        (if a then since_success queue else if b then queue else s ∷ queue))
                  else n + length (if f then s ∷ filter failed queue else filter failed queue))
                most
      go true true f = refl
      go true false f = refl
      go false true f = omega arith
      go false false true = omega arith
      go false false false = refl

  -- What the status of a ticker counts is its failures behind its last success, as far as the field reaches,
  -- and behind those counted before if there is no success.
  -- Outcomes that are skipped count for nothing, nor do those of other tickers.
  pub failures-apply_all :
      {X : Type 0} (most : ℕ) (queue : List (Staged K)) (w : WeightsFile K X)
      → failures w ≤ most
      → failures (apply_all most queue w) ≡ min (streak (failures w) queue) most
  unfolding apply_all
  failures-apply_all most [] w h = omega arith
  failures-apply_all most (s ∷ queue) w h =
      failures-apply_all most queue (apply most s w) (ground (arith, failures-apply most s w))
      ∙ ap (λ n. min (streak n queue) most) (failures-apply most s w)
      ∙ streak_next most (failures w) s queue
