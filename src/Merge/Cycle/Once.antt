-- ===== src/Merge/Cycle/Once.antt =====
-- The composites of src/bin/merge_idx.rs, cycle by cycle.
use series_factory.Prelude.{
  ℕ, zero, suc, ◌+◌, ◌-◌, ◌*◌, ◌/◌, ◌≤◌, ◌<◌, ◌≡◌, refl, sym, ◌∙◌, ap, Bool, true, false, Option,
  List, [], ◌∷◌, ◌++◌, arith, leb, ◌==◌, if◌then◌else◌, Bool-cases, inl, inr, append_assoc, leb→le,
  le→leb, ==_iff,
}
use series_factory.Mitch.{IndexRecord, Wire}
use series_factory.Merge.Cycle.{
  Event, Vwap, Loop, merge_slot, emit, flush, catch_up, step, merge_events, merge,
}
use series_factory.Merge.Cycle.Boundary.{
  boundary, boundary_next, boundary_last, boundary_suc, boundary_same, boundary_other,
}

abbrev pub Ascends : {F : Type 0} → ℕ → List (Event F) → Type 0
Ascends t [] = Unit {0}
Ascends t (e ∷ es) = (t ≤ e.ts_ms) × Ascends e.ts_ms es

module _ {E H F : Type 0} (w : Wire H) (vwap : Vwap E F) (cycle_ms anchor_ms first_ms : ℕ) where
  -- The composites for the records behind one at `t`, where `slots` has all records up to that one:
  -- a cycle is emitted when its last record has been merged.
  abbrev pub once : List (Option E) → ℕ → List (Event F) → List (ℕ × IndexRecord H F)
  once slots t [] = emit w vwap cycle_ms anchor_ms (boundary cycle_ms first_ms t) slots
  once slots t (e ∷ es) =
      (if boundary cycle_ms first_ms t == boundary cycle_ms first_ms e.ts_ms
        then []
        else emit w vwap cycle_ms anchor_ms (boundary cycle_ms first_ms t) slots)
      ++ once (merge_slot w vwap cycle_ms anchor_ms e slots) e.ts_ms es

  abbrev at : List (Option E) → ℕ → Bool → List (ℕ × IndexRecord H F) → Loop E H F
  at slots n dirty written = record {
    slots = slots;
    next_cycle_ms = n;
    dirty = dirty;
    written = written;
  }

  module _ (positive : 1 ≤ cycle_ms) where
    -- With nothing to flush the loop only moves the boundary.
    catch_up-clean :
        (fuel k ts : ℕ) (slots : List (Option E)) (out : List (ℕ × IndexRecord H F))
        → first_ms ≤ ts
        → k ≤ (ts - first_ms) / cycle_ms
        → suc ts - (first_ms + k * cycle_ms + cycle_ms) ≤ fuel
        → catch_up w vwap cycle_ms anchor_ms fuel ts
            (at slots (first_ms + k * cycle_ms + cycle_ms) false out)
          ≡ at slots (boundary cycle_ms first_ms ts) false out
    catch_up-clean zero k ts slots out le h enough =
        ap (λ n. at slots n false out)
          (boundary_last cycle_ms first_ms positive k ts le h (omega (arith, enough)))
    catch_up-clean (suc fuel) k ts slots out le h enough =
        elim (Bool-cases (leb (first_ms + k * cycle_ms + cycle_ms) ts)) [
          | inl more ↦ rw more (
              ap (λ n. catch_up w vwap cycle_ms anchor_ms fuel ts (at slots n false out))
                (boundary_suc cycle_ms first_ms positive k)
              ∙ catch_up-clean fuel (suc k) ts slots out le
                  (boundary_next cycle_ms first_ms positive k ts le (leb→le _ ts more))
                  (omega (arith, enough, boundary_suc cycle_ms first_ms positive k)))
          | inr done ↦ rw done (
              ap (λ n. at slots n false out)
                (boundary_last cycle_ms first_ms positive k ts le h (behind done)))
        ]
      where
        behind :
            leb (first_ms + k * cycle_ms + cycle_ms) ts ≡ false
            → ts < first_ms + k * cycle_ms + cycle_ms
        behind done = ground arith

    -- With something to flush, the first round of the loop does it.
    catch_up-dirty :
        (fuel t ts : ℕ) (slots : List (Option E)) (out : List (ℕ × IndexRecord H F))
        → first_ms ≤ t
        → boundary cycle_ms first_ms t ≤ ts
        → suc ts - boundary cycle_ms first_ms t ≤ suc fuel
        → catch_up w vwap cycle_ms anchor_ms
            (suc fuel)
            ts
            (at slots (boundary cycle_ms first_ms t) true out)
          ≡ at slots
              (boundary cycle_ms first_ms ts)
              false
              (out ++ emit w vwap cycle_ms anchor_ms (boundary cycle_ms first_ms t) slots)
    catch_up-dirty fuel t ts slots out le due enough =
        rw (le→leb (boundary cycle_ms first_ms t) ts due) (
          ap
            (λ n. catch_up w vwap cycle_ms anchor_ms fuel ts (
              at slots n false
                (out ++ emit w vwap cycle_ms anchor_ms (boundary cycle_ms first_ms t) slots)))
            (boundary_suc cycle_ms first_ms positive q)
          ∙ catch_up-clean fuel (suc q) ts slots
              (out ++ emit w vwap cycle_ms anchor_ms (boundary cycle_ms first_ms t) slots)
              (omega arith) (boundary_next cycle_ms first_ms positive q ts (omega arith) due)
              (omega (arith, enough, boundary_suc cycle_ms first_ms positive q)))
      where
        q : ℕ
        q = (t - first_ms) / cycle_ms

    -- The step from a record at `t` to the next one.
    step-same :
        (e : Event F) (t : ℕ) (slots : List (Option E)) (out : List (ℕ × IndexRecord H F))
        → e.ts_ms < boundary cycle_ms first_ms t
        → step w vwap cycle_ms anchor_ms e (at slots (boundary cycle_ms first_ms t) true out)
          ≡ at
              (merge_slot w vwap cycle_ms anchor_ms e slots)
              (boundary cycle_ms first_ms t)
              true
              out
    step-same e t slots out lt =
        ap
          (λ n.
            let s' =
              catch_up w vwap cycle_ms anchor_ms n e.ts_ms
                (at slots (boundary cycle_ms first_ms t) true out) in
            record s' { slots = merge_slot w vwap cycle_ms anchor_ms e s'.slots; dirty = true })
          none_due
      where
        none_due : suc e.ts_ms - boundary cycle_ms first_ms t ≡ 0
        none_due = omega arith

    step-next :
        (e : Event F) (t : ℕ) (slots : List (Option E)) (out : List (ℕ × IndexRecord H F))
        → first_ms ≤ t
        → boundary cycle_ms first_ms t ≤ e.ts_ms
        → step w vwap cycle_ms anchor_ms e (at slots (boundary cycle_ms first_ms t) true out)
          ≡ at
              (merge_slot w vwap cycle_ms anchor_ms e slots)
              (boundary cycle_ms first_ms e.ts_ms)
              true
              (out ++ emit w vwap cycle_ms anchor_ms (boundary cycle_ms first_ms t) slots)
    step-next e t slots out le due =
        ap
          (λ (s' : Loop E H F). record s' {
            slots = merge_slot w vwap cycle_ms anchor_ms e s'.slots;
            dirty = true;
          })
          (ap
              (λ n.
                catch_up w vwap cycle_ms anchor_ms n e.ts_ms
                  (at slots (boundary cycle_ms first_ms t) true out))
              rounds
            ∙ catch_up-dirty (e.ts_ms - boundary cycle_ms first_ms t) t e.ts_ms slots out le due
                (omega arith))
      where
        rounds :
            suc e.ts_ms - boundary cycle_ms first_ms t
            ≡ suc (e.ts_ms - boundary cycle_ms first_ms t)
        rounds = omega arith

    abbrev finished : List (Event F) → Loop E H F → List (ℕ × IndexRecord H F)
    finished es s =
        (flush w vwap cycle_ms anchor_ms (merge_events w vwap cycle_ms anchor_ms es s)).written

    loop-once :
        (es : List (Event F)) (t : ℕ) (slots : List (Option E)) (out : List (ℕ × IndexRecord H F))
        → first_ms ≤ t
        → Ascends t es
        → finished es (at slots (boundary cycle_ms first_ms t) true out) ≡ out ++ once slots t es
    loop-once [] t slots out le a = refl
    loop-once (e ∷ es) t slots out le a =
        elim (Bool-cases (leb (boundary cycle_ms first_ms t) e.ts_ms)) [
          | inl due ↦
              ap (finished es) (step-next e t slots out le (leb→le _ e.ts_ms due))
              ∙ loop-once es e.ts_ms (merge_slot w vwap cycle_ms anchor_ms e slots)
                  (out ++ emit w vwap cycle_ms anchor_ms (boundary cycle_ms first_ms t) slots)
                  (omega (arith, a.0)) a.1
              ∙ append_assoc out
                  (emit w vwap cycle_ms anchor_ms (boundary cycle_ms first_ms t) slots) _
              ∙ ap (λ b. out ++ pieces b)
                  (sym (boundary_other cycle_ms first_ms positive t e.ts_ms (leb→le _ e.ts_ms due)))
          | inr later ↦
              ap (finished es) (step-same e t slots out (before later))
              ∙ ap (λ n. finished es (at (merge_slot w vwap cycle_ms anchor_ms e slots) n true out))
                  (same later)
              ∙ loop-once es e.ts_ms (merge_slot w vwap cycle_ms anchor_ms e slots) out
                  (omega (arith, a.0)) a.1
              ∙ ap (λ b. out ++ pieces b) (sym (one later))
        ]
      where
        pieces : Bool → List (ℕ × IndexRecord H F)
        pieces b =
            (if b then [] else emit w vwap cycle_ms anchor_ms (boundary cycle_ms first_ms t) slots)
            ++ once (merge_slot w vwap cycle_ms anchor_ms e slots) e.ts_ms es

        before :
            leb (boundary cycle_ms first_ms t) e.ts_ms ≡ false
            → e.ts_ms < boundary cycle_ms first_ms t
        before later = ground arith

        same :
            leb (boundary cycle_ms first_ms t) e.ts_ms ≡ false
            → boundary cycle_ms first_ms t ≡ boundary cycle_ms first_ms e.ts_ms
        same later = boundary_same cycle_ms first_ms positive t e.ts_ms le a.0 (before later)

        one :
            leb (boundary cycle_ms first_ms t) e.ts_ms ≡ false
            → (boundary cycle_ms first_ms t == boundary cycle_ms first_ms e.ts_ms) ≡ true
        one later =
            (==_iff (boundary cycle_ms first_ms t) (boundary cycle_ms first_ms e.ts_ms)).1
              (same later)

-- For records in ascending order of their times and a cycle of at least a millisecond, the loop writes one
-- composite, where there is one, for each cycle in which a record arrives and none for any other: at the
-- first boundary behind that record, and from the records before that boundary alone.
pub merge-once :
    {E H F : Type 0} (w : Wire H) (vwap : Vwap E F) (cycle_ms anchor_ms : ℕ)
    → 1 ≤ cycle_ms
    → (slots : List (Option E)) (e : Event F) (es : List (Event F)) → Ascends e.ts_ms es
    → merge w vwap cycle_ms anchor_ms slots (e ∷ es)
      ≡ once w vwap cycle_ms anchor_ms e.ts_ms
          (merge_slot w vwap cycle_ms anchor_ms e slots)
          e.ts_ms
          es
unfolding merge
merge-once {E} {H} {F} w vwap cycle_ms anchor_ms positive slots e es a =
    ap (finished w vwap cycle_ms anchor_ms e.ts_ms positive es)
      (begins ∙ ap (λ n. at_first n) first)
    ∙ loop-once w vwap cycle_ms anchor_ms e.ts_ms positive es e.ts_ms
        (merge_slot w vwap cycle_ms anchor_ms e slots) [] (omega arith) a
  where
    at_first : ℕ → Loop E H F
    at_first n = record {
      slots = merge_slot w vwap cycle_ms anchor_ms e slots;
      next_cycle_ms = n;
      dirty = true;
      written = [];
    }

    fresh : Loop E H F
    fresh = record {
      slots = slots;
      next_cycle_ms = e.ts_ms + cycle_ms;
      dirty = false;
      written = [];
    }

    none_due : suc e.ts_ms - (e.ts_ms + cycle_ms) ≡ 0
    none_due = omega arith

    begins : step w vwap cycle_ms anchor_ms e fresh ≡ at_first (e.ts_ms + cycle_ms)
    begins =
        ap
          (λ n.
            let s' = catch_up w vwap cycle_ms anchor_ms n e.ts_ms fresh in
            record s' { slots = merge_slot w vwap cycle_ms anchor_ms e s'.slots; dirty = true })
          none_due

    first : e.ts_ms + cycle_ms ≡ boundary cycle_ms e.ts_ms e.ts_ms
    first = omega (
      arith,
      boundary_last cycle_ms e.ts_ms positive 0 e.ts_ms (omega arith) (omega arith) (omega arith),
    )
