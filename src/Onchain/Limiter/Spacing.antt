-- ===== src/Onchain/Limiter/Spacing.antt =====
-- The pace that `Limiter` of src/bin/onchain_backfill.rs keeps.
use series_factory.Prelude.{ℕ, ◌+◌, ◌≤◌, max, List, [], ◌∷◌, arith}
use series_factory.Onchain.Limiter.{Limiter, Call, reserved, delayed, back_off, starts}

-- Not before `bound`, and each `gap` behind the one before it.
abbrev pub Spaced : ℕ → ℕ → List ℕ → Type 0
Spaced gap bound [] = Unit {0}
Spaced gap bound (s ∷ ss) = (bound ≤ s) × Spaced gap (s + gap) ss

Spaced-weaken : (gap a b : ℕ) (ss : List ℕ) → a ≤ b → Spaced gap b ss → Spaced gap a ss
Spaced-weaken gap a b [] h p = tt
Spaced-weaken gap a b (s ∷ ss) h p = (omega (arith, h, p.0), p.1)

starts-Spaced :
    (calls : List Call) (gap next : ℕ)
    → Spaced gap next (starts calls (record { gap = gap; next = next }))
unfolding starts
starts-Spaced [] gap next = tt
starts-Spaced (reserved now ∷ calls) gap next = (
  omega arith,
  Spaced-weaken gap _ _ (starts calls (record { gap = gap; next = max next now + gap }))
      (omega arith) (starts-Spaced calls gap (max next now + gap)),
)
starts-Spaced (delayed now d ∷ calls) gap next =
    Spaced-weaken gap next (max next (now + d)) _ (omega arith)
      (starts-Spaced calls gap (max next (now + d)))

-- Whatever calls and delays come in whatever order, no call starts before the limiter's slot, starts are a
-- gap apart, and behind a delay none starts before it is over.
pub starts-back_off :
    (calls : List Call) (l : Limiter) (now d : ℕ)
    → Spaced l.gap l.next (starts calls l)
      × Spaced l.gap (max l.next (now + d)) (starts calls (back_off now d l))
unfolding back_off
starts-back_off calls l now d =
    (starts-Spaced calls l.gap l.next, starts-Spaced calls l.gap (max l.next (now + d)))
