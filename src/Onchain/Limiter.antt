-- ===== src/Onchain/Limiter.antt =====
-- `Limiter` of src/bin/onchain_backfill.rs. Instants and durations are in milliseconds. The mutex makes each
-- call one step; threads take their turns in some order.
pub mod Spacing
use series_factory.Prelude.{
  ℕ, suc, ◌+◌, ◌-◌, ◌/◌, max, Option, none, some, List, [], ◌∷◌, ◌==◌, if◌then◌else◌,
}

pub record Limiter : Type 0 where
  pub gap : ℕ
  pub next : ℕ

-- A division by zero panics.
unfoldable pub new : ℕ → ℕ → Option Limiter
new per_sec now = if per_sec == 0 then none else some (record { gap = 1000 / per_sec; next = now })

-- How long to wait, and the limiter behind it.
unfoldable pub reserve : ℕ → Limiter → ℕ × Limiter
reserve now l = let at = max l.next now in (at - now, record l { next = at + l.gap })

unfoldable pub back_off : ℕ → ℕ → Limiter → Limiter
back_off now d l = record l { next = max l.next (now + d) }

-- A call at a time; `delayed now d` is a reply that asks for `d`.
pub data Call : Type 0 where
  reserved : ℕ → Call
  delayed : ℕ → ℕ → Call

-- When the reserved calls start.
unfoldable pub starts : List Call → Limiter → List ℕ
unfolding reserve back_off
starts [] l = []
starts (reserved now ∷ calls) l = let (wait, l') = reserve now l in (now + wait) ∷ starts calls l'
starts (delayed now d ∷ calls) l = starts calls (back_off now d l)
