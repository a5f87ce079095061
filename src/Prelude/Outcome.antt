-- ===== src/Prelude/Outcome.antt =====
-- `anyhow::Result`: what a fallible operation returns. The error type is the module's own.
pub data Outcome {ℓ} (E A : Type ℓ) : Type ℓ where
  ok : A → Outcome E A
  err : E → Outcome E A
