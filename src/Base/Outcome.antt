-- ===== src/Base/Outcome.antt =====
-- Python exceptions as values: what a call returns, or the exception that it raises.

pub data Result {ℓ κ} (E : Type ℓ) (A : Type κ) : Type (ℓ ⊔ κ) where
  ok : A → Result E A
  err : E → Result E A
