-- ===== src/Base/Result.antt =====
-- The result of a C function whose loops are bounded here by fuel, and which may dereference NULL.

-- `waits`: the fuel is used up and the loop has not ended. `fault`: a NULL pointer is dereferenced.
pub data Outcome {ℓ} (A : Type ℓ) : Type ℓ where
  returns : A → Outcome A
  waits : Outcome A
  fault : Outcome A
