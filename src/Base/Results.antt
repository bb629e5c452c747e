-- ===== src/Base/Results.antt =====
-- A Go result `(T, error)` that is one or the other.
pub data Result {ℓ κ} (E : Type ℓ) (A : Type κ) : Type (ℓ ⊔ κ) where
  returns : A → Result E A
  fails : E → Result E A
