-- ===== src/Keeper/Numbers.antt =====
-- JavaScript's floating-point numbers, as far as the keepers use them: a type with the operations
-- that they call, on values that are neither infinite nor NaN. Nothing is assumed of their rounding.
use hubconnect.Base.{ℕ, Bool}
use hubconnect.Base.Int.{ℤ}

pub record Floats : Type 1 where
  pub F : Type 0
  pub of_ℕ : ℕ → F
  pub add : F → F → F
  pub mul : F → F → F
  pub div : F → F → F
  pub lt : F → F → Bool
  pub ceil : F → ℕ
  pub floor : F → ℤ
