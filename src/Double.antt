-- ===== src/Double.antt =====
-- The operations on double that the kernel and the scheduler use. The language of the proofs has no floating point, so
-- the type and its operations are a parameter; no law of theirs is assumed.
use velix.Prelude.{ℤ, Bool}

pub record Double (D : Type 0) : Type 0 where
  pub zero : D
  pub minus_one : D
  pub add : D → D → D
  pub lt : D → D → Bool
  pub le : D → D → Bool
  pub of_int : ℤ → D
  pub div : D → D → D
