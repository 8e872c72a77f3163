-- ===== src/Crates/Float.antt =====
-- The `f64` operations of override_store/{mod, memory}.rs. Nothing is assumed of their rounding.
use shadowfs.Base.{ℕ, Bool}

pub record Float : Type 1 where
  pub F64 : Type 0
  pub from_usize : ℕ → F64
  pub div : F64 → F64 → F64
  pub gt : F64 → F64 → Bool
  -- The literal n / 10 ^ d.
  pub literal : ℕ → ℕ → F64
