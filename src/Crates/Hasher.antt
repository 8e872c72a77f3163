-- ===== src/Crates/Hasher.antt =====
-- `DefaultHasher` and the derived `Debug` of some types, as override_store/persistence.rs uses them for
-- a checksum.
use shadowfs.Base.{ℕ, List}
use shadowfs.Path.Chars.{Text}

pub record Hasher (C E : Type 0) : Type 1 where
  pub State : Type 0
  pub new : State
  pub hash_text : Text → State → State
  pub hash_texts : List Text → State → State
  pub hash_u64 : ℕ → State → State
  pub finish : State → ℕ
  pub debug_config : C → Text
  pub debug_entry : E → Text
