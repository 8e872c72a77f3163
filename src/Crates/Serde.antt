-- ===== src/Crates/Serde.antt =====
-- `bincode`, as override_store/persistence.rs uses it on one type: what is written is read back, and
-- no value is written as nothing.
use shadowfs.Base.{◌<◌, ◌≡◌, length}
use shadowfs.Crates.Codec.{Bytes}
use shadowfs.Error.{IoResult, done}

pub record Serde (T : Type 0) : Type 0 where
  pub serialize : T → IoResult Bytes
  pub deserialize : Bytes → IoResult T
  pub deserialize-serialize : (t : T) (d : Bytes) → serialize t ≡ done d → deserialize d ≡ done t
  pub serialize-ne-empty : (t : T) (d : Bytes) → serialize t ≡ done d → 0 < length d

-- The same calls on another type, of which no more is used than that they may fail.
pub record Bincode (T : Type 0) : Type 0 where
  pub serialize : T → IoResult Bytes
  pub deserialize : Bytes → IoResult T
