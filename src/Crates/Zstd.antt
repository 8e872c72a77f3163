-- ===== src/Crates/Zstd.antt =====
-- `zstd`, as override_store/persistence.rs uses it, with a level of compression.
use shadowfs.Base.{ℕ, ◌≡◌}
use shadowfs.Crates.Codec.{Bytes}
use shadowfs.Error.{IoResult, done}

pub record Zstd : Type 0 where
  pub encode_all : Bytes → ℕ → IoResult Bytes
  pub decode_all : Bytes → IoResult Bytes
  pub decode_all-encode_all :
      (d c : Bytes) (level : ℕ) → encode_all d level ≡ done c → decode_all c ≡ done d
