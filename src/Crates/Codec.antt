-- ===== src/Crates/Codec.antt =====
-- `blake3` and `zstd`, as override_store/optimization.rs uses them. Bytes are numbers below 256.
use shadowfs.Base.{ℕ, ◌≡◌, List}
use shadowfs.Error.{IoResult, done}

abbrev pub Bytes : Type 0
Bytes = List ℕ

abbrev pub ContentHash : Type 0
ContentHash = List ℕ

pub record Codec : Type 0 where
  pub hash : Bytes → ContentHash
  pub compress : Bytes → IoResult Bytes
  pub decompress : Bytes → IoResult Bytes
  pub decompress-compress : (d : Bytes) (c : Bytes) → compress d ≡ done c → decompress c ≡ done d
