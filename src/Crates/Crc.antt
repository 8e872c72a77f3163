-- ===== src/Crates/Crc.antt =====
-- `crc32fast::hash`: a 32-bit number for some bytes.
use shadowfs.Base.{ℕ, ◌<◌, ◌^◌}
use shadowfs.Crates.Codec.{Bytes}

pub record Crc : Type 0 where
  pub hash : Bytes → ℕ
  pub hash-lt : (d : Bytes) → hash d < 2 ^ 32
