-- ===== src/Crates/SourceFs.antt =====
-- `std::fs` and `std::path`, as shadowfs-macos, fskit/file_ops.rs, uses them to read the files that
-- stand behind the overrides.
use shadowfs.Base.{ℕ, ◌≤◌, ◌≡◌, Bool, length}
use shadowfs.Crates.Codec.{Bytes}
use shadowfs.Error.{IoResult, done}

pub record SourceMetadata : Type 0 where
  pub len : ℕ
  pub mode : ℕ
  pub uid : ℕ
  pub gid : ℕ

-- What the calls answer at one time. A `read` follows an `open` and a seek, and fills at most the
-- buffer.
pub record SourceFs (P : Type 0) : Type 0 where
  pub exists : P → Bool
  pub read_file : P → IoResult Bytes
  pub metadata : P → IoResult SourceMetadata
  pub open_file : P → IoResult (Unit {0})
  pub seek_start : P → ℕ → IoResult (Unit {0})
  pub read_at : P → ℕ → ℕ → IoResult Bytes
  -- The clock, in seconds, and the user and the group of the process.
  pub now : ℕ
  pub current_uid : ℕ
  pub current_gid : ℕ
  pub read_at-le : (p : P) (at n : ℕ) (b : Bytes) → read_at p at n ≡ done b → length b ≤ n
