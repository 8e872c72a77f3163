-- ===== src/Persistence.antt =====
-- override_store/persistence.rs: what is written to the log and to the snapshots, and the settings.
pub mod Frame
pub mod Log
pub mod Files
pub mod Snapshot
use shadowfs.Base.{ℕ, ◌*◌, Bool, true}
use shadowfs.Entry.{OverrideContent}
use shadowfs.Metadata.{FileMetadata}
use shadowfs.Path.{ShadowPath}

-- The last argument of each is the time in seconds.
pub data PersistenceOp : Type 0 where
  insert : ShadowPath → OverrideContent → FileMetadata → ℕ → PersistenceOp
  remove : ShadowPath → ℕ → PersistenceOp
  clear snapshot : ℕ → PersistenceOp

abbrev pub timestamp : PersistenceOp → ℕ
timestamp (insert path content metadata t) = t
timestamp (remove path t) = t
timestamp (clear t) = t
timestamp (snapshot t) = t

-- The paths of the two files are parameters of the file system.
pub record PersistenceConfig : Type 0 where
  pub enable_compression : Bool
  pub compression_level : ℕ
  pub max_wal_size : ℕ
  pub snapshot_interval : ℕ

abbrev pub default_config : PersistenceConfig
default_config = record {
  enable_compression = true;
  compression_level = 3;
  max_wal_size = 64 * 1024 * 1024;
  snapshot_interval = 3600;
}
