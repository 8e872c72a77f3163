-- ===== src/Persistence/Files.antt =====
-- `FileBasedPersistence` of override_store/persistence.rs: the calls on the files of the snapshot and of
-- the log. Each call of the file system may fail, and what was done before the failure stays done.
pub mod Append
pub mod Snapshots
use shadowfs.Base.{
  ℕ, List, [], ◌∷◌, ◌++◌, Option, none, some, Bool, true, false, ℕ_discrete, unwrap_or, is_some,
  length,
}
use mathlib.Core.Option
use shadowfs.Crates.Codec.{Bytes}
use shadowfs.Crates.Crc.{Crc}
use shadowfs.Crates.Fs.{Fs}
use shadowfs.Crates.Serde.{Serde}
use shadowfs.Error.{IoError, IoResult, done, failed, ShadowError, io_error, Result, ok, err}
use shadowfs.Persistence.{PersistenceOp}
use shadowfs.Persistence.Frame.{frame}
use shadowfs.Persistence.Log.{serialization_failed}

pub data LogFile : Type 0 where
  wal_path snapshot_path temp_path : LogFile

unfoldable pub LogFile-discrete : Discrete LogFile
LogFile-discrete = hlevel ℕ_discrete

module _ (fs : Fs LogFile-discrete) where
  open fs use {Disk}

  -- `call.await.map_err(|e| ShadowError::IoError { source: e })?`, and what comes after it.
  abbrev pub then_on :
      {A : Type 0} → IoResult (Unit {0}) × Disk → (Disk → Result A × Disk) → Result A × Disk
  then_on (done u, disk) next = next disk
  then_on (failed e, disk) next = (err (io_error e), disk)

  abbrev pub finish : Disk → Result (Unit {0}) × Disk
  finish disk = (ok tt, disk)

  abbrev pub wal_bytes : Disk → Bytes
  wal_bytes disk = unwrap_or (fs.content wal_path disk) []

  unfoldable pub snapshot_exists : Disk → Bool
  snapshot_exists disk = elim (fs.metadata snapshot_path disk) [ done n ↦ true | failed e ↦ false ]

  unfoldable pub wal_info : Disk → Result (Option ℕ)
  wal_info disk = elim (fs.metadata wal_path disk) [ done n ↦ ok (some n) | failed e ↦ ok none ]

  module _ (crc : Crc) (ops : Serde PersistenceOp) where
    unfoldable pub append_entry : Bytes → Disk → Result (Unit {0}) × Disk
    append_entry entry disk = then_on (fs.open_append wal_path disk) λ opened.
        then_on (fs.write_all wal_path entry opened)
          λ filled. then_on (fs.sync_all wal_path filled) finish

    unfoldable pub append_operation : PersistenceOp → Disk → Result (Unit {0}) × Disk
    append_operation op disk = elim (ops.serialize op) [
      | failed e ↦ (err (serialization_failed e), disk)
      | done serialized ↦ append_entry (frame crc serialized) disk
    ]
