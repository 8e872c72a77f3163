-- ===== src/Persistence/Files/Snapshots.antt =====
-- `save_snapshot`, `load_snapshot` and `compact` of override_store/persistence.rs. The temporary file is
-- another file than the snapshot, as it is where the snapshot's name does not end in `.tmp`.
pub mod Atomic
pub mod Loading
use shadowfs.Base.{ℕ, ◌++◌, if◌then◌else◌}
use shadowfs.Crates.Codec.{Bytes}
use shadowfs.Crates.Crc.{Crc}
use shadowfs.Crates.Fs.{Fs}
use shadowfs.Crates.Hasher.{Hasher}
use shadowfs.Crates.Serde.{Serde, Bincode}
use shadowfs.Crates.Zstd.{Zstd}
use shadowfs.Error.{IoError, IoResult, done, failed, ShadowError, io_error, Result, ok, err}
use shadowfs.Path.Chars.{text}
use shadowfs.Persistence.{PersistenceOp, PersistenceConfig}
use shadowfs.Persistence
use shadowfs.Persistence.Files.{
  LogFile-discrete, wal_path, snapshot_path, temp_path, then_on, finish, append_operation,
}
use shadowfs.Persistence.Log.{linux_error, serialization_failed, deserialization_failed}
use shadowfs.Persistence.Snapshot.{SavedEntry, OverrideSnapshot, from_store, restore_to_store}
use shadowfs.Store.{Env, OverrideStore, OverrideStoreConfig, now_secs, tick}

module _ (zstd : Zstd) (config : PersistenceConfig) where
  unfoldable pub compress_data : Bytes → Result Bytes
  compress_data bytes =
      if config.enable_compression
      then (elim (zstd.encode_all bytes config.compression_level) [
        | done d ↦ ok d
        | failed e ↦ err (linux_error (text "Compression failed: " ++ e.message))
      ])
      else ok bytes

  unfoldable pub decompress_data : Bytes → Result Bytes
  decompress_data bytes =
      if config.enable_compression
      then (elim (zstd.decode_all bytes) [
        | done d ↦ ok d
        | failed e ↦ err (linux_error (text "Decompression failed: " ++ e.message))
      ])
      else ok bytes

module _ (fs : Fs LogFile-discrete) where
  open fs use {Disk}

  -- The new file is complete before it takes the name of the snapshot.
  unfoldable pub replace_snapshot : Bytes → Disk → Result (Unit {0}) × Disk
  replace_snapshot compressed disk = then_on fs (fs.create temp_path disk) λ opened.
      then_on fs (fs.write_all temp_path compressed opened) λ filled.
        then_on fs (fs.sync_all temp_path filled)
          λ synced. then_on fs (fs.rename temp_path snapshot_path synced) (finish fs)

  unfoldable pub save_bytes : Result Bytes → Disk → Result (Unit {0}) × Disk
  save_bytes (ok compressed) disk = replace_snapshot compressed disk
  save_bytes (err e) disk = (err e, disk)

  module _ (crc : Crc) (ops : Serde PersistenceOp) where
    abbrev pub truncate_after : Result (Unit {0}) × Disk → Result (Unit {0}) × Disk
    truncate_after (err e, disk) = (err e, disk)
    truncate_after (ok u, disk) = then_on fs (fs.create wal_path disk) (finish fs)

    -- The marker at the end of the log, and then an empty log.
    unfoldable pub mark_and_truncate : ℕ → Disk → Result (Unit {0}) × Disk
    mark_and_truncate t disk =
        truncate_after (append_operation fs crc ops (Persistence.snapshot t) disk)

  module _ (env : Env) (hasher : Hasher (OverrideStoreConfig env) SavedEntry) (zstd : Zstd)
      (config : PersistenceConfig) (snapshots : Bincode (OverrideSnapshot env)) where
    unfoldable pub encode_snapshot : OverrideSnapshot env → Result Bytes
    encode_snapshot snapshot = elim (snapshots.serialize snapshot) [
      | done serialized ↦ compress_data zstd config serialized
      | failed e ↦ err (serialization_failed e)
    ]

    -- The answer, the files and the store, whose clock was read.
    unfoldable pub save_snapshot :
        OverrideStore env → Disk → (Result (Unit {0}) × Disk) × OverrideStore env
    save_snapshot s disk =
        let (snapshot, s') = from_store env hasher s in
        (save_bytes (encode_snapshot snapshot) disk, s')

    abbrev decode_snapshot : Result Bytes → Result (OverrideStore env)
    decode_snapshot (err e) = err e
    decode_snapshot (ok serialized) = elim (snapshots.deserialize serialized) [
      | done snapshot ↦ restore_to_store env hasher snapshot
      | failed e ↦ err (deserialization_failed e)
    ]

    unfoldable pub load_snapshot : Disk → Result (OverrideStore env)
    load_snapshot disk = elim (fs.read_to_end snapshot_path disk) [
      | failed e ↦ err (io_error e)
      | done (failed e) ↦ err (io_error e)
      | done (done compressed) ↦ decode_snapshot (decompress_data zstd config compressed)
    ]

    module _ (crc : Crc) (ops : Serde PersistenceOp) where
      abbrev pub compact_after :
          Result (Unit {0}) × Disk
          → OverrideStore env
          → (Result (Unit {0}) × Disk) × OverrideStore env
      compact_after (err e, disk) s = ((err e, disk), s)
      compact_after (ok u, disk) s =
          (mark_and_truncate crc ops (now_secs env 0 s) disk, tick env 1 s)

      unfoldable pub compact :
          OverrideStore env → Disk → (Result (Unit {0}) × Disk) × OverrideStore env
      compact s disk = let (saved, s') = save_snapshot s disk in compact_after saved s'
