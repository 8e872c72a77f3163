-- ===== src/Tests/Logs.antt =====
-- The log and the snapshots at concrete files.
use shadowfs.Base.{
  false, zero, suc, ◌<◌, ◌≡◌, refl, sym, ◌⊎◌, [], ◌∷◌, ◌++◌, some, none, arith, length, ite,
}
use mathlib.Core.List.{append-nil}
use shadowfs.Crates.Codec.{Bytes}
use shadowfs.Crates.Concrete.Disks.{
  SmallDisk, small_disk, length_crc, stored_as_is, counting_hasher, disk_full,
}
use shadowfs.Crates.Serde.{Serde, Bincode}
use shadowfs.Error.{IoResult, done, failed, Result, ok, err}
use shadowfs.Directory.{has_child}
use shadowfs.Path.{ShadowPath}
use shadowfs.Path.Chars.{Text}
use shadowfs.Persistence.{PersistenceOp, insert, clear, snapshot, default_config}
use shadowfs.Persistence
use shadowfs.Persistence.Files.{
  LogFile-discrete, snapshot_path, wal_path, wal_bytes, append_operation, append_entry,
}
use shadowfs.Persistence.Files.Append.{IsCut, replay-append_operation}
use shadowfs.Persistence.Files.Snapshots.{
  compact, encode_snapshot, compress_data, save_snapshot, save_bytes, replace_snapshot,
  load_snapshot,
}
use shadowfs.Persistence.Files.Snapshots.Loading.{load_snapshot-save_snapshot}
use shadowfs.Persistence.Files.Snapshots.Atomic.{IsCompacted, compact-IsCompacted, flushed}
use shadowfs.Persistence.Frame.{frame, to_le_bytes}
use shadowfs.Persistence.Log.{finished, replay_operations, corruption_detected}
use shadowfs.Persistence.Log.Ends.{IsFinished, replay_operations-IsFinished}
use shadowfs.Persistence.Log.Replay.{
  Logged, nothing, logged, apply_all, replay_operations_torn, replay_operations_corrupt,
}
use shadowfs.Persistence.Snapshot.{OverrideSnapshot, from_store, restore_to_store}
use shadowfs.Persistence.Snapshot.Restore.{view, restore_to_store-from_store}
use shadowfs.Store.{OverrideStore}
use shadowfs.Store.Coherence.{cached}
use shadowfs.Tests.Stores.{env, written}

-- A codec of the operations without a path.
abbrev to_bytes : PersistenceOp → IoResult Bytes
to_bytes (insert path content metadata t) = failed disk_full
to_bytes (Persistence.remove path t) = failed disk_full
to_bytes (clear t) = done (0 ∷ t ∷ [])
to_bytes (snapshot t) = done (1 ∷ t ∷ [])

abbrev from_bytes : Bytes → IoResult PersistenceOp
from_bytes (zero ∷ t ∷ []) = done (clear t)
from_bytes (suc zero ∷ t ∷ []) = done (snapshot t)
from_bytes _ = failed disk_full

from_bytes-to_bytes :
    (op : PersistenceOp) (d : Bytes) → to_bytes op ≡ done d → from_bytes d ≡ done op
from_bytes-to_bytes (insert path content metadata t) d h = absurd (ground arith)
from_bytes-to_bytes (Persistence.remove path t) d h = absurd (ground arith)
from_bytes-to_bytes (clear t) d h = let same : 0 ∷ t ∷ [] ≡ d = cc in rw (← same) refl
from_bytes-to_bytes (snapshot t) d h = let same : 1 ∷ t ∷ [] ≡ d = cc in rw (← same) refl

to_bytes-ne_empty : (op : PersistenceOp) (d : Bytes) → to_bytes op ≡ done d → 0 < length d
to_bytes-ne_empty (insert path content metadata t) d h = absurd (ground arith)
to_bytes-ne_empty (Persistence.remove path t) d h = absurd (ground arith)
to_bytes-ne_empty (clear t) d h = let same : 0 ∷ t ∷ [] ≡ d = cc in rw (← same) (omega arith)
to_bytes-ne_empty (snapshot t) d h = let same : 1 ∷ t ∷ [] ≡ d = cc in rw (← same) (omega arith)

abbrev marks : Serde PersistenceOp
marks = record {
  serialize = to_bytes;
  deserialize = from_bytes;
  deserialize-serialize = from_bytes-to_bytes;
  serialize-ne-empty = to_bytes-ne_empty;
}

-- One entry of two bytes.
abbrev cleared : Bytes
cleared = frame length_crc (0 ∷ 9 ∷ [])

cleared-Logged : Logged length_crc marks (clear 9 ∷ []) cleared
cleared-Logged =
    logged (clear 9) [] (0 ∷ 9 ∷ []) [] cleared refl (omega arith) nothing
      (sym (append-nil cleared))

framed : cleared ≡ (2 ∷ []) ++ 0 ∷ 0 ∷ 0 ∷ 0 ∷ 9 ∷ 2 ∷ 0 ∷ 0 ∷ 0 ∷ []
unfolding frame
framed = refl

replay_operations_torn_example :
    replay_operations env length_crc marks (done (done (cleared ++ 2 ∷ []))) 5 written
    ≡ (finished (ok tt), apply_all length_crc marks env 5 (clear 9 ∷ []) written)
replay_operations_torn_example =
    replay_operations_torn length_crc marks env 5 (clear 9 ∷ []) cleared (0 ∷ 9 ∷ []) (2 ∷ []) 0
      (0 ∷ 0 ∷ 0 ∷ 9 ∷ 2 ∷ 0 ∷ 0 ∷ 0 ∷ []) written cleared-Logged (omega arith) framed

replay_operations_corrupt_example :
    replay_operations env length_crc marks
      (done (done (cleared ++ (to_le_bytes 2 ++ ((1 ∷ 8 ∷ []) ++ (to_le_bytes 7 ++ []))))))
      5
      written
    ≡ (finished (err corruption_detected), apply_all length_crc marks env 5 (clear 9 ∷ []) written)
replay_operations_corrupt_example =
    replay_operations_corrupt length_crc marks env 5 (clear 9 ∷ []) cleared (1 ∷ 8 ∷ []) [] 7
      written cleared-Logged (omega arith) (omega arith) (omega arith) (λ e. omega arith)

replay_operations-IsFinished_example :
    IsFinished env length_crc marks 5
      (replay_operations env length_crc marks (done (done (7 ∷ 7 ∷ []))) 5 written)
replay_operations-IsFinished_example =
    replay_operations-IsFinished env length_crc marks 5 (done (done (7 ∷ 7 ∷ []))) written

-- A disk with a log of one entry, and room for three bytes more.
abbrev nearly_full : SmallDisk LogFile-discrete
nearly_full = (λ j. ite (LogFile-discrete j wal_path) (some cleared) none, 3, false)

nearly_full-Logged :
    Logged length_crc marks (clear 9 ∷ []) (wal_bytes (small_disk LogFile-discrete) nearly_full)
unfolding LogFile-discrete
nearly_full-Logged = cleared-Logged

replay-append_operation_example :
    Logged length_crc marks ((clear 9 ∷ []) ++ clear 10 ∷ []) (
      wal_bytes
        (small_disk LogFile-discrete)
        (append_operation (small_disk LogFile-discrete) length_crc marks (clear 10) nearly_full).1)
    ⊎ (IsCut
          (small_disk LogFile-discrete)
          length_crc
          marks
          (frame length_crc (0 ∷ 10 ∷ []))
          nearly_full
          (append_operation (small_disk LogFile-discrete) length_crc marks (clear 10) nearly_full).0
        × (replay_operations env length_crc marks
              (done (
                done (
                  wal_bytes
                    (small_disk LogFile-discrete)
                    (append_operation
                      (small_disk LogFile-discrete)
                      length_crc
                      marks
                      (clear 10)
                      nearly_full).1)))
              5
              written
            ≡ (finished (ok tt), apply_all length_crc marks env 5 (clear 9 ∷ []) written)))
replay-append_operation_example =
    replay-append_operation (small_disk LogFile-discrete) length_crc marks env 5 written
      (clear 9 ∷ []) (clear 10) (0 ∷ 10 ∷ []) nearly_full nearly_full-Logged refl (omega arith)

-- The entry does not fit, and the answer is success.
cut_ok :
    (append_operation (small_disk LogFile-discrete) length_crc marks (clear 10) nearly_full).0
    ≡ ok tt
unfolding append_operation append_entry
cut_ok = refl

restore_to_store-from_store_example :
    (t : OverrideStore env) × (restore_to_store env counting_hasher
        (from_store env counting_hasher written).0
      ≡ ok t)
    × ((p : ShadowPath) → (view env p t ≡ view env p written) × (cached env p t ≡ none))
    × ((p : ShadowPath) (n : Text)
        → has_child env.names env.dirs p n t.directory_cache
          ≡ has_child env.names env.dirs p n written.directory_cache)
    × (t.config ≡ written.config)
restore_to_store-from_store_example = restore_to_store-from_store env counting_hasher written

-- Every snapshot is one byte.
abbrev one_byte : Bincode (OverrideSnapshot env)
one_byte = record { serialize = λ t. done (1 ∷ []); deserialize = λ d. failed disk_full }

one_byte_encoded :
    encode_snapshot
      (small_disk LogFile-discrete)
      env
      counting_hasher
      stored_as_is
      default_config
      one_byte
      (from_store env counting_hasher written).0
    ≡ ok (1 ∷ [])
unfolding encode_snapshot compress_data
one_byte_encoded = refl

compact-IsCompacted_example :
    IsCompacted
      (small_disk LogFile-discrete)
      env
      counting_hasher
      stored_as_is
      default_config
      one_byte
      (1 ∷ [])
      nearly_full
      (compact
        (small_disk LogFile-discrete)
        env
        counting_hasher
        stored_as_is
        default_config
        one_byte
        length_crc
        marks
        written
        nearly_full).0
compact-IsCompacted_example =
    compact-IsCompacted (small_disk LogFile-discrete) env counting_hasher stored_as_is
      default_config one_byte length_crc marks written nearly_full (1 ∷ []) one_byte_encoded

-- One byte that is read as the snapshot of the written store.
abbrev one_snapshot : Bincode (OverrideSnapshot env)
one_snapshot = record {
  serialize = λ t. done (1 ∷ []);
  deserialize = λ d. done (from_store env counting_hasher written).0;
}

abbrev saved : (Result (Unit {0}) × SmallDisk LogFile-discrete) × OverrideStore env
saved =
    save_snapshot (small_disk LogFile-discrete) env counting_hasher stored_as_is default_config
      one_snapshot written nearly_full

saved_ok : saved.0.0 ≡ ok tt
unfolding save_snapshot save_bytes replace_snapshot encode_snapshot compress_data LogFile-discrete
saved_ok = refl

saved_read :
    (small_disk LogFile-discrete).read_to_end snapshot_path saved.0.1 ≡ done (done (1 ∷ []))
unfolding save_snapshot save_bytes replace_snapshot encode_snapshot compress_data LogFile-discrete
saved_read = refl

saved_compressed : compress_data stored_as_is default_config (1 ∷ []) ≡ ok (1 ∷ [])
unfolding compress_data
saved_compressed = refl

saved_flushed : flushed (small_disk LogFile-discrete) (1 ∷ []) nearly_full ≡ done tt
unfolding LogFile-discrete
saved_flushed = refl

load_snapshot-save_snapshot_example :
    (t : OverrideStore env) × (load_snapshot
        (small_disk LogFile-discrete)
        env
        counting_hasher
        stored_as_is
        default_config
        one_snapshot
        saved.0.1
      ≡ ok t)
    × ((p : ShadowPath) → view env p t ≡ view env p written)
load_snapshot-save_snapshot_example =
    load_snapshot-save_snapshot (small_disk LogFile-discrete) env counting_hasher stored_as_is
      default_config one_snapshot written nearly_full (1 ∷ []) (1 ∷ []) (1 ∷ []) refl refl
      saved_compressed saved_ok saved_flushed saved_read
