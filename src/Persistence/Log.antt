-- ===== src/Persistence/Log.antt =====
-- The replay of the write-ahead log of override_store/persistence.rs.
pub mod Replay
pub mod Ends
use shadowfs.Base.{ℕ, zero, suc, List, [], ◌∷◌, ◌++◌, none, keys, length, ltb, if◌then◌else◌}
use shadowfs.Crates.Codec.{Bytes}
use shadowfs.Crates.Crc.{Crc}
use shadowfs.Crates.Serde.{Serde}
use shadowfs.Error.{
  IoError, IoResult, done, failed, ShadowError, io_error, platform_error, Platform, Result, ok, err,
}
use shadowfs.Path.Chars.{Text, text}
use shadowfs.Persistence.{PersistenceOp, timestamp, insert, clear, snapshot}
use shadowfs.Persistence
use shadowfs.Persistence.Frame.{read_frame, ended, corrupt, entry}
use shadowfs.Store.{Env, OverrideStore}
use shadowfs.Store.Insertion.{insert_entry}
use shadowfs.Store.Removal.{remove}
use shadowfs.Store.Tree.{remove_all}

-- The error that all failures of the layer are reported as.
abbrev pub linux_error : Text → ShadowError
linux_error message = platform_error Platform.linux message none

abbrev pub serialization_failed : IoError → ShadowError
serialization_failed e = linux_error (text "Serialization failed: " ++ e.message)

abbrev pub deserialization_failed : IoError → ShadowError
deserialization_failed e = linux_error (text "Deserialization failed: " ++ e.message)

abbrev pub corruption_detected : ShadowError
corruption_detected = linux_error (text "WAL corruption detected: checksum mismatch")

-- `unfinished` is no answer of the code: the fuel of the loop ran out.
pub data Outcome : Type 0 where
  finished : Result (Unit {0}) → Outcome
  unfinished : Outcome

module _ (env : Env) where
  open env use {entry_map}

  -- An insertion's error is dropped.
  unfoldable pub apply_op : PersistenceOp → OverrideStore env → OverrideStore env
  apply_op (insert path content metadata t) s = (insert_entry env path content none metadata s).1
  apply_op (Persistence.remove path t) s = (remove env path s).1
  apply_op (clear t) s = (remove_all env (keys (entry_map.iter s.entries)) s).1
  apply_op (snapshot t) s = s

  -- Operations from before the time are skipped.
  abbrev pub apply_from : ℕ → PersistenceOp → OverrideStore env → OverrideStore env
  apply_from from_timestamp op s = if ltb (timestamp op) from_timestamp then s else apply_op op s

  module _ (crc : Crc) (ops : Serde PersistenceOp) where
    -- The loop over the buffer. Each round takes eight bytes at least.
    unfoldable pub replay_from : ℕ → ℕ → Bytes → OverrideStore env → Outcome × OverrideStore env
    replay_from zero from_timestamp buffer s = (unfinished, s)
    replay_from (suc fuel) from_timestamp buffer s = elim (read_frame crc buffer) [
      | ended ↦ (finished (ok tt), s)
      | corrupt ↦ (finished (err corruption_detected), s)
      | entry op_data rest ↦ elim (ops.deserialize op_data) [
        | failed e ↦ (finished (err (deserialization_failed e)), s)
        | done op ↦ replay_from fuel from_timestamp rest (apply_from from_timestamp op s)
      ]
    ]

    -- What opening the log and reading it to its end answered is an argument.
    unfoldable pub replay_operations :
        IoResult (IoResult Bytes) → ℕ → OverrideStore env → Outcome × OverrideStore env
    replay_operations (failed e) from_timestamp s = (finished (ok tt), s)
    replay_operations (done (failed e)) from_timestamp s = (finished (err (io_error e)), s)
    replay_operations (done (done buffer)) from_timestamp s =
        replay_from (suc (length buffer)) from_timestamp buffer s
