-- ===== src/Persistence/Log/Ends.antt =====
-- The loop of `replay_operations` of override_store/persistence.rs on any buffer.
use shadowfs.Base.{ℕ, zero, suc, ◌<◌, ◌≡◌, refl, inl, inr, arith, length}
use shadowfs.Crates.Codec.{Bytes}
use shadowfs.Crates.Crc.{Crc}
use shadowfs.Crates.Serde.{Serde}
use shadowfs.Error.{IoResult-cases, IoResult, done, failed, Result, ok, err, io_error}
use shadowfs.Persistence.{PersistenceOp}
use shadowfs.Persistence.Frame.{Frame, read_frame, ended, corrupt, entry, read_frame-le}
use shadowfs.Persistence.Log.{
  Outcome, finished, apply_from, replay_from, replay_operations, corruption_detected,
  deserialization_failed,
}
use shadowfs.Store.{Env, OverrideStore}

module _ (crc : Crc) where
  -- The three outcomes of a round.
  data FrameCase (f : Frame crc) : Type 0 where
    at_end : f ≡ ended → FrameCase f
    at_fault : f ≡ corrupt → FrameCase f
    at_entry : (d rest : Bytes) → f ≡ entry d rest → FrameCase f

  Frame-cases : (f : Frame crc) → FrameCase f
  Frame-cases ended = at_end refl
  Frame-cases corrupt = at_fault refl
  Frame-cases (entry d rest) = at_entry d rest refl

module _ (env : Env) (crc : Crc) (ops : Serde PersistenceOp) (from_timestamp : ℕ) where
  abbrev pub IsFinished : Outcome × OverrideStore env → Type 0
  IsFinished r = (a : Result (Unit {0})) × (r.0 ≡ finished a)

  replay_from-IsFinished :
      (fuel : ℕ) (b : Bytes) (s : OverrideStore env)
      → length b < fuel
      → IsFinished (replay_from env crc ops fuel from_timestamp b s)
  unfolding replay_from
  replay_from-IsFinished zero b s h = absurd (omega arith)
  replay_from-IsFinished (suc fuel) b s h = elim (Frame-cases crc (read_frame crc b)) [
    | at_end e ↦ (ok tt, rw (e, replay_from) refl)
    | at_fault e ↦ (err corruption_detected, rw (e, replay_from) refl)
    | at_entry d rest e ↦ elim (IoResult-cases (ops.deserialize d)) [
      | inl (op, f) ↦
          let (a, eq) =
            replay_from-IsFinished fuel rest (apply_from env from_timestamp op s)
              (omega (arith, read_frame-le crc b d rest e)) in
          (a, rw (e, replay_from, f) eq)
      | inr (x, f) ↦ (err (deserialization_failed x), rw (e, replay_from, f) refl)
    ]
  ]

  -- On any log, the loop of `replay_operations` comes to an answer: the fuel of one round more than
  -- the log has bytes is enough.
  pub replay_operations-IsFinished :
      (log : IoResult (IoResult Bytes)) (s : OverrideStore env)
      → IsFinished (replay_operations env crc ops log from_timestamp s)
  unfolding replay_operations
  replay_operations-IsFinished (failed e) s = (ok tt, refl)
  replay_operations-IsFinished (done (failed e)) s = (err (io_error e), refl)
  replay_operations-IsFinished (done (done buffer)) s =
      replay_from-IsFinished (suc (length buffer)) buffer s (omega arith)
