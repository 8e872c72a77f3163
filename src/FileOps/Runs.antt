-- ===== src/FileOps/Runs.antt =====
-- Sequences of calls in shadowfs-macos, fskit/file_ops.rs.
use shadowfs.Base.{
  ℕ, ◌+◌, ◌-◌, ◌^◌, ◌<◌, ◌≤◌, ◌≡◌, refl, List, [], ◌∷◌, Option, arith, lookup, length,
}
use shadowfs.Crates.Codec.{Bytes}
use shadowfs.Crates.SourceFs.{SourceFs}
use shadowfs.FileOps.{FsFileOps, OpenMode, OverrideStore}
use shadowfs.FileOps.Appended.{IsSized}
use shadowfs.FileOps.Handles
use shadowfs.FileOps.Handles.{
  with_handle, put_handle, setup_read_context, setup_write_context, seek, SeekWhence,
  open_with_mode, new_handle, opened_position, opened_content,
}
use shadowfs.FileOps.Kept.{
  IsTracked, Keeps, with_locks, setup_read_context-Keeps, setup_write_context-Keeps, seek-Keeps,
  pwrite-Keeps, read-Keeps, write-Keeps,
}
use shadowfs.FileOps.LockCalls.{
  lock_file, try_lock_file, unlock_file, unlock_all, upgrade_lock, downgrade_lock, on_locks,
}
use shadowfs.FileOps.Transfer.{read, write, pwrite, write_buffered, flush_handle, close_handle}
use shadowfs.Locks.{LockType, ByteRange}
use shadowfs.FileOps.Calls.{
  write_buffered-Keeps, flush_handle-Keeps, close_handle-Keeps, open-IsTracked,
}

module _ {P : Type 0} (dec : Discrete P) (source : SourceFs P) where
  pub data Call : Type 0 where
    call_open : P → OpenMode → Call
    call_read_context call_write_context call_flush call_close call_unlock_all : ℕ → Call
    call_seek : ℕ → ℕ → SeekWhence → Call
    call_read : ℕ → ℕ → Call
    call_write call_write_buffered : ℕ → Bytes → Call
    call_pwrite : ℕ → ℕ → Bytes → Call
    call_lock : ℕ → ℕ → LockType → Option ByteRange → Option ℕ → Call
    call_try_lock : ℕ → ℕ → LockType → Option ByteRange → Call
    call_unlock call_upgrade call_downgrade : ℕ → ℕ → Call

  -- What a call leaves, whatever it answers.
  unfoldable pub step : Call → FsFileOps P → FsFileOps P
  step (call_open path mode) s = (open_with_mode dec source path mode s).1
  step (call_read_context id) s = (setup_read_context id s).1
  step (call_write_context id) s = (setup_write_context id s).1
  step (call_flush id) s = (flush_handle dec source id s).1
  step (call_close id) s = (close_handle dec source id s).1
  step (call_unlock_all id) s = unlock_all dec id s
  step (call_seek id offset whence) s = (seek dec source id offset whence s).1
  step (call_read id n) s = (read dec source id n s).1
  step (call_write id new) s = (write dec source id new s).1
  step (call_write_buffered id new) s = (write_buffered dec source id new s).1
  step (call_pwrite id offset new) s = (pwrite dec source id offset new s).1
  step (call_lock now id t range timeout) s = (lock_file dec now id t range timeout s).1
  step (call_try_lock now id t range) s = (try_lock_file dec now id t range s).1
  step (call_unlock id lock) s = (unlock_file dec id lock s).1
  step (call_upgrade id lock) s = (upgrade_lock dec id lock s).1
  step (call_downgrade id lock) s = (downgrade_lock dec id lock s).1

  unfoldable pub run : List Call → FsFileOps P → FsFileOps P
  unfolding step
  run [] s = s
  run (c ∷ l) s = run l (step c s)

  -- A sound state, with at most one number more given out.
  abbrev IsNext : FsFileOps P → FsFileOps P → Type 0
  IsNext s t = IsTracked dec source t × (t.next_handle_id ≤ s.next_handle_id + 1)

  Keeps-IsNext : (s t : FsFileOps P) → Keeps dec source s t → IsNext s t
  Keeps-IsNext s t h = (h.0, omega (arith, h.1))

  -- Nothing but the lock manager differs.
  locks-IsNext :
      (s t : FsFileOps P)
      → t ≡ record s { lock_manager = t.lock_manager }
      → IsTracked dec source s
      → IsNext s t
  locks-IsNext s t e i =
      let kept = with_locks dec source t.lock_manager s i in rw e (kept.0, omega (arith, kept.1))

  step-IsNext :
      (c : Call) (s : FsFileOps P)
      → IsTracked dec source s
      → s.next_handle_id + 1 < 2 ^ 64
      → IsNext s (step c s)
  unfolding step lock_file try_lock_file unlock_file unlock_all upgrade_lock downgrade_lock on_locks
      with_handle
  step-IsNext (call_open path mode) s i l =
      let opened = open-IsTracked dec source path mode s i l in (opened.0, omega (arith, opened.1))
  step-IsNext (call_read_context id) s i l =
      Keeps-IsNext s _ (setup_read_context-Keeps dec source id s i)
  step-IsNext (call_write_context id) s i l =
      Keeps-IsNext s _ (setup_write_context-Keeps dec source id s i)
  step-IsNext (call_flush id) s i l = Keeps-IsNext s _ (flush_handle-Keeps dec source id s i)
  step-IsNext (call_close id) s i l = Keeps-IsNext s _ (close_handle-Keeps dec source id s i)
  step-IsNext (call_unlock_all id) s i l = locks-IsNext s _ refl i
  step-IsNext (call_seek id offset whence) s i l =
      Keeps-IsNext s _ (seek-Keeps dec source id offset whence s i)
  step-IsNext (call_read id n) s i l = Keeps-IsNext s _ (read-Keeps dec source id n s i)
  step-IsNext (call_write id new) s i l = Keeps-IsNext s _ (write-Keeps dec source id new s i)
  step-IsNext (call_write_buffered id new) s i l =
      Keeps-IsNext s _ (write_buffered-Keeps dec source id new s i)
  step-IsNext (call_pwrite id offset new) s i l =
      Keeps-IsNext s _ (pwrite-Keeps dec source id offset new s i)
  step-IsNext (call_lock now id t range timeout) s i l =
      locks-IsNext s (lock_file dec now id t range timeout s).1 (ground arith) i
  step-IsNext (call_try_lock now id t range) s i l =
      locks-IsNext s (try_lock_file dec now id t range s).1 (ground arith) i
  step-IsNext (call_unlock id lock) s i l =
      locks-IsNext s (unlock_file dec id lock s).1 (ground arith) i
  step-IsNext (call_upgrade id lock) s i l =
      locks-IsNext s (upgrade_lock dec id lock s).1 (ground arith) i
  step-IsNext (call_downgrade id lock) s i l =
      locks-IsNext s (downgrade_lock dec id lock s).1 (ground arith) i

  run_from :
      (l : List Call) (s : FsFileOps P)
      → IsTracked dec source s
      → s.next_handle_id + length l < 2 ^ 64
      → IsTracked dec source (run l s)
  unfolding run
  run_from [] s i b = i
  run_from (c ∷ l) s i b =
      let next = step-IsNext c s i (omega (arith, b)) in
      run_from l (step c s) next.0 (omega (arith, b, next.1))

  -- From overrides whose sizes are those of their data, after any sequence of fewer than 2^64 - 1
  -- calls of the methods on open files, locks included and `track_handle` left out: every handle
  -- stands under its own number, which is below the next one to be given out, and the sizes of all
  -- overrides are still those of their data.
  pub run-IsTracked :
      (l : List Call) (o : OverrideStore P)
      → IsSized dec source o
      → length l < 2 ^ 64 - 1
      → IsTracked dec source (run l (Handles.new dec o))
  unfolding lookup
  run-IsTracked l o z b =
      run_from l (Handles.new dec o)
        (record {
          numbered = λ id h m. absurd (ground (arith, m));
          fresh = λ id h m. absurd (ground (arith, m));
          sized = z;
        })
        (omega (arith, b))
