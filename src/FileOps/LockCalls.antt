-- ===== src/FileOps/LockCalls.antt =====
-- The locks of open files in shadowfs-macos, fskit/file_ops.rs: each method asks the lock manager
-- about the file of the handle.
use shadowfs.Base.{ℕ, Option, some, none, Bool}
use shadowfs.FileOps.{FsFileOps, FileResult, ok, err, handle_not_found, lock_failed, handle_at}
use shadowfs.FileOps.Handles.{with_handle}
use shadowfs.Locks
use shadowfs.Locks.{ByteRange, LockType, LockResult}
use shadowfs.Locks.Manager
use shadowfs.Locks.Manager.{
  FileLockManager, Acquire, request_lock, try_acquire_lock, release_lock, release_all_locks,
  is_range_locked,
}

unfoldable pub lock_answer : {A : Type 0} → LockResult A → FileResult A
lock_answer (Locks.ok a) = ok a
lock_answer (Locks.err e) = err (lock_failed e)

module _ {P : Type 0} (dec : Discrete P) where
  -- The lock manager is changed, whatever the answer.
  unfoldable pub on_locks :
      {A : Type 0}
      → (FileLockManager P → LockResult A × FileLockManager P)
      → FsFileOps P
      → FileResult A × FsFileOps P
  unfolding lock_answer
  on_locks f s = let r = f s.lock_manager in (lock_answer r.0, record s { lock_manager = r.1 })

  -- The first part of `acquire_lock`, before its wait.
  unfoldable pub lock_file :
      ℕ
      → ℕ
      → LockType
      → Option ByteRange
      → Option ℕ
      → FsFileOps P
      → FileResult Acquire × FsFileOps P
  unfolding with_handle
  lock_file now id t range timeout s =
      with_handle id
        (λ h s.
          let r = request_lock dec now h.path id t range timeout s.lock_manager in
          (ok r.0, record s { lock_manager = r.1 }))
        s

  unfoldable pub try_lock_file :
      ℕ → ℕ → LockType → Option ByteRange → FsFileOps P → FileResult (Option ℕ) × FsFileOps P
  unfolding with_handle
  try_lock_file now id t range s =
      with_handle id
        (λ h s.
          let r = try_acquire_lock dec now h.path id t range s.lock_manager in
          (ok r.0, record s { lock_manager = r.1 }))
        s

  unfoldable pub unlock_file : ℕ → ℕ → FsFileOps P → FileResult (Unit {0}) × FsFileOps P
  unfolding with_handle on_locks
  unlock_file id lock_id s = with_handle id (λ h s. on_locks (release_lock dec h.path lock_id) s) s

  unfoldable pub unlock_all : ℕ → FsFileOps P → FsFileOps P
  unlock_all id s = record s { lock_manager = release_all_locks dec id s.lock_manager }

  unfoldable pub upgrade_lock : ℕ → ℕ → FsFileOps P → FileResult (Unit {0}) × FsFileOps P
  unfolding with_handle on_locks
  upgrade_lock id lock_id s =
      with_handle id (λ h s. on_locks (Manager.upgrade_lock dec h.path lock_id) s) s

  unfoldable pub downgrade_lock : ℕ → ℕ → FsFileOps P → FileResult (Unit {0}) × FsFileOps P
  unfolding with_handle on_locks
  downgrade_lock id lock_id s =
      with_handle id (λ h s. on_locks (Manager.downgrade_lock dec h.path lock_id) s) s

  unfoldable pub range_locked : ℕ → ByteRange → Bool → FsFileOps P → FileResult Bool
  range_locked id range for_write s = elim (handle_at id s) [
    | none ↦ err (handle_not_found id)
    | some h ↦ ok (is_range_locked dec h.path range for_write s.lock_manager)
  ]
