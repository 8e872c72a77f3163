-- ===== src/Locks/Manager/Waiting/Moves.antt =====
-- The waits of shadowfs-macos, fskit/file_locking.rs, in any order of the calls and of the ends of the waits.
use shadowfs.Base.{
  ℕ, ◌+◌, ◌%◌, ◌^◌, ◌≡◌, refl, List, [], ◌∷◌, Option, arith, without, if◌then◌else◌,
}
use shadowfs.Locks.{ByteRange, LockType, FileLock, LockRequest, LockResult, ok}
use shadowfs.Locks.Graph.{LockGraph, remove_wait, add_ownership, remove_ownership, store_paths}
use shadowfs.Locks.Manager
use shadowfs.Locks.Manager.{
  FileLockManager, Acquire, answered, waits, get_locks, can_acquire_lock, verdict, generate_lock_id,
  would_cause_deadlock, request_lock, add_to_wait_queue, remove_from_wait_queue, resume_lock,
  grant_lock, write_locks, write_queue, process_wait_queue, wait_for_lock, try_acquire_lock,
  release_lock, release_locks_for_owner, release_paths, release_all_locks, upgrade_lock,
  upgrade_found, downgrade_lock, paths_of,
}
use shadowfs.Locks.Manager.Exclusive.Calls.{
  LockCall, tries, releases, upgrades, downgrades, releases_all, step,
}
use shadowfs.Locks.Manager.Waiting.Deadlock.{
  IsIdle, would_cause_deadlock_idle, would_cause_deadlock-IsIdle,
}

module _ {P : Type 0} (dec : Discrete P) where
  grant_lock-IsIdle :
      (now : ℕ) (path : P) (w : ℕ) (t : LockType) (range : Option ByteRange) (id : ℕ)
      (s : FileLockManager P)
      → IsIdle dec s
      → IsIdle dec (grant_lock dec now path w t range id s)
  unfolding grant_lock remove_wait add_ownership without
  grant_lock-IsIdle now path w t range id s h = rw h refl

  graph-write_queue :
      (path : P) (l : List LockRequest) (s : FileLockManager P)
      → (write_queue dec path l s).ownership_graph ≡ s.ownership_graph
  unfolding write_queue
  graph-write_queue path [] s = refl
  graph-write_queue path (r ∷ l) s = refl

  graph-write_locks :
      (path : P) (l : List FileLock) (s : FileLockManager P)
      → (write_locks dec path l s).ownership_graph ≡ s.ownership_graph
  unfolding write_locks
  graph-write_locks path [] s = refl
  graph-write_locks path (r ∷ l) s = refl

  graph-process_wait_queue :
      (path : P) (s : FileLockManager P)
      → (process_wait_queue dec path s).ownership_graph ≡ s.ownership_graph
  unfolding process_wait_queue
  graph-process_wait_queue path s = grind (arith, graph-write_queue)

  dependencies-store_paths :
      (w : ℕ) (l : List P) (g : LockGraph P) → (store_paths dec w l g).dependencies ≡ g.dependencies
  unfolding store_paths
  dependencies-store_paths w [] g = refl
  dependencies-store_paths w (p ∷ l) g = refl

  dependencies-remove_ownership :
      (w : ℕ) (path : P) (g : LockGraph P)
      → (remove_ownership dec w path g).dependencies ≡ g.dependencies
  unfolding remove_ownership
  dependencies-remove_ownership w path g = grind (arith, dependencies-store_paths)

  release_lock-IsIdle :
      (path : P) (id : ℕ) (s : FileLockManager P)
      → IsIdle dec s
      → IsIdle dec (release_lock dec path id s).1
  unfolding release_lock
  release_lock-IsIdle path id s h =
      grind (arith, graph-process_wait_queue, graph-write_locks, dependencies-remove_ownership)

  release_paths-IsIdle :
      (owner : ℕ) (l : List P) (s : FileLockManager P)
      → IsIdle dec s
      → IsIdle dec (release_paths dec owner l s)
  unfolding release_paths release_locks_for_owner
  release_paths-IsIdle owner [] s h = h
  release_paths-IsIdle owner (p ∷ l) s h =
      release_paths-IsIdle owner l (release_locks_for_owner dec p owner s)
        (grind (arith, graph-process_wait_queue, graph-write_locks, dependencies-remove_ownership))

  upgrade_lock-IsIdle :
      (path : P) (id : ℕ) (s : FileLockManager P)
      → IsIdle dec s
      → IsIdle dec (upgrade_lock dec path id s).1
  unfolding upgrade_lock upgrade_found
  upgrade_lock-IsIdle path id s h = grind (arith, graph-write_locks)

  downgrade_lock-IsIdle :
      (path : P) (id : ℕ) (s : FileLockManager P)
      → IsIdle dec s
      → IsIdle dec (downgrade_lock dec path id s).1
  unfolding downgrade_lock
  downgrade_lock-IsIdle path id s h = grind (arith, graph-process_wait_queue, graph-write_locks)

  try_acquire_lock-IsIdle :
      (now : ℕ) (path : P) (w : ℕ) (t : LockType) (range : Option ByteRange) (s : FileLockManager P)
      → IsIdle dec s
      → IsIdle dec (try_acquire_lock dec now path w t range s).1
  unfolding try_acquire_lock generate_lock_id
  try_acquire_lock-IsIdle now path w t range s h = grind (arith, grant_lock-IsIdle)

  -- Calls, those that wait included, and the ends of waits, with any condition found, in any order.
  pub data Move : Type 0 where
    calls : LockCall dec → Move
    requests : ℕ → P → ℕ → LockType → Option ByteRange → Option ℕ → Move
    resumes : ℕ → P → ℕ → LockType → Option ByteRange → ℕ → LockResult ℕ → Move

  unfoldable pub move : Move → FileLockManager P → FileLockManager P
  move (calls c) s = step dec c s
  move (requests now p w t range timeout) s = (request_lock dec now p w t range timeout s).1
  move (resumes now p w t range id found) s = (resume_lock dec now p w t range id found s).1

  unfoldable pub run_moves : List Move → FileLockManager P → FileLockManager P
  run_moves [] s = s
  run_moves (m ∷ l) s = run_moves l (move m s)

  step-IsIdle :
      (c : LockCall dec) (s : FileLockManager P) → IsIdle dec s → IsIdle dec (step dec c s)
  unfolding step release_all_locks
  step-IsIdle (tries now p w t range) s h = try_acquire_lock-IsIdle now p w t range s h
  step-IsIdle (releases p id) s h = release_lock-IsIdle p id s h
  step-IsIdle (upgrades p id) s h = upgrade_lock-IsIdle p id s h
  step-IsIdle (downgrades p id) s h = downgrade_lock-IsIdle p id s h
  step-IsIdle (releases_all owner) s h = release_paths-IsIdle owner (paths_of dec owner s.locks) s h

  remove_from_wait_queue-IsIdle :
      (path : P) (w : ℕ) (s : FileLockManager P)
      → IsIdle dec s
      → IsIdle dec (remove_from_wait_queue dec path w s)
  unfolding remove_from_wait_queue
  remove_from_wait_queue-IsIdle path w s h = grind (arith, graph-write_queue)

  resume_lock-IsIdle :
      (now : ℕ) (path : P) (w : ℕ) (t : LockType) (range : Option ByteRange) (id : ℕ)
      (found : LockResult ℕ) (s : FileLockManager P)
      → IsIdle dec s
      → IsIdle dec (resume_lock dec now path w t range id found s).1
  unfolding resume_lock
  resume_lock-IsIdle now path w t range id found s h =
      grind (arith, grant_lock-IsIdle, remove_from_wait_queue-IsIdle)

  -- The request that is waiting, or is granted at once.
  request_lock-IsIdle :
      (now : ℕ) (path : P) (w : ℕ) (t : LockType) (range : Option ByteRange) (timeout : Option ℕ)
      (s : FileLockManager P)
      → IsIdle dec s
      → ((request_lock dec now path w t range timeout s).0 ≡ (
          if can_acquire_lock dec path w t range s
          then answered (ok s.counter)
          else waits s.counter))
        × IsIdle dec (request_lock dec now path w t range timeout s).1
  unfolding request_lock generate_lock_id can_acquire_lock get_locks add_to_wait_queue
  request_lock-IsIdle now path w t range timeout s h =
      let s' = record s { counter = (s.counter + 1) % 2 ^ 64 } in
      ground (
        arith,
        would_cause_deadlock_idle dec w path s' h,
        would_cause_deadlock-IsIdle dec w path s' h,
        grant_lock-IsIdle now path w t range s.counter s' h,
      )

  run_moves-IsIdle :
      (l : List Move) (s : FileLockManager P) → IsIdle dec s → IsIdle dec (run_moves l s)
  unfolding run_moves move
  run_moves-IsIdle [] s h = h
  run_moves-IsIdle (calls c ∷ l) s h = run_moves-IsIdle l (step dec c s) (step-IsIdle c s h)
  run_moves-IsIdle (requests now p w t range timeout ∷ l) s h =
      run_moves-IsIdle l _ (request_lock-IsIdle now p w t range timeout s h).1
  run_moves-IsIdle (resumes now p w t range id found ∷ l) s h =
      run_moves-IsIdle l _ (resume_lock-IsIdle now p w t range id found s h)

  -- After any sequence of calls and ends of waits from an empty manager: a request is granted where
  -- the lock can be acquired, and waits otherwise; it is never refused as a deadlock.
  pub request_lock-run_moves :
      (l : List Move) (now : ℕ) (path : P) (w : ℕ) (t : LockType) (range : Option ByteRange)
      (timeout : Option ℕ)
      → let s = run_moves l (Manager.new dec) in
        (request_lock dec now path w t range timeout s).0 ≡ (
          if can_acquire_lock dec path w t range s
          then answered (ok s.counter)
          else waits s.counter)
  request_lock-run_moves l now path w t range timeout =
      (request_lock-IsIdle now path w t range timeout (run_moves l (Manager.new dec))
        (run_moves-IsIdle l (Manager.new dec) refl)).0
