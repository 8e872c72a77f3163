-- ===== src/Locks/Manager.antt =====
-- `FileLockManager` of shadowfs-macos, fskit/file_locking.rs. A method takes the reading of the clock
-- that it makes, and a `HashMap` is a list with one entry for a key. `acquire_lock` is three steps, and
-- other threads may call between them: `request_lock`, up to the call of `wait_for_lock`;
-- `find_condition`, which finds the condition and keeps its `Arc` for the whole wait; and `resume_lock`,
-- when the wait is over. None of the locks around the fields is taken to be poisoned. The state is in
-- Locks/State, the wait queues and conditions in Locks/Queue.
pub mod Exclusive
pub mod Released
pub mod Waiting
pub use shadowfs.Locks.State.{FileLockManager}
unfoldable pub use shadowfs.Locks.State.{
  new, get_locks, is_range_locked, can_acquire_lock, generate_lock_id, write_locks, grant_lock,
}
unfoldable pub use shadowfs.Locks.Queue.{
  signal, write_queue, add_to_wait_queue, remove_from_wait_queue, grantable, process_wait_queue,
  find_condition, is_granted, wait_for_lock,
}
use shadowfs.Locks.Held.{
  find_lock, remove_lock, set_type, all_compatible, is_exclusive, any_locked, other_owners,
  in_the_way, owns_one,
}
use shadowfs.Base.{
  ℕ, ◌+◌, ◌%◌, ◌^◌, List, [], ◌∷◌, ◌++◌, map, Option, none, some, Bool, true, false, not, ◌&&◌,
  ◌||◌, ◌==◌, if◌then◌else◌, unwrap_or, filter, lookup, put, without, ℕ_discrete,
}
use shadowfs.Locks.{
  ByteRange, overlaps, ranges_overlap, LockType, shared, exclusive, FileLock, LockRequest,
  locks_compatible, LockResult, ok, err, timed_out, not_shared, not_exclusive, other_locks_exist,
  no_locks_found, no_condition, lock_not_found,
}
use shadowfs.Locks
use shadowfs.Locks.Graph
use shadowfs.Locks.Graph.{
  LockGraph, Search, searched, add_ownership, remove_ownership, add_wait, remove_wait, has_deadlock,
  member,
}

-- `acquire_lock` before its wait: an answer, or a request in the queue and the number for its lock. The
-- last is no answer of the code.
pub data Acquire : Type 0 where
  answered : LockResult ℕ → Acquire
  waits : ℕ → Acquire
  unfinished : Acquire

unfoldable pub verdict : Search → Option Bool
verdict (searched b visited stack) = some b
verdict Graph.unfinished = none

module _ {P : Type 0} (dec : Discrete P) where
  unfoldable pub would_cause_deadlock : ℕ → P → FileLockManager P → Option Bool × FileLockManager P
  would_cause_deadlock waiter path s =
      let graph =
        add_wait dec waiter path (other_owners waiter (get_locks dec path s)) s.ownership_graph in
      (
        verdict (has_deadlock dec waiter graph),
        record s { ownership_graph = remove_wait dec waiter graph },
      )

  unfoldable pub request_lock :
      ℕ
      → P
      → ℕ
      → LockType
      → Option ByteRange
      → Option ℕ
      → FileLockManager P
      → Acquire × FileLockManager P
  request_lock now path owner t range timeout s =
      let (id, s') = generate_lock_id dec s in
      if can_acquire_lock dec path owner t range s'
      then (answered (ok id), grant_lock dec now path owner t range id s')
      else (let (found, s'') = would_cause_deadlock owner path s' in
          elim found [
            | none ↦ (unfinished, s'')
            | some true ↦ (answered (err Locks.would_cause_deadlock), s'')
            | some false ↦ (
              waits id,
              add_to_wait_queue dec path
                  (record {
                    requester = owner;
                    lock_type = t;
                    range = range;
                    requested_at = now;
                    timeout = timeout;
                  })
                  s'',
            )
          ])

  unfoldable pub resume_lock :
      ℕ
      → P
      → ℕ
      → LockType
      → Option ByteRange
      → ℕ
      → LockResult ℕ
      → FileLockManager P
      → LockResult ℕ × FileLockManager P
  resume_lock now path owner t range id found s = elim (wait_for_lock dec found s) [
    | ok true ↦ (ok id, grant_lock dec now path owner t range id s)
    | ok false ↦ (err timed_out, remove_from_wait_queue dec path owner s)
    | err e ↦ (err e, remove_from_wait_queue dec path owner s)
  ]

  unfoldable pub try_acquire_lock :
      ℕ → P → ℕ → LockType → Option ByteRange → FileLockManager P → Option ℕ × FileLockManager P
  try_acquire_lock now path owner t range s =
      if can_acquire_lock dec path owner t range s
      then (let (id, s') = generate_lock_id dec s in
          (some id, grant_lock dec now path owner t range id s'))
      else (none, s)

  unfoldable pub release_lock :
      P → ℕ → FileLockManager P → LockResult (Unit {0}) × FileLockManager P
  release_lock path lock_id s = elim (lookup dec path s.locks) [
    | none ↦ (err no_locks_found, s)
    | some file_locks ↦ elim (find_lock lock_id file_locks) [
      | none ↦ (err (lock_not_found lock_id), s)
      | some l ↦
          let s' = write_locks dec path (remove_lock lock_id file_locks) s in
          (
            ok tt,
            process_wait_queue dec path (record s' {
              ownership_graph = remove_ownership dec l.owner path s'.ownership_graph;
            }),
          )
    ]
  ]

  unfoldable pub release_locks_for_owner : P → ℕ → FileLockManager P → FileLockManager P
  release_locks_for_owner path owner s =
      let s' =
        write_locks dec path (filter (λ l. not (l.owner == owner)) (get_locks dec path s)) s in
      process_wait_queue dec path
        (record s' { ownership_graph = remove_ownership dec owner path s'.ownership_graph })

  unfoldable pub paths_of : ℕ → List (P × List FileLock) → List P
  paths_of owner [] = []
  paths_of owner ((path, file_locks) ∷ l) =
      let rest = paths_of owner l in if owns_one owner file_locks then path ∷ rest else rest

  unfoldable pub release_paths : ℕ → List P → FileLockManager P → FileLockManager P
  release_paths owner [] s = s
  release_paths owner (path ∷ l) s = release_paths owner l (release_locks_for_owner path owner s)

  unfoldable pub release_all_locks : ℕ → FileLockManager P → FileLockManager P
  release_all_locks owner s = release_paths owner (paths_of owner s.locks) s

  unfoldable pub upgrade_found :
      P → FileLock → List FileLock → FileLockManager P → LockResult (Unit {0}) × FileLockManager P
  upgrade_found path l file_locks s =
      if is_exclusive l.lock_type then (err not_shared, s) else elim (in_the_way l file_locks) [
        | o ∷ others ↦ (err other_locks_exist, s)
        | [] ↦ (ok tt, write_locks dec path (set_type l.lock_id exclusive file_locks) s)
      ]

  unfoldable pub upgrade_lock :
      P → ℕ → FileLockManager P → LockResult (Unit {0}) × FileLockManager P
  upgrade_lock path lock_id s = elim (lookup dec path s.locks) [
    | none ↦ (err no_locks_found, s)
    | some file_locks ↦ elim (find_lock lock_id file_locks) [
      | none ↦ (err (lock_not_found lock_id), s)
      | some l ↦ upgrade_found path l file_locks s
    ]
  ]

  unfoldable pub downgrade_lock :
      P → ℕ → FileLockManager P → LockResult (Unit {0}) × FileLockManager P
  downgrade_lock path lock_id s = elim (lookup dec path s.locks) [
    | none ↦ (err no_locks_found, s)
    | some file_locks ↦ elim (find_lock lock_id file_locks) [
      | none ↦ (err (lock_not_found lock_id), s)
      | some l ↦
          if is_exclusive l.lock_type
          then (
            ok tt,
            process_wait_queue dec path
                (write_locks dec path (set_type lock_id shared file_locks) s),
          )
          else (err not_exclusive, s)
    ]
  ]
