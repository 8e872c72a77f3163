-- ===== src/Locks/State.antt =====
-- The state of `FileLockManager` of shadowfs-macos, fskit/file_locking.rs, and the locks of one file. A
-- `HashMap` is a list with one entry for a key.
use shadowfs.Base.{
  ℕ, ◌+◌, ◌%◌, ◌^◌, List, [], ◌∷◌, ◌++◌, Option, Bool, unwrap_or, lookup, put, without,
}
use shadowfs.Locks.{ByteRange, LockType, FileLock, LockRequest}
use shadowfs.Locks.Held.{all_compatible, any_locked}
use shadowfs.Locks.Graph
use shadowfs.Locks.Graph.{
  LockGraph, Search, searched, add_ownership, remove_ownership, add_wait, remove_wait, has_deadlock,
  member,
}

pub record FileLockManager (P : Type 0) : Type 0 where
  pub locks : List (P × List FileLock)
  pub wait_queues : List (P × List LockRequest)
  pub ownership_graph : LockGraph P
  -- The condition that is registered for each waiter.
  pub wait_conditions : List (ℕ × ℕ)
  -- What each condition says, and how many were made.
  pub flags : List (ℕ × Bool)
  pub conditions_made : ℕ
  -- The counter that `generate_lock_id` keeps.
  pub counter : ℕ

module _ {P : Type 0} (dec : Discrete P) where
  abbrev pub new : FileLockManager P
  new = record {
    locks = [];
    wait_queues = [];
    ownership_graph = Graph.new dec;
    wait_conditions = [];
    flags = [];
    conditions_made = 0;
    counter = 1;
  }

  unfoldable pub get_locks : P → FileLockManager P → List FileLock
  get_locks path s = unwrap_or (lookup dec path s.locks) []

  unfoldable pub is_range_locked : P → ByteRange → Bool → FileLockManager P → Bool
  is_range_locked path range for_write s = any_locked range for_write (get_locks path s)

  unfoldable pub can_acquire_lock : P → ℕ → LockType → Option ByteRange → FileLockManager P → Bool
  can_acquire_lock path owner t range s = all_compatible owner t range (get_locks path s)

  unfoldable pub generate_lock_id : FileLockManager P → ℕ × FileLockManager P
  generate_lock_id s = (s.counter, record s { counter = (s.counter + 1) % 2 ^ 64 })

  -- The locks of a file, which has no entry where it has none.
  unfoldable pub write_locks : P → List FileLock → FileLockManager P → FileLockManager P
  write_locks path [] s = record s { locks = without dec path s.locks }
  write_locks path (l ∷ rest) s = record s { locks = put dec path (l ∷ rest) s.locks }

  unfoldable pub grant_lock :
      ℕ → P → ℕ → LockType → Option ByteRange → ℕ → FileLockManager P → FileLockManager P
  grant_lock now path owner t range id s =
      let l : FileLock = record {
        lock_type = t;
        owner = owner;
        range = range;
        acquired_at = now;
        lock_id = id;
      } in
      record s {
        locks = put dec path (get_locks path s ++ l ∷ []) s.locks;
        ownership_graph = remove_wait dec owner (add_ownership dec owner path s.ownership_graph);
      }
