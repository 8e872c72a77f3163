-- ===== src/Locks/Queue.antt =====
-- The wait queues of shadowfs-macos, fskit/file_locking.rs: who waits, on which condition, and who is told.
-- The `Arc` of a condition is a number, and `flags` holds what the conditions say that were ever made. A
-- wait keeps the `Arc` that `find_condition` found.
use shadowfs.Base.{
  ℕ, ◌+◌, List, [], ◌∷◌, ◌++◌, map, none, some, Bool, true, false, not, ◌==◌, unwrap_or, filter,
  lookup, put, without, ℕ_discrete,
}
use shadowfs.Locks.{LockRequest, LockResult, ok, err, no_condition}
use shadowfs.Locks.Graph.{member}
use shadowfs.Locks.State.{FileLockManager, can_acquire_lock}

-- Each requester is told through the condition that is registered for it now.
unfoldable pub signal : List ℕ → List (ℕ × ℕ) → List (ℕ × Bool) → List (ℕ × Bool)
signal [] conditions flags = flags
signal (requester ∷ l) conditions flags = elim (lookup ℕ_discrete requester conditions) [
  | none ↦ signal l conditions flags
  | some condition ↦ signal l conditions (put ℕ_discrete condition true flags)
]

module _ {P : Type 0} (dec : Discrete P) where
  unfoldable pub write_queue : P → List LockRequest → FileLockManager P → FileLockManager P
  write_queue path [] s = record s { wait_queues = without dec path s.wait_queues }
  write_queue path (r ∷ rest) s = record s { wait_queues = put dec path (r ∷ rest) s.wait_queues }

  unfoldable pub add_to_wait_queue : P → LockRequest → FileLockManager P → FileLockManager P
  add_to_wait_queue path r s = record s {
    wait_queues =
        put dec path (unwrap_or (lookup dec path s.wait_queues) [] ++ r ∷ []) s.wait_queues;
    wait_conditions = put ℕ_discrete r.requester s.conditions_made s.wait_conditions;
    flags = put ℕ_discrete s.conditions_made false s.flags;
    conditions_made = s.conditions_made + 1;
  }

  abbrev drop_condition : ℕ → FileLockManager P → FileLockManager P
  drop_condition requester s = record s {
    wait_conditions = without ℕ_discrete requester s.wait_conditions;
  }

  unfoldable pub remove_from_wait_queue : P → ℕ → FileLockManager P → FileLockManager P
  remove_from_wait_queue path requester s = elim (lookup dec path s.wait_queues) [
    | none ↦ drop_condition requester s
    | some queue ↦
        drop_condition requester
          (write_queue path (filter (λ r. not (r.requester == requester)) queue) s)
  ]

  -- Who is granted: the requesters of the queue that could acquire their lock as the locks stand.
  unfoldable pub grantable : P → List LockRequest → FileLockManager P → List ℕ
  grantable path queue s =
      map (λ r. r.requester)
        (filter (λ r. can_acquire_lock dec path r.requester r.lock_type r.range s) queue)

  unfoldable pub process_wait_queue : P → FileLockManager P → FileLockManager P
  process_wait_queue path s = elim (lookup dec path s.wait_queues) [
    | none ↦ s
    | some queue ↦
        let granted = grantable path queue s in
        write_queue path (filter (λ r. not (member r.requester granted)) queue)
          (record s { flags = signal granted s.wait_conditions s.flags })
  ]

  -- The first half of `wait_for_lock`: the condition that is registered for the waiter.
  unfoldable pub find_condition : ℕ → FileLockManager P → LockResult ℕ
  find_condition waiter s = elim (lookup ℕ_discrete waiter s.wait_conditions) [
    | none ↦ err no_condition
    | some condition ↦ ok condition
  ]

  unfoldable pub is_granted : ℕ → FileLockManager P → Bool
  is_granted condition s = unwrap_or (lookup ℕ_discrete condition s.flags) false

  -- The second half: what the condition that was found says when the wait is over, by a signal, a
  -- timeout or neither.
  unfoldable pub wait_for_lock : LockResult ℕ → FileLockManager P → LockResult Bool
  wait_for_lock (err e) s = err e
  wait_for_lock (ok condition) s = ok (is_granted condition s)
