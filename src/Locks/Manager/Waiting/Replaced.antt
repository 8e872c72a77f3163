-- ===== src/Locks/Manager/Waiting/Replaced.antt =====
-- A second wait of one owner, in shadowfs-macos, fskit/file_locking.rs: `add_to_wait_queue` registers a new
-- condition for the owner, and the first wait keeps the old one.
use shadowfs.Base.{
  Option-cases, inl, inr, ℕ, ◌+◌, ◌<◌, ◌≡◌, ◌≢◌, refl, ◌∙◌, List, some, false, arith, lookup, put,
  lookup-put, ℕ_discrete,
}
use shadowfs.Locks.{LockRequest, FileLock, ok}
use shadowfs.Locks.Graph.{remove_ownership}
use shadowfs.Locks.Held.{find_lock, remove_lock}
use shadowfs.Locks.Manager.{
  FileLockManager, grantable, write_locks, add_to_wait_queue, process_wait_queue, release_lock,
  find_condition, is_granted, wait_for_lock,
}
use shadowfs.Locks.Manager.Waiting.{lookup-signal_other, flags-write_queue}

module _ {P : Type 0} (dec : Discrete P) where
  -- The registered conditions were made.
  abbrev pub IsFresh : FileLockManager P → Type 0
  IsFresh s = (w c : ℕ) → lookup ℕ_discrete w s.wait_conditions ≡ some c → c < s.conditions_made

  abbrev IsUnregistered : ℕ → FileLockManager P → Type 0
  IsUnregistered c s = (w : ℕ) → lookup ℕ_discrete w s.wait_conditions ≢ some c

  process_wait_queue_unregistered :
      (path : P) (c : ℕ) (s : FileLockManager P)
      → IsUnregistered c s
      → is_granted dec c (process_wait_queue dec path s) ≡ is_granted dec c s
  unfolding process_wait_queue is_granted
  process_wait_queue_unregistered path c s h = elim (Option-cases (lookup dec path s.wait_queues)) [
    | inl e ↦ rw (process_wait_queue, e) refl
    | inr (queue, e) ↦
        rw
          (
            process_wait_queue,
            e,
            is_granted,
            flags-write_queue dec path _ _,
            lookup-signal_other c (grantable dec path queue s) s.wait_conditions s.flags h,
          )
          refl
  ]

  same-write_locks :
      (path : P) (l : List FileLock) (s : FileLockManager P)
      → ((write_locks dec path l s).wait_conditions ≡ s.wait_conditions)
        × ((write_locks dec path l s).flags ≡ s.flags)
  unfolding write_locks
  same-write_locks path l s = ground arith

  release_lock_unregistered :
      (path : P) (id c : ℕ) (s : FileLockManager P)
      → IsUnregistered c s
      → is_granted dec c (release_lock dec path id s).1 ≡ is_granted dec c s
  unfolding release_lock
  release_lock_unregistered path id c s h = elim (Option-cases (lookup dec path s.locks)) [
    | inl e ↦ rw (release_lock, e) refl
    | inr (file_locks, e) ↦ elim (Option-cases (find_lock id file_locks)) [
      | inl f ↦ rw (release_lock, e, f) refl
      | inr (l, f) ↦
          let written = write_locks dec path (remove_lock id file_locks) s in
          let (same, same') = same-write_locks path (remove_lock id file_locks) s in
          let s' : FileLockManager P = record written {
            ownership_graph = remove_ownership dec l.owner path written.ownership_graph;
          } in
          let told : is_granted dec c (process_wait_queue dec path s') ≡ is_granted dec c s' =
            process_wait_queue_unregistered path c s' (λ w g. h w (rw (← same) g)) in
          rw (release_lock, e, f) (told ∙ unfold is_granted in rw same' refl)
    ]
  ]

  -- Where the registered conditions were all made: after two requests of one owner are put into
  -- queues one after the other, the first has found its condition before the second came, and
  -- whatever lock is then released, that condition never says that the first is granted.
  pub wait_for_lock-replaced :
      (p q path : P) (r r' : LockRequest) (id : ℕ) (s : FileLockManager P)
      → r.requester ≡ r'.requester
      → IsFresh s
      → (c : ℕ) × (find_condition dec r.requester (add_to_wait_queue dec p r s) ≡ ok c)
        × (wait_for_lock dec
              (ok c)
              (release_lock dec path id
                (add_to_wait_queue dec q r' (add_to_wait_queue dec p r s))).1
            ≡ ok false)
  unfolding find_condition wait_for_lock is_granted add_to_wait_queue
  wait_for_lock-replaced p q path r r' id s e fresh =
      let c = s.conditions_made in
      let s' = add_to_wait_queue dec q r' (add_to_wait_queue dec p r s) in
      let unregistered : IsUnregistered c s' = λ w h. ground (
        arith,
        fresh w c,
        lookup-put ℕ_discrete r.requester w c s.wait_conditions,
        lookup-put ℕ_discrete r'.requester w (c + 1)
            (put ℕ_discrete r.requester c s.wait_conditions),
      ) in
      let kept = release_lock_unregistered path id c s' unregistered in
      (
        c,
        ground (arith, lookup-put ℕ_discrete r.requester r.requester c s.wait_conditions),
        rw (wait_for_lock, kept)
            (ground (
              arith,
              lookup-put ℕ_discrete c c false s.flags,
              lookup-put ℕ_discrete (c + 1) c false (put ℕ_discrete c false s.flags),
            )),
      )
