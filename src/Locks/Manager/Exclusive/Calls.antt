-- ===== src/Locks/Manager/Exclusive/Calls.antt =====
-- Sequences of the calls of shadowfs-macos, fskit/file_locking.rs that do not wait, and the locks that
-- they leave.
use shadowfs.Base.{
  ℕ, ◌+◌, ◌^◌, ◌<◌, ◌≤◌, ◌≡◌, refl, sym, subst, ◌∙◌, List, [], ◌∷◌, Bool, arith, Bool-cases,
  Option-cases, List-cases, inl, inr, Option, some, length, lookup, not, ◌==◌, filter,
}
use shadowfs.Locks.{FileLock, LockType, shared, exclusive, ByteRange}
use shadowfs.Locks.Manager
use shadowfs.Locks.Held.{find_lock, remove_lock, set_type, in_the_way, is_exclusive}
use shadowfs.Locks.Manager.{
  FileLockManager, get_locks, can_acquire_lock, generate_lock_id, write_locks, grant_lock,
  write_queue, process_wait_queue, try_acquire_lock, release_lock, release_locks_for_owner,
  release_paths, release_all_locks, upgrade_lock, upgrade_found, downgrade_lock, paths_of,
}
use shadowfs.Locks.Manager.Exclusive.{
  Apart, All-filter, All-remove_lock, Pairwise-filter, Pairwise-remove_lock,
}
use shadowfs.Locks.Manager.Exclusive.Retyped.{
  All-set_type-id, Pairwise-set_type-shared, Pairwise-set_type, in_the_way-IsClear,
  find_lock-lock_id,
}
use shadowfs.Locks.Manager.Exclusive.Granting.{
  counter-write_locks, process_wait_queue-locks, IsApart, IsSafe, process_wait_queue-IsSafe,
  write_locks-IsSafe, found-IsApart, try_acquire_lock-IsSafe,
}

module _ {P : Type 0} (dec : Discrete P) where
  release_lock-IsSafe :
      (p : P) (id : ℕ) (s : FileLockManager P)
      → IsSafe dec s
      → IsSafe dec (release_lock dec p id s).1
  unfolding release_lock
  release_lock-IsSafe p id s h = elim (Option-cases (lookup dec p s.locks)) [
    | inl e ↦ rw (e, release_lock) h
    | inr (l, e) ↦ elim (Option-cases (find_lock id l)) [
      | inl f ↦ rw (e, release_lock, f) h
      | inr (x, f) ↦
          let k = found-IsApart dec p l s h e in
          let s' = write_locks dec p (remove_lock id l) s in
          rw (e, release_lock, f)
            (process_wait_queue-IsSafe dec p s' _ refl refl (
              write_locks-IsSafe dec p (remove_lock id l) s
                (
                  Pairwise-remove_lock Apart id l k.0,
                  All-remove_lock (λ a. a.lock_id < s.counter) id l k.1,
                )
                h))
    ]
  ]

  filter-IsApart :
      (n : ℕ) (q : FileLock → Bool) (l : List FileLock) → IsApart n l → IsApart n (filter q l)
  filter-IsApart n q l h = (Pairwise-filter Apart q l h.0, All-filter (λ a. a.lock_id < n) q l h.1)

  release_locks_for_owner-IsSafe :
      (p : P) (owner : ℕ) (s : FileLockManager P)
      → IsSafe dec s
      → IsSafe dec (release_locks_for_owner dec p owner s)
  unfolding release_locks_for_owner
  release_locks_for_owner-IsSafe p owner s h =
      let l = filter (λ a. not (a.owner == owner)) (get_locks dec p s) in
      process_wait_queue-IsSafe dec p (write_locks dec p l s) _ refl refl
        (write_locks-IsSafe dec p l s (filter-IsApart s.counter _ (get_locks dec p s) (h p)) h)

  release_paths-IsSafe :
      (owner : ℕ) (l : List P) (s : FileLockManager P)
      → IsSafe dec s
      → IsSafe dec (release_paths dec owner l s)
  unfolding release_paths
  release_paths-IsSafe owner [] s h = h
  release_paths-IsSafe owner (p ∷ l) s h =
      release_paths-IsSafe owner l (release_locks_for_owner dec p owner s)
        (release_locks_for_owner-IsSafe p owner s h)

  upgrade_found-IsSafe :
      (p : P) (x : FileLock) (l : List FileLock) (s : FileLockManager P)
      → IsSafe dec s
      → IsApart s.counter l
      → find_lock x.lock_id l ≡ some x
      → IsSafe dec (upgrade_found dec p x l s).1
  unfolding upgrade_found
  upgrade_found-IsSafe p x l s h k e = elim (Bool-cases (is_exclusive x.lock_type)) [
    | inl f ↦ rw (f, upgrade_found) h
    | inr f ↦ elim (List-cases (in_the_way x l)) [
      | inl g ↦
          rw (f, upgrade_found, g)
            (write_locks-IsSafe dec p (set_type x.lock_id exclusive l) s
              (
                Pairwise-set_type x exclusive l e (in_the_way-IsClear x l g) k.0,
                All-set_type-id s.counter x.lock_id exclusive l k.1,
              )
              h)
      | inr (o, r, g) ↦ rw (f, upgrade_found, g) h
    ]
  ]

  upgrade_lock-IsSafe :
      (p : P) (id : ℕ) (s : FileLockManager P)
      → IsSafe dec s
      → IsSafe dec (upgrade_lock dec p id s).1
  unfolding upgrade_lock
  upgrade_lock-IsSafe p id s h = elim (Option-cases (lookup dec p s.locks)) [
    | inl e ↦ rw (e, upgrade_lock) h
    | inr (l, e) ↦ elim (Option-cases (find_lock id l)) [
      | inl f ↦ rw (e, upgrade_lock, f) h
      | inr (x, f) ↦
          rw (e, upgrade_lock, f)
            (upgrade_found-IsSafe p x l s h (found-IsApart dec p l s h e)
              (subst (λ n. find_lock n l ≡ some x) (sym (find_lock-lock_id id l x f)) f))
    ]
  ]

  downgrade_lock-IsSafe :
      (p : P) (id : ℕ) (s : FileLockManager P)
      → IsSafe dec s
      → IsSafe dec (downgrade_lock dec p id s).1
  unfolding downgrade_lock
  downgrade_lock-IsSafe p id s h = elim (Option-cases (lookup dec p s.locks)) [
    | inl e ↦ rw (e, downgrade_lock) h
    | inr (l, e) ↦ elim (Option-cases (find_lock id l)) [
      | inl f ↦ rw (e, downgrade_lock, f) h
      | inr (x, f) ↦ elim (Bool-cases (is_exclusive x.lock_type)) [
        | inr g ↦ rw (e, downgrade_lock, f, g) h
        | inl g ↦
            let k = found-IsApart dec p l s h e in
            let s' = write_locks dec p (set_type id shared l) s in
            rw (e, downgrade_lock, f, g)
              (process_wait_queue-IsSafe dec p s' s' refl refl (
                write_locks-IsSafe dec p (set_type id shared l) s
                  (Pairwise-set_type-shared id l k.0, All-set_type-id s.counter id shared l k.1) h))
      ]
    ]
  ]

  -- A call, with its arguments.
  pub data LockCall : Type 0 where
    tries : ℕ → P → ℕ → LockType → Option ByteRange → LockCall
    releases upgrades downgrades : P → ℕ → LockCall
    releases_all : ℕ → LockCall

  unfoldable pub step : LockCall → FileLockManager P → FileLockManager P
  step (tries now p owner t range) s = (try_acquire_lock dec now p owner t range s).1
  step (releases p id) s = (release_lock dec p id s).1
  step (upgrades p id) s = (upgrade_lock dec p id s).1
  step (downgrades p id) s = (downgrade_lock dec p id s).1
  step (releases_all owner) s = release_all_locks dec owner s

  unfoldable pub run : List LockCall → FileLockManager P → FileLockManager P
  run [] s = s
  run (c ∷ l) s = run l (step c s)

  step-IsSafe :
      (c : LockCall) (s : FileLockManager P)
      → s.counter + 1 < 2 ^ 64
      → IsSafe dec s
      → IsSafe dec (step c s)
  unfolding step release_all_locks
  step-IsSafe (tries now p owner t range) s h k =
      try_acquire_lock-IsSafe dec now p owner t range s h k
  step-IsSafe (releases p id) s h k = release_lock-IsSafe p id s k
  step-IsSafe (upgrades p id) s h k = upgrade_lock-IsSafe p id s k
  step-IsSafe (downgrades p id) s h k = downgrade_lock-IsSafe p id s k
  step-IsSafe (releases_all owner) s h k =
      release_paths-IsSafe owner (paths_of dec owner s.locks) s k

  counter-release_lock :
      (p : P) (id : ℕ) (s : FileLockManager P) → (release_lock dec p id s).1.counter ≡ s.counter
  unfolding release_lock
  counter-release_lock p id s = grind (arith, process_wait_queue-locks, counter-write_locks)

  counter-release_paths :
      (owner : ℕ) (l : List P) (s : FileLockManager P)
      → (release_paths dec owner l s).counter ≡ s.counter
  unfolding release_paths release_locks_for_owner
  counter-release_paths owner [] s = refl
  counter-release_paths owner (p ∷ l) s =
      counter-release_paths owner l (release_locks_for_owner dec p owner s)
      ∙ grind (arith, process_wait_queue-locks, counter-write_locks)

  counter-upgrade_lock :
      (p : P) (id : ℕ) (s : FileLockManager P) → (upgrade_lock dec p id s).1.counter ≡ s.counter
  unfolding upgrade_lock upgrade_found
  counter-upgrade_lock p id s = grind (arith, counter-write_locks)

  counter-downgrade_lock :
      (p : P) (id : ℕ) (s : FileLockManager P) → (downgrade_lock dec p id s).1.counter ≡ s.counter
  unfolding downgrade_lock
  counter-downgrade_lock p id s = grind (arith, process_wait_queue-locks, counter-write_locks)

  counter-step :
      (c : LockCall) (s : FileLockManager P)
      → s.counter + 1 < 2 ^ 64
      → (step c s).counter ≤ s.counter + 1
  unfolding step release_all_locks try_acquire_lock generate_lock_id grant_lock
  counter-step (tries now p owner t range) s h = ground arith
  counter-step (releases p id) s h = omega (arith, counter-release_lock p id s)
  counter-step (upgrades p id) s h = omega (arith, counter-upgrade_lock p id s)
  counter-step (downgrades p id) s h = omega (arith, counter-downgrade_lock p id s)
  counter-step (releases_all owner) s h =
      omega (arith, counter-release_paths owner (paths_of dec owner s.locks) s)

  pub run-IsSafe :
      (l : List LockCall) (s : FileLockManager P)
      → s.counter + length l < 2 ^ 64
      → IsSafe dec s
      → IsSafe dec (run l s)
  unfolding run
  run-IsSafe [] s h k = k
  run-IsSafe (c ∷ l) s h k =
      run-IsSafe l (step c s) (omega (arith, counter-step c s (omega arith)))
        (step-IsSafe c s (omega arith) k)

  pub new-IsSafe : IsSafe dec (Manager.new dec)
  unfolding get_locks lookup
  new-IsSafe path = (tt, tt)
