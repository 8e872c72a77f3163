-- ===== src/Locks/Manager/Exclusive/Granting.antt =====
-- Locks of shadowfs-macos, fskit/file_locking.rs, as `try_acquire_lock` grants them.
use shadowfs.Base.{
  ℕ, ◌+◌, ◌%◌, ◌^◌, ◌<◌, ◌≡◌, refl, subst, ◌∙◌, List, [], ◌∷◌, ◌++◌, true, false, All, All-append,
  arith, Bool-cases, Option-cases, inl, inr, Option, some, none, lookup, lookup-put, lookup-without,
  ite, unwrap_or,
}
use shadowfs.Locks.{FileLock, LockType, ByteRange}
use shadowfs.Locks.Manager.{
  FileLockManager, get_locks, can_acquire_lock, generate_lock_id, write_locks, grant_lock,
  write_queue, process_wait_queue, try_acquire_lock,
}
use shadowfs.Locks.Manager.Exclusive.{
  Apart, Pairwise, Pairwise-append, all_compatible-Fits, All-Apart,
}

-- Different numbers, none of them one that the counter will give, and locks that fit each other.
abbrev pub IsApart : ℕ → List FileLock → Type 0
IsApart counter l = Pairwise Apart l × All (λ a. a.lock_id < counter) l

module _ {P : Type 0} (dec : Discrete P) where
  abbrev pub IsSafe : FileLockManager P → Type 0
  IsSafe s = (path : P) → IsApart s.counter (get_locks dec path s)

  pub get_locks-write_locks :
      (p q : P) (l : List FileLock) (s : FileLockManager P)
      → get_locks dec q (write_locks dec p l s) ≡ ite (dec q p) l (get_locks dec q s)
  unfolding get_locks write_locks
  get_locks-write_locks p q [] s = ground (arith, lookup-without dec p q s.locks)
  get_locks-write_locks p q (a ∷ l) s = ground (arith, lookup-put dec p q (a ∷ l) s.locks)

  pub counter-write_locks :
      (p : P) (l : List FileLock) (s : FileLockManager P)
      → (write_locks dec p l s).counter ≡ s.counter
  unfolding write_locks
  counter-write_locks p [] s = refl
  counter-write_locks p (a ∷ l) s = refl

  -- The queue tells the waiters, and leaves the locks.
  pub process_wait_queue-locks :
      (p : P) (s : FileLockManager P)
      → ((process_wait_queue dec p s).locks ≡ s.locks)
        × ((process_wait_queue dec p s).counter ≡ s.counter)
  unfolding process_wait_queue write_queue
  process_wait_queue-locks p s = elim (Option-cases (lookup dec p s.wait_queues)) [
    | inl e ↦ (ground (arith, e), ground (arith, e))
    | inr (queue, e) ↦ (ground (arith, e), ground (arith, e))
  ]

  ite-IsApart :
      (n : ℕ) (p q : P) (d : Dec (q ≡ p)) (l m : List FileLock)
      → IsApart n l
      → IsApart n m
      → IsApart n (ite d l m)
  ite-IsApart n p q (yes e) l m h k = h
  ite-IsApart n p q (no e) l m h k = k

  -- The locks and the counter are all that matters.
  pub same-IsSafe :
      (s t : FileLockManager P) → t.locks ≡ s.locks → t.counter ≡ s.counter → IsSafe s → IsSafe t
  unfolding get_locks
  same-IsSafe s t e f h path = rw (e, f) (h path)

  pub process_wait_queue-IsSafe :
      (p : P) (s t : FileLockManager P)
      → t.locks ≡ s.locks
      → t.counter ≡ s.counter
      → IsSafe s
      → IsSafe (process_wait_queue dec p t)
  process_wait_queue-IsSafe p s t e f h =
      let (e', f') = process_wait_queue-locks p t in
      same-IsSafe s (process_wait_queue dec p t) (e' ∙ e) (f' ∙ f) h

  pub write_locks-IsSafe :
      (p : P) (l : List FileLock) (s : FileLockManager P)
      → IsApart s.counter l
      → IsSafe s
      → IsSafe (write_locks dec p l s)
  write_locks-IsSafe p l s h k q =
      rw (get_locks-write_locks p q l s, counter-write_locks p l s)
        (ite-IsApart s.counter p q (dec q p) l (get_locks dec q s) h (k q))

  grow-IsApart :
      (n : ℕ) (l : List FileLock) → All (λ a. a.lock_id < n) l → All (λ a. a.lock_id < n + 1) l
  grow-IsApart n [] h = tt
  grow-IsApart n (a ∷ l) h = (omega arith, grow-IsApart n l h.1)

  pub found-IsApart :
      (p : P) (l : List FileLock) (s : FileLockManager P)
      → IsSafe s
      → lookup dec p s.locks ≡ some l
      → IsApart s.counter l
  unfolding get_locks
  found-IsApart p l s h e = subst (λ o. IsApart s.counter (unwrap_or o [])) e (h p)

  module _ (now : ℕ) (p : P) (owner : ℕ) (t : LockType) (range : Option ByteRange)
      (s : FileLockManager P) where
    abbrev advanced : FileLockManager P
    advanced = record s { counter = (s.counter + 1) % 2 ^ 64 }

    try_acquire_lock_refused :
        can_acquire_lock dec p owner t range s ≡ false
        → try_acquire_lock dec now p owner t range s ≡ (none, s)
    unfolding try_acquire_lock
    try_acquire_lock_refused e = rw e refl

    try_acquire_lock_granted :
        can_acquire_lock dec p owner t range s ≡ true
        → try_acquire_lock dec now p owner t range s
          ≡ (some s.counter, grant_lock dec now p owner t range s.counter advanced)
    unfolding try_acquire_lock generate_lock_id
    try_acquire_lock_granted e = rw e refl

    abbrev given : FileLock
    given = record {
      lock_type = t;
      owner = owner;
      range = range;
      acquired_at = now;
      lock_id = s.counter;
    }

    given-IsApart :
        s.counter + 1 < 2 ^ 64
        → IsApart s.counter (get_locks dec p s)
        → can_acquire_lock dec p owner t range s ≡ true
        → IsApart (s.counter + 1) (get_locks dec p s ++ given ∷ [])
    unfolding can_acquire_lock
    given-IsApart h k e = (
      Pairwise-append Apart (get_locks dec p s) given k.0 (
          All-Apart given s.counter (get_locks dec p s) refl k.1
            (all_compatible-Fits given (get_locks dec p s) e)),
      All-append (λ a. a.lock_id < s.counter + 1) (get_locks dec p s) (given ∷ [])
          (grow-IsApart s.counter (get_locks dec p s) k.1) (omega arith, tt),
    )

    get_locks-grant_lock :
        (q : P)
        → get_locks dec q (grant_lock dec now p owner t range s.counter advanced)
          ≡ ite (dec q p) (get_locks dec p s ++ given ∷ []) (get_locks dec q s)
    unfolding get_locks grant_lock
    get_locks-grant_lock q =
        ground (arith, lookup-put dec p q (get_locks dec p s ++ given ∷ []) s.locks)

    counter-grant_lock :
        s.counter + 1 < 2 ^ 64
        → (grant_lock dec now p owner t range s.counter advanced).counter ≡ s.counter + 1
    unfolding grant_lock
    counter-grant_lock h = omega arith

    grant_lock-IsSafe :
        s.counter + 1 < 2 ^ 64
        → IsSafe s
        → can_acquire_lock dec p owner t range s ≡ true
        → IsSafe (grant_lock dec now p owner t range s.counter advanced)
    grant_lock-IsSafe h k e q =
        rw (get_locks-grant_lock q, counter-grant_lock h)
          (ite-IsApart (s.counter + 1) p q (dec q p) _ (get_locks dec q s) (given-IsApart h (k p) e)
            ((k q).0, grow-IsApart s.counter (get_locks dec q s) (k q).1))

  pub try_acquire_lock-IsSafe :
      (now : ℕ) (p : P) (owner : ℕ) (t : LockType) (range : Option ByteRange)
      (s : FileLockManager P)
      → s.counter + 1 < 2 ^ 64
      → IsSafe s
      → IsSafe (try_acquire_lock dec now p owner t range s).1
  try_acquire_lock-IsSafe now p owner t range s h k =
      elim (Bool-cases (can_acquire_lock dec p owner t range s)) [
        | inr e ↦ rw (try_acquire_lock_refused now p owner t range s e) k
        | inl e ↦
            rw (try_acquire_lock_granted now p owner t range s e)
              (grant_lock-IsSafe now p owner t range s h k e)
      ]
