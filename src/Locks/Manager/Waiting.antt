-- ===== src/Locks/Manager/Waiting.antt =====
-- The waits of shadowfs-macos, fskit/file_locking.rs: who is told when a lock is released.
pub mod Deadlock
pub mod Moves
pub mod Replaced
use shadowfs.Base.{
  ℕ, ◌≡◌, ◌≢◌, refl, sym, ap, ◌∙◌, List, [], ◌∷◌, ◌++◌, map, Option, some, none, Bool, true, false,
  not, ◌==◌, filter, arith, ◌⊎◌, inl, inr, Option-cases, lookup, put, without, lookup-put,
  lookup-without, ℕ_discrete, if◌then◌else◌, unwrap_or, ite,
}
use shadowfs.Locks.{ByteRange, LockType, FileLock, LockRequest, LockResult, ok}
use shadowfs.Locks.Graph.{member, remove_ownership}
use shadowfs.Locks.Manager.Exclusive.Granting.{process_wait_queue-locks}
use shadowfs.Locks.Held.{all_compatible, find_lock, remove_lock}
use shadowfs.Locks.Manager.{
  FileLockManager, get_locks, can_acquire_lock, signal, grantable, write_queue, write_locks,
  process_wait_queue, release_lock, find_condition, is_granted, wait_for_lock, resume_lock,
  grant_lock,
}

abbrev pub requesters : List LockRequest → List ℕ
requesters queue = map (λ r. r.requester) queue

lookup-cases :
    (x : ℕ) (l : List (ℕ × ℕ))
    → (lookup ℕ_discrete x l ≡ none) ⊎ ((k : ℕ) × (lookup ℕ_discrete x l ≡ some k))
lookup-cases x l = Option-cases (lookup ℕ_discrete x l)

signal_kept :
    (c : ℕ) (l : List ℕ) (conditions : List (ℕ × ℕ)) (flags : List (ℕ × Bool))
    → lookup ℕ_discrete c flags ≡ some true
    → lookup ℕ_discrete c (signal l conditions flags) ≡ some true
unfolding signal
signal_kept c [] conditions flags h = h
signal_kept c (x ∷ l) conditions flags h = elim (lookup-cases x conditions) [
  | inl e ↦ rw (signal, e) (signal_kept c l conditions flags h)
  | inr (k, e) ↦
      rw (signal, e)
        (signal_kept c l conditions (put ℕ_discrete k true flags)
          (ground (arith, lookup-put ℕ_discrete k c true flags)))
]

-- A waiter is told through the condition that is registered for it.
lookup-signal :
    (w c : ℕ) (l : List ℕ) (conditions : List (ℕ × ℕ)) (flags : List (ℕ × Bool))
    → member w l ≡ true
    → lookup ℕ_discrete w conditions ≡ some c
    → lookup ℕ_discrete c (signal l conditions flags) ≡ some true
unfolding signal member
lookup-signal w c [] conditions flags m h = absurd (ground arith)
lookup-signal w c (x ∷ l) conditions flags m h = elim (ℕ_discrete x w) [
  | yes e ↦
      let found : lookup ℕ_discrete x conditions ≡ some c = rw e h in
      rw (signal, found)
        (signal_kept c l conditions (put ℕ_discrete c true flags)
          (ground (arith, lookup-put ℕ_discrete c c true flags)))
  | no e ↦
      let later : member w l ≡ true = ground arith in
      elim (lookup-cases x conditions) [
        | inl f ↦ rw (signal, f) (lookup-signal w c l conditions flags later h)
        | inr (k, f) ↦
            rw (signal, f) (lookup-signal w c l conditions (put ℕ_discrete k true flags) later h)
      ]
]

-- A condition that is registered for nobody says what it said.
pub lookup-signal_other :
    (c : ℕ) (l : List ℕ) (conditions : List (ℕ × ℕ)) (flags : List (ℕ × Bool))
    → ((w : ℕ) → lookup ℕ_discrete w conditions ≢ some c)
    → lookup ℕ_discrete c (signal l conditions flags) ≡ lookup ℕ_discrete c flags
unfolding signal
lookup-signal_other c [] conditions flags h = refl
lookup-signal_other c (x ∷ l) conditions flags h = elim (lookup-cases x conditions) [
  | inl e ↦ rw (signal, e) (lookup-signal_other c l conditions flags h)
  | inr (k, e) ↦
      let other : c ≢ k = λ f. h x (rw f e) in
      rw (signal, e)
        (lookup-signal_other c l conditions (put ℕ_discrete k true flags) h
          ∙ ground (arith, lookup-put ℕ_discrete k c true flags))
]

abbrev lock : ℕ → ℕ → LockType → Option ByteRange → ℕ → FileLock
lock now owner t range id = record {
  lock_type = t;
  owner = owner;
  range = range;
  acquired_at = now;
  lock_id = id;
}

found_itself : (l : FileLock) → find_lock l.lock_id (l ∷ []) ≡ some l
unfolding find_lock
found_itself l = ground arith

removed_itself : (l : FileLock) → remove_lock l.lock_id (l ∷ []) ≡ []
unfolding remove_lock
removed_itself l = ground arith

module _ {P : Type 0} (dec : Discrete P) where
  flags-write_queue :
      (path : P) (queue : List LockRequest) (s : FileLockManager P)
      → (write_queue dec path queue s).flags ≡ s.flags
  unfolding write_queue
  flags-write_queue path [] s = refl
  flags-write_queue path (r ∷ queue) s = refl

  -- Where no lock is held, any lock can be acquired.
  filter_free :
      (path : P) (queue : List LockRequest) (s : FileLockManager P)
      → get_locks dec path s ≡ []
      → grantable dec path queue s ≡ requesters queue
  unfolding grantable can_acquire_lock all_compatible
  filter_free path [] s h = refl
  filter_free path (r ∷ queue) s h = ground (arith, filter_free path queue s h)

  pub find_condition-some :
      (w c : ℕ) (s : FileLockManager P)
      → find_condition dec w s ≡ ok c
      → lookup ℕ_discrete w s.wait_conditions ≡ some c
  unfolding find_condition
  find_condition-some w c s h = ground arith

  module _ (path : P) (l : FileLock) (queue : List LockRequest) (s : FileLockManager P) where
    abbrev pub released : FileLockManager P
    released = (release_lock dec path l.lock_id s).1

    abbrev emptied : FileLockManager P
    emptied = record s {
      locks = without dec path s.locks;
      ownership_graph = remove_ownership dec l.owner path s.ownership_graph;
    }

    release_lock_last :
        lookup dec path s.locks ≡ some (l ∷ [])
        → release_lock dec path l.lock_id s ≡ (ok tt, process_wait_queue dec path emptied)
    unfolding release_lock write_locks
    release_lock_last h = rw (release_lock, h, found_itself l, removed_itself l) refl

    release_last :
        lookup dec path s.locks ≡ some (l ∷ []) → released ≡ process_wait_queue dec path emptied
    release_last h = ap (λ r. r.1) (release_lock_last h)

    pub released_free : lookup dec path s.locks ≡ some (l ∷ []) → get_locks dec path released ≡ []
    unfolding get_locks
    released_free h = ground (
      arith,
      release_last h,
      process_wait_queue-locks dec path emptied,
      lookup-without dec path path s.locks,
    )

    emptied_free : get_locks dec path emptied ≡ []
    unfolding get_locks
    emptied_free = ground (arith, lookup-without dec path path s.locks)

    pub wait_for_lock-release_lock :
        (w c : ℕ)
        → lookup dec path s.locks ≡ some (l ∷ [])
        → lookup dec path s.wait_queues ≡ some queue
        → member w (requesters queue) ≡ true
        → find_condition dec w s ≡ ok c
        → wait_for_lock dec (ok c) released ≡ ok true
    unfolding process_wait_queue wait_for_lock is_granted
    wait_for_lock-release_lock w c h k m f =
        let told : lookup ℕ_discrete c (signal (requesters queue) s.wait_conditions s.flags)
            ≡ some true =
          lookup-signal w c (requesters queue) s.wait_conditions s.flags m
            (find_condition-some w c s f) in
        rw
          (
            release_last h,
            process_wait_queue,
            k,
            filter_free path queue emptied emptied_free,
            wait_for_lock,
            is_granted,
            flags-write_queue path _ _,
            told,
          )
          refl

  module _ (now : ℕ) (path : P) (w : ℕ) (t : LockType) (range : Option ByteRange) (id : ℕ)
      (s : FileLockManager P) where
    resume_told :
        (c : ℕ)
        → wait_for_lock dec (ok c) s ≡ ok true
        → resume_lock dec now path w t range id (ok c) s
          ≡ (ok id, grant_lock dec now path w t range id s)
    unfolding resume_lock
    resume_told c h = rw (resume_lock, h) refl

    wait_for_lock-granted :
        (c : ℕ)
        → wait_for_lock dec (ok c) (grant_lock dec now path w t range id s)
          ≡ wait_for_lock dec (ok c) s
    unfolding wait_for_lock is_granted grant_lock
    wait_for_lock-granted c = refl

    get_locks-granted :
        get_locks dec path (grant_lock dec now path w t range id s)
        ≡ get_locks dec path s ++ lock now w t range id ∷ []
    unfolding get_locks grant_lock
    get_locks-granted = ground (
      arith,
      lookup-put dec path path (get_locks dec path s ++ lock now w t range id ∷ []) s.locks,
    )

  -- Where one lock is held on a file, two requests of different owners are in the file's queue, and
  -- each waits on the condition that is registered for its owner: after `release_lock` and the end
  -- of both waits, both hold the lock that they asked for, whatever its type and range.
  pub release-resume :
      (path : P) (l : FileLock) (queue : List LockRequest) (s : FileLockManager P) (now a b : ℕ)
      (t u : LockType) (p q : Option ByteRange) (m n c d : ℕ)
      → a ≢ b
      → lookup dec path s.locks ≡ some (l ∷ [])
      → lookup dec path s.wait_queues ≡ some queue
      → member a (requesters queue) ≡ true
      → member b (requesters queue) ≡ true
      → find_condition dec a s ≡ ok c
      → find_condition dec b s ≡ ok d
      → get_locks dec path
          (resume_lock dec now path b u q n
            (ok d)
            (resume_lock dec now path a t p m (ok c) (release_lock dec path l.lock_id s).1).1).1
        ≡ lock now a t p m ∷ lock now b u q n ∷ []
  release-resume path l queue s now a b t u p q m n c d ne h k e e' f f' =
      let r = released path l queue s in
      let told = wait_for_lock-release_lock path l queue s a c h k e f in
      let told' = wait_for_lock-release_lock path l queue s b d h k e' f' in
      rw
        (
          resume_told now path a t p m r c told,
          resume_told now path b u q n (grant_lock dec now path a t p m r) d
              (wait_for_lock-granted now path a t p m r d ∙ told'),
          get_locks-granted now path b u q n (grant_lock dec now path a t p m r),
          get_locks-granted now path a t p m r,
          released_free path l queue s h,
        )
        refl
