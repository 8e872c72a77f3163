-- ===== src/Tests/Locks.antt =====
-- The lock manager at concrete locks, with numbers as the paths of files.
use shadowfs.Base.{
  ℕ, Bool, ◌^◌, ◌-◌, ◌≡◌, ◌↔◌, refl, List, [], ◌∷◌, Option, some, none, true, false, arith,
  ℕ_discrete, lookup, put, if◌then◌else◌,
}
use shadowfs.Locks.{
  ByteRange, end, overlaps, shared, exclusive, FileLock, LockRequest, locks_compatible, ok,
  both_shared, ranges_overlap,
}
use shadowfs.Locks.Bytes.{Covers, overlaps-Covers}
use shadowfs.Locks.Graph.{member, LockGraph, has_deadlock, searched}
use shadowfs.Locks.Graph.Cycles.{CycleFrom}
use shadowfs.Locks.Graph.Misses.{has_deadlock-CycleFrom}
use shadowfs.Locks.Manager
use shadowfs.Locks.Held.{all_compatible, is_exclusive, in_the_way, find_lock}
use shadowfs.Locks.Manager.{
  FileLockManager, Acquire, answered, waits, get_locks, request_lock, resume_lock, release_lock,
  can_acquire_lock, try_acquire_lock, generate_lock_id, grant_lock, upgrade_lock, upgrade_found,
  find_condition,
}
use shadowfs.Locks.Manager.Exclusive.Calls.{LockCall, tries, upgrades, run, step}
use shadowfs.Locks.Manager.Exclusive.Sharing.{run-both_shared}
use shadowfs.Locks.Manager.Waiting.{release-resume}
use shadowfs.Locks.Manager.Waiting.Moves.{Move, calls, requests, run_moves, request_lock-run_moves}

abbrev front : ByteRange
front = record { start = 0; length = 100 }

-- A range that touches `front`, as in `test_byte_range_overlap`.
abbrev behind : ByteRange
behind = record { start = 100; length = 50 }

touching : overlaps front behind ≡ false
unfolding overlaps end
touching = refl

overlaps-Covers_example :
    (overlaps front behind ≡ true) ↔ ((x : ℕ) × Covers front x × Covers behind x)
overlaps-Covers_example =
    overlaps-Covers front behind (omega arith, omega arith) (omega arith, omega arith)

-- From the second byte to the end of any file.
abbrev to_the_end : ByteRange
to_the_end = record { start = 1; length = 2 ^ 64 - 1 }

-- Two readers of a file, who hold its first byte both.
abbrev readers : List (LockCall ℕ_discrete)
readers = tries 5 7 1 shared none ∷ tries 6 7 2 shared (some front) ∷ upgrades 7 1 ∷ []

abbrev reader : ℕ → ℕ → Option ByteRange → ℕ → FileLock
reader now owner range id = record {
  lock_type = shared;
  owner = owner;
  range = range;
  acquired_at = now;
  lock_id = id;
}

readers_held :
    get_locks ℕ_discrete 7 (run ℕ_discrete readers (Manager.new ℕ_discrete))
    ≡ reader 5 1 none 1 ∷ reader 6 2 (some front) 2 ∷ []
unfolding run step try_acquire_lock can_acquire_lock all_compatible generate_lock_id grant_lock
    get_locks upgrade_lock upgrade_found is_exclusive in_the_way find_lock ranges_overlap overlaps
    both_shared locks_compatible lookup put ℕ_discrete
readers_held = refl

run-both_shared_example : both_shared shared shared ≡ true
run-both_shared_example =
    run-both_shared ℕ_discrete readers 7 0 1 (reader 5 1 none 1) (reader 6 2 (some front) 2) 0
      (omega arith) (rw readers_held refl) (rw readers_held refl) (λ e. omega arith) tt
      ((omega arith, omega arith), (omega arith, omega arith))

abbrev moves : List (Move ℕ_discrete)
moves = calls (tries 5 7 1 exclusive none) ∷ requests 6 7 2 exclusive none none ∷ []

request_lock-run_moves_example :
    (request_lock ℕ_discrete 8 7 3 exclusive none
      (some 20)
      (run_moves ℕ_discrete moves (Manager.new ℕ_discrete))).0
    ≡ (if can_acquire_lock ℕ_discrete 7 3 exclusive none
          (run_moves ℕ_discrete moves (Manager.new ℕ_discrete))
        then answered (ok (run_moves ℕ_discrete moves (Manager.new ℕ_discrete)).counter)
        else waits (run_moves ℕ_discrete moves (Manager.new ℕ_discrete)).counter)
request_lock-run_moves_example =
    request_lock-run_moves ℕ_discrete moves 8 7 3 exclusive none (some 20)

abbrev writer : ℕ → ℕ → ℕ → FileLock
writer now owner id = record {
  lock_type = exclusive;
  owner = owner;
  range = none;
  acquired_at = now;
  lock_id = id;
}

abbrev waiter : ℕ → LockRequest
waiter w = record {
  requester = w;
  lock_type = exclusive;
  range = none;
  requested_at = 6;
  timeout = none;
}

-- One writer holds the file, and two wait for it.
abbrev contended : FileLockManager ℕ
contended = record (Manager.new ℕ_discrete) {
  locks = (7, writer 5 1 1 ∷ []) ∷ [];
  wait_queues = (7, waiter 2 ∷ waiter 3 ∷ []) ∷ [];
  wait_conditions = (2, 0) ∷ (3, 1) ∷ [];
  flags = (0, false) ∷ (1, false) ∷ [];
  conditions_made = 2;
  counter = 4;
}

release-resume_example :
    get_locks ℕ_discrete 7
      (resume_lock ℕ_discrete 9 7 3 exclusive none 3
        (ok 1)
        (resume_lock ℕ_discrete 9 7 2 exclusive none 2
          (ok 0)
          (release_lock ℕ_discrete 7 1 contended).1).1).1
    ≡ writer 9 2 2 ∷ writer 9 3 3 ∷ []
unfolding lookup member find_condition ℕ_discrete
release-resume_example =
    release-resume ℕ_discrete 7 (writer 5 1 1) (waiter 2 ∷ waiter 3 ∷ []) contended 9 2 3 exclusive
      exclusive none none 2 3 0 1 (omega arith) refl refl refl refl refl refl

-- Two handles that wait for each other.
abbrev knot : LockGraph ℕ
knot = record { ownership = []; waiting = []; dependencies = (1, 2 ∷ []) ∷ (2, 1 ∷ []) ∷ [] }

has_deadlock-CycleFrom_example :
    (b : Bool) × (v : List ℕ) × (s : List ℕ) × (has_deadlock ℕ_discrete 1 knot ≡ searched b v s)
    × ((b ≡ true) ↔ CycleFrom knot.dependencies 1)
has_deadlock-CycleFrom_example = has_deadlock-CycleFrom ℕ_discrete 1 knot
