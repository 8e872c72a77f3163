-- ===== src/Memory/Alone.antt =====
-- `try_allocate` where no other thread runs, and the guard's release.
use shadowfs.Base.{ℕ, zero, suc, ◌+◌, ◌%◌, ◌≤◌, ◌<◌, ◌≡◌, refl, arith, ltb, if◌then◌else◌}
use shadowfs.Memory.{
  MemoryTracker, usize_mod, usize_max, granted, store_full, try_allocate, release, available_space,
}

-- However often the weak exchange fails, the loop ends with what it would have found at once.
try_allocate-zero :
    (misses size : ℕ) (t : MemoryTracker) → try_allocate misses size t ≡ try_allocate 0 size t
unfolding try_allocate
try_allocate-zero zero size t = refl
try_allocate-zero (suc k) size t = ground (arith, try_allocate-zero k size t)

-- Where the usage is within a limit below the largest `usize` and no other thread writes, for any
-- number of spurious failures of the exchange: the loop ends, with the guard, the usage raised by
-- the size and one allocation counted where the size is free, and with the error that names the
-- usage and the limit otherwise.
pub try_allocate_lem :
    (misses size : ℕ) (t : MemoryTracker)
    → t.current_usage ≤ t.max_allowed
    → t.max_allowed < usize_max
    → try_allocate misses size t ≡ (
        if ltb (available_space t) size
        then store_full t.current_usage t.max_allowed
        else granted (record t {
          current_usage = t.current_usage + size;
          allocation_count = (t.allocation_count + 1) % usize_mod;
        }))
unfolding available_space
try_allocate_lem misses size t h k =
    rw (try_allocate-zero misses size t) (unfold try_allocate in ground arith)

-- Where the usage is within a limit below the largest `usize` and an allocation is granted:
-- dropping its guard brings the usage and the free space back to what they were.
pub release-try_allocate :
    (misses size : ℕ) (t u : MemoryTracker)
    → t.current_usage ≤ t.max_allowed
    → t.max_allowed < usize_max
    → try_allocate misses size t ≡ granted u
    → ((release size u).current_usage ≡ t.current_usage)
      × (available_space (release size u) ≡ available_space t)
unfolding release available_space
release-try_allocate misses size t u h k e = ground (arith, try_allocate_lem misses size t h k)
