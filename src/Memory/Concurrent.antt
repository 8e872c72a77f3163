-- ===== src/Memory/Concurrent.antt =====
-- Any number of threads in `try_allocate` and any number of guards: memory.rs as interleavings of
-- its atomic steps.
use shadowfs.Base.{
  ℕ, ◌+◌, ◌-◌, ◌≤◌, ◌<◌, ◌≡◌, List, [], ◌∷◌, ◌++◌, Bool, arith, sum, sum-append, ite, ℕ_discrete,
}
use shadowfs.Memory.{
  MemoryTracker, usize_mod, usize_max, Round, full, stored, retry, round, release,
}
use shadowfs.Memory

-- What a thread does: nothing, or the loop, with the size and the usage that it last saw.
pub data Thread : Type 0 where
  idle : Thread
  trying : ℕ → ℕ → Thread

-- The tracker, the threads, and the sizes of the guards that are alive.
pub record System : Type 0 where
  pub tracker : MemoryTracker
  pub threads : ℕ → Thread
  pub guards : List ℕ

unfoldable pub start : ℕ → System
unfolding Memory.new
start max_allowed = record { tracker = Memory.new max_allowed; threads = λ _. idle; guards = [] }

abbrev become : ℕ → Thread → (ℕ → Thread) → ℕ → Thread
become i th threads j = ite (ℕ_discrete j i) th (threads j)

-- The initial load, the three outcomes of a round, and the drop of a guard.
pub data Step : System → System → Type 0 where
  load :
      (s : System) (i size : ℕ)
      → s.threads i ≡ idle
      → Step s (record s { threads = become i (trying size s.tracker.current_usage) s.threads })
  reject :
      (s : System) (i size current c m : ℕ) (spurious : Bool)
      → s.threads i ≡ trying size current
      → round spurious size current s.tracker ≡ full c m
      → Step s (record s { threads = become i idle s.threads })
  lose :
      (s : System) (i size current c : ℕ) (spurious : Bool)
      → s.threads i ≡ trying size current
      → round spurious size current s.tracker ≡ retry c
      → Step s (record s { threads = become i (trying size c) s.threads })
  grant :
      (s : System) (i size current : ℕ) (t : MemoryTracker) (spurious : Bool)
      → s.threads i ≡ trying size current
      → round spurious size current s.tracker ≡ stored t
      → Step s (record { tracker = t; threads = become i idle s.threads; guards = size ∷ s.guards })
  drop :
      (s : System) (l r : List ℕ) (size : ℕ)
      → s.guards ≡ l ++ size ∷ r
      → Step s (record s { tracker = release size s.tracker; guards = l ++ r })

-- The systems that steps lead to from a new tracker with a limit.
pub data Reach (limit : ℕ) : System → Type 0 where
  started : Reach limit (start limit)
  stepped : (before after : System) → Step before after → Reach limit before → Reach limit after

-- The usage is the sum of the guards that are alive, within the limit.
pub record IsExact (limit : ℕ) (s : System) : Type 0 where
  pub limited : s.tracker.max_allowed ≡ limit
  pub within : s.tracker.current_usage ≤ limit
  pub exact : s.tracker.current_usage ≡ sum s.guards

round-stored :
    (spurious : Bool) (size current : ℕ) (t u : MemoryTracker)
    → t.max_allowed < usize_max
    → round spurious size current t ≡ stored u
    → (u.max_allowed ≡ t.max_allowed)
      × (u.current_usage ≡ t.current_usage + size)
      × (u.current_usage ≤ t.max_allowed)
unfolding round
round-stored spurious size current t u k h = ground arith

release-usage :
    (size : ℕ) (t : MemoryTracker)
    → size ≤ t.current_usage
    → t.current_usage < usize_mod
    → (release size t).current_usage ≡ t.current_usage - size
unfolding release
release-usage size t h k = ground arith

Step-IsExact :
    {s t : System} (limit : ℕ) → limit < usize_max → Step s t → IsExact limit s → IsExact limit t
Step-IsExact limit k (load s i size e) x = ground arith
Step-IsExact limit k (reject s i size current c m sp e r) x = ground arith
Step-IsExact limit k (lose s i size current c sp e r) x = ground arith
Step-IsExact limit k (grant s i size current t sp e r) x =
    ground (arith, round-stored sp size current s.tracker t)
Step-IsExact limit k (drop s l r size e) x =
    let total : sum s.guards ≡ sum l + (size + sum r) = ground (arith, sum-append l (size ∷ r)) in
    let left : (release size s.tracker).current_usage ≡ s.tracker.current_usage - size =
      release-usage size s.tracker (omega arith) (omega arith) in
    record {
      limited = unfold release in x.limited;
      within = omega arith;
      exact = omega (arith, sum-append l r);
    }

start-IsExact : (limit : ℕ) → IsExact limit (start limit)
unfolding start
start-IsExact limit = omega arith

-- For a limit below the largest `usize` and any interleaving of the atomic steps of any number of
-- threads that allocate and of guards that are dropped, from a new tracker: the usage is the sum of
-- the guards that are alive, it is within the limit, and the limit is the one that was set.
pub Reach-IsExact : (limit : ℕ) (s : System) → limit < usize_max → Reach limit s → IsExact limit s
Reach-IsExact limit s k started = start-IsExact limit
Reach-IsExact limit s k (stepped before after st r) =
    Step-IsExact limit k st (Reach-IsExact limit before k r)
