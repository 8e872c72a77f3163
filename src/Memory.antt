-- ===== src/Memory.antt =====
-- override_store/memory.rs: `MemoryTracker`. Numbers of bytes are 64-bit `usize` values; one round
-- of the compare-and-exchange loop is a function, which the interleavings of
-- `Memory/Concurrent.antt` use too.
pub mod Alone
pub mod Concurrent
use shadowfs.Base.{
  ℕ, zero, suc, ◌+◌, ◌-◌, ◌%◌, ◌^◌, min, Bool, true, false, ltb, ◌==◌, if◌then◌else◌, ◌||◌, not,
}
use shadowfs.Crates.Float.{Float}

abbrev pub usize_mod : ℕ
usize_mod = 2 ^ 64

abbrev pub usize_max : ℕ
usize_max = 2 ^ 64 - 1

abbrev pub saturating_add : ℕ → ℕ → ℕ
saturating_add a b = min (a + b) usize_max

pub record MemoryTracker : Type 0 where
  pub current_usage : ℕ
  pub max_allowed : ℕ
  pub allocation_count : ℕ

unfoldable pub new : ℕ → MemoryTracker
new max_allowed = record { current_usage = 0; max_allowed = max_allowed; allocation_count = 0 }

-- One round of the loop of `try_allocate`, for the usage that the thread last saw: the limit is
-- hit, the exchange is made, or it fails with the usage of the moment. A weak exchange may fail
-- (`spurious`) although the usage is the one expected.
pub data Round : Type 0 where
  full : ℕ → ℕ → Round
  stored : MemoryTracker → Round
  retry : ℕ → Round

unfoldable pub round : Bool → ℕ → ℕ → MemoryTracker → Round
round spurious size current t =
    let new_usage = saturating_add current size in
    if ltb t.max_allowed new_usage
    then full current t.max_allowed
    else if spurious || not (t.current_usage == current)
    then retry t.current_usage
    else stored (record t {
      current_usage = new_usage;
      allocation_count = (t.allocation_count + 1) % usize_mod;
    })

-- `granted` is the guard for the size, `store_full` the error `OverrideStoreFull`.
pub data Allocation : Type 0 where
  granted : MemoryTracker → Allocation
  store_full : ℕ → ℕ → Allocation
  unfinished : Allocation

-- The loop where no other thread writes, and the exchange fails `misses` times for no reason.
unfoldable pub allocate_from : ℕ → ℕ → ℕ → MemoryTracker → Allocation
unfolding round
allocate_from zero size current t = elim (round false size current t) [
  | full c m ↦ store_full c m
  | stored t' ↦ granted t'
  | retry c ↦ unfinished
]
allocate_from (suc misses) size current t = elim (round true size current t) [
  | full c m ↦ store_full c m
  | stored t' ↦ granted t'
  | retry c ↦ allocate_from misses size c t
]

unfoldable pub try_allocate : ℕ → ℕ → MemoryTracker → Allocation
unfolding allocate_from
try_allocate misses size t = allocate_from misses size t.current_usage t

unfoldable pub available_space : MemoryTracker → ℕ
available_space t = t.max_allowed - t.current_usage

-- `fetch_sub` wraps around.
unfoldable pub release : ℕ → MemoryTracker → MemoryTracker
release size t = record t { current_usage = (t.current_usage + usize_mod - size) % usize_mod }

module _ (float : Float) where
  open float use {F64, from_usize, div, gt, literal}

  unfoldable pub get_pressure_ratio : MemoryTracker → F64
  get_pressure_ratio t =
      if gt (from_usize t.max_allowed) (literal 0 0)
      then div (from_usize t.current_usage) (from_usize t.max_allowed)
      else literal 1 0

  unfoldable pub is_under_pressure : MemoryTracker → Bool
  unfolding get_pressure_ratio
  is_under_pressure t = gt (get_pressure_ratio t) (literal 9 1)
