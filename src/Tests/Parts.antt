-- ===== src/Tests/Parts.antt =====
-- Memory, permissions, accesses, contents and shards at concrete values.
use shadowfs.Base.{ℕ, ◌≡◌, refl, [], ◌∷◌, ◌++◌, Option, some, false, ite, arith, ℕ_discrete, length}
use shadowfs.Crates.DashMap.{DashMap}
use shadowfs.Crates.Concrete.{assoc_dash_map, assoc_index_map}
use shadowfs.Lru
use shadowfs.Lru.{
  Orders, Counts, LruTracker, record_access, get_least_recently_used, remove_entry,
  get_access_stats, pick, AccessStats,
}
use shadowfs.Memory
use shadowfs.Memory.{
  MemoryTracker, granted, store_full, try_allocate, release, available_space, usize_mod, stored,
  round,
}
use shadowfs.Memory.Concurrent.{
  System, start, Reach, started, stepped, load, grant, trying, idle, IsExact, Reach-IsExact,
}
use shadowfs.Optimization.Sharded
use shadowfs.Path.{ShadowPath, ShadowPath-discrete}
use shadowfs.Path.Buf.{Text-discrete}
use shadowfs.Path.Chars.{Text}
use shadowfs.Tests.{docs, tmp, top}

-- Memory.
abbrev busy : MemoryTracker
busy = record { current_usage = 60; max_allowed = 100; allocation_count = 2 }

abbrev busier : MemoryTracker
busier = record { current_usage = 90; max_allowed = 100; allocation_count = 3 }

allocated_30 : try_allocate 1 30 busy ≡ granted busier
unfolding try_allocate
allocated_30 = refl

first_round :
    round false 30 0 (Memory.new 100)
    ≡ stored (record { current_usage = 30; max_allowed = 100; allocation_count = 1 })
unfolding round Memory.new
first_round = refl

abbrev loading : System
loading = record (start 100) { threads = λ j. ite (ℕ_discrete j 0) (trying 30 0) idle }

abbrev granting : System
granting = record {
  tracker = record { current_usage = 30; max_allowed = 100; allocation_count = 1 };
  threads = λ j. ite (ℕ_discrete j 0) idle (loading.threads j);
  guards = 30 ∷ [];
}

one_allocation : Reach 100 granting
unfolding start ℕ_discrete Memory.new
one_allocation =
    stepped loading granting (grant loading 0 30 0 granting.tracker false refl first_round)
      (stepped (start 100) loading (load (start 100) 0 30 refl) started)

Reach-IsExact_example : IsExact 100 granting
Reach-IsExact_example = Reach-IsExact 100 granting (omega arith) one_allocation

-- Accesses.
abbrev orders : Orders
orders = assoc_index_map ShadowPath-discrete ℕ

abbrev counts : Counts
counts = assoc_dash_map ShadowPath-discrete ℕ

abbrev accessed : LruTracker orders counts
accessed =
    record_access orders counts 9 tmp (record_access orders counts 5 docs (Lru.new orders counts))

abbrev size_ten : ShadowPath → Option ℕ
size_ten p = some 10

picked_two : pick size_ten 15 0 (docs ∷ tmp ∷ top ∷ []) ≡ (docs ∷ []) ++ tmp ∷ []
unfolding pick
picked_two = refl

-- Contents and shards.
abbrev contents : DashMap Text-discrete Text
contents = assoc_dash_map Text-discrete Text

abbrev shard : DashMap ShadowPath-discrete ℕ
shard = assoc_dash_map ShadowPath-discrete ℕ

abbrev by_depth : ShadowPath → ℕ
by_depth p = length p.inner

abbrev filled : Sharded.ShardedMap ShadowPath-discrete shard by_depth
filled =
    (Sharded.insert ShadowPath-discrete shard by_depth docs 7
      (Sharded.empty ShadowPath-discrete shard by_depth)).0
