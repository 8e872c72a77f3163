-- ===== src/Lru.antt =====
-- override_store/lru.rs: `LruTracker`, eviction policies and the choice of victims. An `Instant` is a
-- number of nanoseconds, and each call that reads the clock has the reading as an argument.
pub mod Sorting
pub mod Order
pub mod Victims
use shadowfs.Base.{
  ℕ, ◌+◌, ◌-◌, ◌/◌, ◌%◌, ◌^◌, List, [], ◌∷◌, map, Option, none, some, Bool, leb, take, keys,
  unwrap_or,
}
use shadowfs.Crates.DashMap.{DashMap}
use shadowfs.Crates.IndexMap.{IndexMap}
use shadowfs.Entry.{OverrideEntry, Layout, calculate_entry_size}
use shadowfs.Path.{ShadowPath, ShadowPath-discrete}
use shadowfs.Stats.{fetch_add}
use Sorting.{sort_by}

pub data EvictionPolicy : Type 0 where
  lru lfu fifo size_weighted : EvictionPolicy

pub record AccessStats : Type 0 where
  pub last_accessed : ℕ
  pub access_count : ℕ
  pub age_seconds : ℕ

-- `last_accessed.elapsed().as_secs()`.
unfoldable pub update_age : ℕ → AccessStats → AccessStats
update_age now s = record s { age_seconds = (now - s.last_accessed) / 10 ^ 9 }

abbrev pub Orders : Type 1
Orders = IndexMap ShadowPath-discrete ℕ

abbrev pub Counts : Type 1
Counts = DashMap ShadowPath-discrete ℕ

module _ (orders : Orders) (counts : Counts) where
  pub record LruTracker : Type 0 where
    pub access_order : orders.Map
    pub access_count : counts.Map
    pub generation : ℕ

  abbrev pub new : LruTracker
  new = record { access_order = orders.new; access_count = counts.new; generation = 0 }

  unfoldable pub record_access : ℕ → ShadowPath → LruTracker → LruTracker
  record_access now path t =
      let count = unwrap_or (counts.get path t.access_count) 0 in
      record {
        access_count = (counts.insert path (fetch_add count 1) t.access_count).0;
        access_order = orders.insert path now (orders.shift_remove path t.access_order);
        generation = fetch_add t.generation 1;
      }

  unfoldable pub get_least_recently_used : ℕ → LruTracker → List ShadowPath
  get_least_recently_used count t = take count (keys (orders.iter t.access_order))

  unfoldable pub remove_entry : ShadowPath → LruTracker → LruTracker
  remove_entry path t = record t {
    access_count = (counts.remove path t.access_count).0;
    access_order = orders.shift_remove path t.access_order;
  }

  unfoldable pub stats_at : ℕ → ShadowPath → ℕ → LruTracker → AccessStats
  unfolding update_age
  stats_at now path last_accessed t = update_age now (record {
    last_accessed = last_accessed;
    access_count = unwrap_or (counts.get path t.access_count) 0;
    age_seconds = 0;
  })

  unfoldable pub get_access_stats : ℕ → ShadowPath → LruTracker → Option AccessStats
  unfolding stats_at
  get_access_stats now path t = elim (orders.get path t.access_order) [
    | none ↦ none
    | some last_accessed ↦ some (stats_at now path last_accessed t)
  ]

  unfoldable pub get_all_stats : ℕ → LruTracker → List (ShadowPath × AccessStats)
  unfolding stats_at
  get_all_stats now t = map (λ e. (e.0, stats_at now e.0 e.1 t)) (orders.iter t.access_order)

-- The loop that takes candidates until enough bytes would be freed. A candidate with no entry is
-- passed over.
unfoldable pub pick : (ShadowPath → Option ℕ) → ℕ → ℕ → List ShadowPath → List ShadowPath
pick size_of target_bytes freed_bytes [] = []
pick size_of target_bytes freed_bytes (path ∷ candidates) = elim (leb target_bytes freed_bytes) [
  | Bool.true ↦ []
  | Bool.false ↦ elim (size_of path) [
    | none ↦ pick size_of target_bytes freed_bytes candidates
    | some n ↦ path ∷ pick size_of target_bytes (freed_bytes + n) candidates
  ]
]

module _ (orders : Orders) (counts : Counts) (layout : Layout)
    (shard : DashMap ShadowPath-discrete OverrideEntry) where
  abbrev pub entry_size_of : shard.Map → ShadowPath → Option ℕ
  entry_size_of entries path = elim (shard.get path entries) [
    | none ↦ none
    | some e ↦ some (calculate_entry_size layout e)
  ]

  unfoldable pub eviction_candidates :
      EvictionPolicy → shard.Map → LruTracker orders counts → List ShadowPath
  unfolding sort_by
  eviction_candidates lru entries t = keys (orders.iter t.access_order)
  eviction_candidates lfu entries t =
      keys (sort_by (λ a b. leb a.1 b.1) (counts.iter t.access_count))
  eviction_candidates fifo entries t =
      keys (sort_by (λ a b. leb a.1.created_at b.1.created_at) (shard.iter entries))
  eviction_candidates size_weighted entries t = keys (
      sort_by (λ a b. leb (calculate_entry_size layout b.1) (calculate_entry_size layout a.1))
        (shard.iter entries))

  unfoldable pub select_victims :
      EvictionPolicy → shard.Map → ℕ → LruTracker orders counts → List ShadowPath
  unfolding eviction_candidates pick
  select_victims policy entries target_bytes t =
      pick (entry_size_of entries) target_bytes 0 (eviction_candidates policy entries t)
