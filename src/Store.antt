-- ===== src/Store.antt =====
-- override_store/mod.rs: `OverrideStore`. This file has what it is built from, its configuration and
-- its state; the methods are in the modules below, and their theorems below those.
pub mod Access
pub mod Removal
pub mod Insertion
pub mod Tree
pub mod Coherence
pub mod Eviction
pub mod Calls
pub mod Kept
pub mod Usage
pub mod Sound
pub mod Keyed
pub mod Deletion
pub mod RoundTrip
pub mod Writes
use shadowfs.Base.{ℕ, ◌+◌, ◌*◌, ◌/◌, ◌^◌, Bool, true, ite, ℕ_discrete}
use shadowfs.Crates.Codec.{Codec}
use shadowfs.Crates.DashMap.{DashMap}
use shadowfs.Crates.Float.{Float}
use shadowfs.Crates.LruCache.{LruCache}
use shadowfs.Directory
use shadowfs.Directory.{NameSets, ChildMaps, DirectoryCache}
use shadowfs.Entry.{OverrideEntry, Layout}
use shadowfs.Error.{Result, ok, err}
use shadowfs.Lru
use shadowfs.Lru.{Orders, Counts, EvictionPolicy, LruTracker, lru}
use shadowfs.Memory
use shadowfs.Memory.{MemoryTracker}
use shadowfs.Optimization.{Contents, ContentDeduplication, new_dedup, ReadThroughCache, new_cache}
use shadowfs.Optimization.Prefetch.{PrefetchStrategy, children}
use shadowfs.Path.{ShadowPath, ShadowPath-discrete}
use shadowfs.Stats
use shadowfs.Stats.{OverrideStoreStats}

-- What the store is built from: `entries` is the sharded map, by its laws, and `time n` the clock's
-- reading number n, in nanoseconds.
pub record Env : Type 1 where
  pub entry_map : DashMap ShadowPath-discrete OverrideEntry
  pub orders : Orders
  pub counts : Counts
  pub names : NameSets
  pub dirs : ChildMaps names
  pub contents : Contents
  pub caches : LruCache ShadowPath-discrete OverrideEntry
  pub codec : Codec
  pub float : Float
  pub layout : Layout
  pub time : ℕ → ℕ

module _ (env : Env) where
  open env use {entry_map, orders, counts, names, dirs, contents, caches, codec, float, time}

  pub record OverrideStoreConfig : Type 0 where
    pub max_memory : ℕ
    pub eviction_policy : EvictionPolicy
    pub enable_memory_pressure : Bool
    pub eviction_threshold : float.F64
    pub cache_size : ℕ
    pub prefetch_strategy : PrefetchStrategy
    pub enable_compression : Bool

  abbrev pub default_config : OverrideStoreConfig
  default_config = record {
    max_memory = 64 * 1024 * 1024;
    eviction_policy = lru;
    enable_memory_pressure = true;
    eviction_threshold = float.literal 9 1;
    cache_size = 1000;
    prefetch_strategy = children;
    enable_compression = true;
  }

  -- `clock` counts the readings of the clock, `next_arc` the allocations of entries, and
  -- `last_accessed` holds the atomic field of each allocation, which all pointers to it share.
  pub record OverrideStore : Type 0 where
    pub entries : entry_map.Map
    pub memory_tracker : MemoryTracker
    pub lru_tracker : LruTracker orders counts
    pub directory_cache : DirectoryCache names dirs
    pub content_dedup : ContentDeduplication codec contents
    pub hot_cache : ReadThroughCache caches
    pub prefetcher : PrefetchStrategy
    pub stats : OverrideStoreStats
    pub config : OverrideStoreConfig
    pub clock : ℕ
    pub next_arc : ℕ
    pub last_accessed : ℕ → ℕ

  unfoldable pub new : OverrideStoreConfig → OverrideStore
  unfolding Memory.new new_cache
  new config = record {
    entries = entry_map.new;
    memory_tracker = Memory.new config.max_memory;
    lru_tracker = Lru.new orders counts;
    directory_cache = Directory.new names dirs;
    content_dedup = new_dedup codec contents;
    hot_cache = new_cache caches config.cache_size;
    prefetcher = config.prefetch_strategy;
    stats = Stats.new;
    config = config;
    clock = 0;
    next_arc = 0;
    last_accessed = λ _. 0;
  }

  -- The i-th reading of the clock from here, and in whole seconds.
  abbrev pub now : ℕ → OverrideStore → ℕ
  now i s = time (s.clock + i)

  abbrev pub now_secs : ℕ → OverrideStore → ℕ
  now_secs i s = now i s / 10 ^ 9

  abbrev pub tick : ℕ → OverrideStore → OverrideStore
  tick n s = record s { clock = s.clock + n }

  -- `entry.last_accessed.store(secs)`.
  abbrev pub touch : ℕ → ℕ → OverrideStore → OverrideStore
  touch arc secs s = record s {
    last_accessed = λ a. ite (ℕ_discrete a arc) secs (s.last_accessed a);
  }

  -- A method that may return an error; what was written before the error stays written.
  abbrev pub Action : Type 0 → Type 0
  Action A = OverrideStore → Result A × OverrideStore

  abbrev continue : {A B : Type 0} → Result A → (A → Action B) → Action B
  continue (ok a) f s = f a s
  continue (err e) f s = (err e, s)

  infixl 5 ◌>>=◌ ◌>>◌
  unfoldable pub ◌>>=◌ : {A B : Type 0} → Action A → (A → Action B) → Action B
  ◌>>=◌ m f s = let (r, s') = m s in continue r f s'

  abbrev pub ◌>>◌ : {A B : Type 0} → Action A → Action B → Action B
  m >> k = m >>= λ _. k
