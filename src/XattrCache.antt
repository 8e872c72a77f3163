-- ===== src/XattrCache.antt =====
-- shadowfs-macos, fskit/xattr_cache.rs: the cache of extended attributes. A `HashMap` is an
-- association list and the queue a list, its front first. A call reads the clock once here, and an
-- operation may read it twice in the code, for two fields of which one is never read again. The texts
-- of paths and names are lists of bytes.
pub mod Put
pub mod Invalidation
pub mod Eviction
pub mod Ending
pub mod Returns
pub mod Kept
pub mod Rounds
pub mod Sound
pub mod Stored
pub mod Calls
pub mod Runs
pub mod Answers
use shadowfs.Base.{
  ℕ, zero, suc, ◌+◌, ◌-◌, ◌*◌, ◌%◌, List, [], ◌∷◌, ◌++◌, Option, none, some, Bool, true, false,
  ◌&&◌, ◌||◌, not, ltb, leb, if◌then◌else◌, is_none, ite, length, filter, keys, lookup, put,
  without, map, ℕ_discrete,
}
use shadowfs.Memory.{usize_mod}
use shadowfs.Path.Buf.{PathBuf, components}
use shadowfs.Path.Chars.{Text}

pub record CacheEntry : Type 0 where
  pub value : Option (List ℕ)
  pub last_access : ℕ
  pub created : ℕ
  pub size : ℕ
  pub access_count : ℕ

pub record CacheKey : Type 0 where
  pub path : PathBuf
  pub attr_name : Text

unfoldable pub CacheKey-discrete : Discrete CacheKey
CacheKey-discrete = hlevel ℕ_discrete

unfoldable pub PathBuf-discrete : Discrete PathBuf
PathBuf-discrete = hlevel ℕ_discrete

abbrev pub key_of : Text → Text → CacheKey
key_of path attr_name = record { path = components path; attr_name = attr_name }

pub record CacheStats : Type 0 where
  pub hits : ℕ
  pub misses : ℕ
  pub evictions : ℕ
  pub invalidations : ℕ
  pub current_size : ℕ
  pub current_entries : ℕ
  pub peak_size : ℕ

pub record CacheConfig : Type 0 where
  pub max_memory : ℕ
  pub max_entries : ℕ
  pub ttl : ℕ
  pub cache_negatives : Bool
  pub min_access_count : ℕ

abbrev pub default_config : CacheConfig
default_config = record {
  max_memory = 64 * 1024 * 1024;
  max_entries = 10000;
  ttl = 300 * 1000000000;
  cache_negatives = true;
  min_access_count = 2;
}

pub record XattrCache : Type 0 where
  pub cache : List (CacheKey × CacheEntry)
  pub lru_queue : List CacheKey
  pub stats : CacheStats
  pub memory_usage : ℕ

abbrev pub no_stats : CacheStats
no_stats = record {
  hits = 0;
  misses = 0;
  evictions = 0;
  invalidations = 0;
  current_size = 0;
  current_entries = 0;
  peak_size = 0;
}

abbrev pub new : XattrCache
new = record { cache = []; lru_queue = []; stats = no_stats; memory_usage = 0 }

abbrev pub find : CacheKey → XattrCache → Option CacheEntry
find k s = lookup CacheKey-discrete k s.cache

abbrev pub counted : ℕ → ℕ
counted n = (n + 1) % usize_mod

-- The entry leaves the map and the account of the memory; the key stays in the queue.
unfoldable pub take_out : CacheKey → CacheEntry → XattrCache → XattrCache
take_out k e s = record s {
  cache = without CacheKey-discrete k s.cache;
  memory_usage = s.memory_usage - e.size;
}

unfoldable pub invalidated : CacheKey → CacheEntry → XattrCache → XattrCache
unfolding take_out
invalidated k e s = record (take_out k e s) {
  stats = record (s.stats) { invalidations = counted s.stats.invalidations };
}

unfoldable pub note_totals : XattrCache → XattrCache
note_totals s = record s {
  stats = record (s.stats) { current_size = s.memory_usage; current_entries = length s.cache };
}

unfoldable pub remove_entry : CacheKey → XattrCache → XattrCache
unfolding note_totals invalidated
remove_entry k s = elim (find k s) [ none ↦ s | some e ↦ note_totals (invalidated k e s) ]

-- The first occurrence of a key in the queue leaves it.
unfoldable pub drop_first : CacheKey → List CacheKey → List CacheKey
drop_first k [] = []
drop_first k (j ∷ q) = let rest = drop_first k q in ite (CacheKey-discrete k j) q (j ∷ rest)

unfoldable pub update_lru : CacheKey → XattrCache → XattrCache
unfolding drop_first
update_lru k s = record s { lru_queue = drop_first k s.lru_queue ++ k ∷ [] }

unfoldable pub missed : XattrCache → XattrCache
missed s = record s { stats = record (s.stats) { misses = counted s.stats.misses } }

unfoldable pub touched : ℕ → CacheEntry → CacheEntry
touched now e = record e { last_access = now; access_count = counted e.access_count }

unfoldable pub hit : ℕ → CacheKey → CacheEntry → XattrCache → XattrCache
unfolding update_lru touched
hit now k e s = record (update_lru k s) {
  cache = put CacheKey-discrete k (touched now e) s.cache;
  stats = record (s.stats) { hits = counted s.stats.hits };
}

unfoldable pub is_expired : CacheConfig → ℕ → CacheEntry → Bool
is_expired config now e = ltb config.ttl (now - e.created)

unfoldable pub get :
    CacheConfig → ℕ → Text → Text → XattrCache → Option (Option (List ℕ)) × XattrCache
unfolding is_expired missed remove_entry hit
get config now path attr_name s =
    let k = key_of path attr_name in
    elim (find k s) [
      | none ↦ (none, missed s)
      | some e ↦
          if is_expired config now e
          then (none, missed (remove_entry k s))
          else (some e.value, hit now k e s)
    ]
