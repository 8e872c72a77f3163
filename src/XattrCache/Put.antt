-- ===== src/XattrCache/Put.antt =====
-- `put` of shadowfs-macos, fskit/xattr_cache.rs, with the eviction that it makes room by.
use shadowfs.Base.{
  ℕ, zero, suc, ◌+◌, ◌-◌, ◌%◌, List, [], ◌∷◌, ◌++◌, Option, none, some, Bool, true, false, ◌&&◌,
  ◌||◌, not, ltb, leb, if◌then◌else◌, is_none, length, put,
}
use shadowfs.Memory.{usize_mod}
use shadowfs.Path.Chars.{Text}
use shadowfs.XattrCache.{
  CacheEntry, CacheKey, CacheKey-discrete, key_of, CacheConfig, XattrCache, find, counted, take_out,
  note_totals,
}

unfoldable pub evicted : CacheKey → CacheEntry → List CacheKey → XattrCache → XattrCache
unfolding take_out
evicted k e q s = record (take_out k e s) {
  lru_queue = q;
  stats = record (s.stats) { evictions = counted s.stats.evictions };
}

-- The loop of `evict_lru`, where `none` says that it goes on after so many rounds.
unfoldable pub evict_from :
    CacheConfig → ℕ → List CacheKey → XattrCache → Option (Bool × XattrCache)
evict_from config zero q s = none
evict_from config (suc fuel) [] s = some (false, record s { lru_queue = [] })
evict_from config (suc fuel) (k ∷ q) s = elim (find k s) [
  | none ↦ evict_from config fuel q s
  | some e ↦
      let next = evict_from config fuel (q ++ k ∷ []) s in
      if leb config.min_access_count e.access_count then next else some (true, evicted k e q s)
]

abbrev pub evict_lru : CacheConfig → ℕ → XattrCache → Option (Bool × XattrCache)
evict_lru config fuel s = evict_from config fuel s.lru_queue s

unfoldable pub is_over : CacheConfig → ℕ → XattrCache → Bool
is_over config size s =
    ltb config.max_memory ((s.memory_usage + size) % usize_mod)
    || leb config.max_entries (length s.cache)

-- One turn of the loop of `put` after its eviction: the loop goes on where something was evicted.
unfoldable pub after_evict :
    (XattrCache → Option XattrCache) → Option (Bool × XattrCache) → Option XattrCache
after_evict next none = none
after_evict next (some (false, s)) = some s
after_evict next (some (true, s)) = next s

unfoldable pub make_room : CacheConfig → ℕ → ℕ → ℕ → XattrCache → Option XattrCache
unfolding after_evict evict_from is_over
make_room config rounds zero size s = none
make_room config rounds (suc turns) size s = elim (is_over config size s) [
  | false ↦ some s
  | true ↦ after_evict (make_room config rounds turns size) (evict_lru config rounds s)
]

abbrev pub size_of : Text → Text → Option (List ℕ) → ℕ
size_of path attr_name none = length path + length attr_name
size_of path attr_name (some v) = length v + length path + length attr_name

unfoldable pub new_entry : ℕ → Text → Text → Option (List ℕ) → CacheEntry
new_entry now path attr_name value = record {
  value = value;
  last_access = now;
  created = now;
  size = size_of path attr_name value;
  access_count = 1;
}

abbrev pub old_size : Option CacheEntry → ℕ
old_size none = 0
old_size (some e) = e.size

unfoldable pub note_peak : XattrCache → XattrCache
note_peak s = record s {
  stats = record (s.stats) {
    peak_size = if ltb s.stats.peak_size s.memory_usage then s.memory_usage else s.stats.peak_size;
  };
}

unfoldable pub store : CacheKey → CacheEntry → XattrCache → XattrCache
unfolding note_peak note_totals
store k e s = note_peak (
    note_totals (record s {
      cache = put CacheKey-discrete k e s.cache;
      memory_usage = (s.memory_usage - old_size (find k s) + e.size) % usize_mod;
      lru_queue = s.lru_queue ++ k ∷ [];
    }))

-- What `put` leaves where it has come back after `rounds` turns of each of its two loops.
unfoldable pub put_attr :
    CacheConfig → ℕ → ℕ → Text → Text → Option (List ℕ) → XattrCache → Option XattrCache
put_attr config rounds now path attr_name value s =
    let e = new_entry now path attr_name value in
    if not config.cache_negatives && is_none value
    then some s
    else elim (make_room config rounds rounds e.size s) [
      | none ↦ none
      | some s' ↦ some (store (key_of path attr_name) e s')
    ]
