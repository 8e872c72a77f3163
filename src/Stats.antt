-- ===== src/Stats.antt =====
-- override_store/stats.rs: the counters of `OverrideStoreStats`. Atomic counters wrap around. The
-- callbacks and the alerts only observe the counters, and are left out; so is the hit rate, which is
-- a function of the hits and the misses.
pub mod Balance
use shadowfs.Base.{
  ℕ, ◌+◌, ◌-◌, ◌*◌, ◌/◌, ◌%◌, ◌≤◌, ◌≡◌, List, [], ◌∷◌, Option, none, some, Bool, true, false, arith,
  if◌then◌else◌, ltb, leb, lookup, put, unwrap_or, take,
}
use shadowfs.Entry.{OverrideContent, OverrideEntry}
use shadowfs.Memory.{usize_mod}
use shadowfs.Path.{ShadowPath, ShadowPath-discrete}

abbrev pub fetch_add : ℕ → ℕ → ℕ
fetch_add a b = (a + b) % usize_mod

abbrev pub fetch_sub : ℕ → ℕ → ℕ
fetch_sub a b = (a + usize_mod - b) % usize_mod

pub data EntryType : Type 0 where
  file directory deleted : EntryType

abbrev pub entry_type : OverrideContent → EntryType
entry_type (OverrideContent.file d h z) = EntryType.file
entry_type (OverrideContent.directory l) = EntryType.directory
entry_type OverrideContent.deleted = EntryType.deleted

-- An interval is a number of nanoseconds.
pub record HotPathStats : Type 0 where
  pub access_count : ℕ
  pub last_accessed : ℕ
  pub avg_interval : ℕ
  pub bytes_accessed : ℕ

abbrev pub new_hot_path : ℕ → HotPathStats
new_hot_path now = record {
  access_count = 0;
  last_accessed = now;
  avg_interval = 0;
  bytes_accessed = 0;
}

-- The average is kept when the clock went back, as `duration_since` then fails.
unfoldable pub update_access : ℕ → ℕ → HotPathStats → HotPathStats
update_access now bytes h = record {
  access_count = h.access_count + 1;
  last_accessed = now;
  avg_interval =
      if ltb 0 h.access_count
      then (if leb h.last_accessed now
          then (h.avg_interval * h.access_count + (now - h.last_accessed))
            % usize_mod
            / (h.access_count + 1)
          else h.avg_interval)
      else h.avg_interval;
  bytes_accessed = h.bytes_accessed + bytes;
}

pub record OverrideStoreStats : Type 0 where
  pub total_entries : ℕ
  pub file_entries : ℕ
  pub directory_entries : ℕ
  pub deleted_entries : ℕ
  pub total_memory_bytes : ℕ
  pub compressed_bytes_saved : ℕ
  pub dedup_bytes_saved : ℕ
  pub eviction_count : ℕ
  pub cache_hits : ℕ
  pub cache_misses : ℕ
  pub hot_paths : List (ShadowPath × HotPathStats)

abbrev pub new : OverrideStoreStats
new = record {
  total_entries = 0;
  file_entries = 0;
  directory_entries = 0;
  deleted_entries = 0;
  total_memory_bytes = 0;
  compressed_bytes_saved = 0;
  dedup_bytes_saved = 0;
  eviction_count = 0;
  cache_hits = 0;
  cache_misses = 0;
  hot_paths = [];
}

unfoldable pub update_hot_path_access : ℕ → ShadowPath → ℕ → OverrideStoreStats → OverrideStoreStats
unfolding update_access
update_hot_path_access now path bytes s =
    let old = unwrap_or (lookup ShadowPath-discrete path s.hot_paths) (new_hot_path now) in
    record s { hot_paths = put ShadowPath-discrete path (update_access now bytes old) s.hot_paths }

-- One more, or one less, of an entry's type.
unfoldable pub count_type : EntryType → OverrideStoreStats → OverrideStoreStats
count_type EntryType.file s = record s { file_entries = fetch_add s.file_entries 1 }
count_type EntryType.directory s = record s { directory_entries = fetch_add s.directory_entries 1 }
count_type EntryType.deleted s = record s { deleted_entries = fetch_add s.deleted_entries 1 }

unfoldable pub discount_type : EntryType → OverrideStoreStats → OverrideStoreStats
discount_type EntryType.file s = record s { file_entries = fetch_sub s.file_entries 1 }
discount_type EntryType.directory s = record s {
  directory_entries = fetch_sub s.directory_entries 1;
}
discount_type EntryType.deleted s = record s { deleted_entries = fetch_sub s.deleted_entries 1 }

-- Only files are entered into the hot paths.
unfoldable pub note_file : ℕ → EntryType → OverrideEntry → OverrideStoreStats → OverrideStoreStats
unfolding update_hot_path_access
note_file now EntryType.file e s = update_hot_path_access now e.path e.override_metadata.size s
note_file now EntryType.directory e s = s
note_file now EntryType.deleted e s = s

unfoldable pub update_on_insert :
    ℕ → OverrideEntry → ℕ → ℕ → ℕ → OverrideStoreStats → OverrideStoreStats
unfolding count_type note_file
update_on_insert now e memory_size compression_saved dedup_saved s =
    let t = count_type (entry_type e.content) s in
    note_file now (entry_type e.content) e (record t {
      total_entries = fetch_add t.total_entries 1;
      total_memory_bytes = fetch_add t.total_memory_bytes memory_size;
      compressed_bytes_saved = fetch_add t.compressed_bytes_saved compression_saved;
      dedup_bytes_saved = fetch_add t.dedup_bytes_saved dedup_saved;
    })

unfoldable pub update_on_remove :
    OverrideEntry → ℕ → ℕ → ℕ → OverrideStoreStats → OverrideStoreStats
unfolding discount_type
update_on_remove e memory_size compression_saved dedup_saved s =
    let t = discount_type (entry_type e.content) s in
    record t {
      total_entries = fetch_sub t.total_entries 1;
      total_memory_bytes = fetch_sub t.total_memory_bytes memory_size;
      compressed_bytes_saved = fetch_sub t.compressed_bytes_saved compression_saved;
      dedup_bytes_saved = fetch_sub t.dedup_bytes_saved dedup_saved;
    }

unfoldable pub update_on_eviction : ℕ → ℕ → OverrideStoreStats → OverrideStoreStats
update_on_eviction count bytes_freed s = record s {
  eviction_count = fetch_add s.eviction_count count;
}

unfoldable pub update_cache_access : Bool → OverrideStoreStats → OverrideStoreStats
update_cache_access true s = record s { cache_hits = fetch_add s.cache_hits 1 }
update_cache_access false s = record s { cache_misses = fetch_add s.cache_misses 1 }

unfoldable pub reset : OverrideStoreStats → OverrideStoreStats
reset s = record s {
  total_entries = 0;
  file_entries = 0;
  directory_entries = 0;
  deleted_entries = 0;
  total_memory_bytes = 0;
  compressed_bytes_saved = 0;
  dedup_bytes_saved = 0;
  eviction_count = 0;
  cache_hits = 0;
  cache_misses = 0;
  hot_paths = [];
}
