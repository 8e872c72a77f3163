-- ===== src/Store/Removal.antt =====
-- `remove`, `evict_entries`, `evict_lru` and `remove_batch` of override_store/mod.rs.
use shadowfs.Base.{
  ◌≡◌, arith, ℕ, ◌+◌, ◌/◌, leb, ltb, List, [], ◌∷◌, Option, none, some, true, false, if◌then◌else◌,
}
use shadowfs.Directory.{DirectoryCache, remove_child}
use shadowfs.Directory.Traversal.{get_filename}
use shadowfs.Entry.{OverrideContent, OverrideEntry, file, directory, deleted, calculate_entry_size}
use shadowfs.Lru.{EvictionPolicy, remove_entry, get_least_recently_used}
use shadowfs.Optimization.{cache_remove}
use shadowfs.Path.{ShadowPath, parent}
use shadowfs.Path.Chars.{Text}
use shadowfs.Stats.{update_on_remove, update_on_eviction}
use shadowfs.Store.{Env, OverrideStore}

-- A quarter of the size, where the content is a compressed file.
abbrev pub compression_saved : OverrideContent → ℕ → ℕ
compression_saved (file d h true) size = size / 4
compression_saved (file d h false) size = 0
compression_saved (directory l) size = 0
compression_saved deleted size = 0

module _ (env : Env) where
  open env use {entry_map, orders, counts, names, dirs, caches, layout}

  abbrev pub unless_empty :
      Text → DirectoryCache names dirs → DirectoryCache names dirs → DirectoryCache names dirs
  unless_empty [] same new = same
  unless_empty (c ∷ n) same new = new

  unfoldable pub forget_child :
      Option ShadowPath → ShadowPath → DirectoryCache names dirs → DirectoryCache names dirs
  forget_child none path d = d
  forget_child (some p) path d =
      unless_empty (get_filename path) d (remove_child names dirs p (get_filename path) d).0

  -- The memory tracker is not told.
  unfoldable pub after_removal :
      ShadowPath → OverrideEntry → entry_map.Map → OverrideStore env → OverrideStore env
  after_removal path e entries' s =
      let entry_size = calculate_entry_size layout e in
      record s {
        entries = entries';
        stats = update_on_remove e entry_size (compression_saved e.content entry_size) 0 s.stats;
        hot_cache = (cache_remove caches path s.hot_cache).0;
        lru_tracker = remove_entry orders counts path s.lru_tracker;
        directory_cache = forget_child (parent path) path s.directory_cache;
      }

  unfoldable pub remove : ShadowPath → OverrideStore env → Option OverrideEntry × OverrideStore env
  remove path s =
      let (entries', old) = entry_map.remove path s.entries in
      elim old [ none ↦ (none, s) | some e ↦ (some e, after_removal path e entries' s) ]

  pub remove_found :
      (path : ShadowPath) (e : OverrideEntry) (s : OverrideStore env)
      → (entry_map.remove path s.entries).1 ≡ some e
      → remove path s ≡ (some e, after_removal path e (entry_map.remove path s.entries).0 s)
  unfolding remove
  remove_found path e s h = ground arith

  -- The loop over the victims, with the bytes that are freed and the entries that are evicted.
  unfoldable pub evict_from :
      ℕ → List ShadowPath → ℕ → ℕ → OverrideStore env → ℕ × ℕ × OverrideStore env
  evict_from target_bytes [] freed count s = (freed, count, s)
  evict_from target_bytes (path ∷ victims) freed count s =
      let (removed, s') = remove path s in
      elim removed [
        | none ↦ evict_from target_bytes victims freed count s'
        | some e ↦
            let freed' = freed + calculate_entry_size layout e in
            let rest = evict_from target_bytes victims freed' (count + 1) s' in
            if leb target_bytes freed' then (freed', count + 1, s') else rest
      ]

  -- The policy is not looked at: up to ten least recently used paths are tried.
  unfoldable pub evict_entries : EvictionPolicy → ℕ → OverrideStore env → ℕ × OverrideStore env
  evict_entries policy target_bytes s =
      let victims = get_least_recently_used orders counts 10 s.lru_tracker in
      let (freed, count, s') = evict_from target_bytes victims 0 0 s in
      (
        freed,
        if ltb 0 count then record s' { stats = update_on_eviction count freed s'.stats } else s',
      )

  abbrev pub evict_first :
      List ShadowPath → OverrideStore env → Option ShadowPath × OverrideStore env
  evict_first [] s = (none, s)
  evict_first (path ∷ l) s = (some path, (remove path s).1)

  unfoldable pub evict_lru : OverrideStore env → Option ShadowPath × OverrideStore env
  evict_lru s = evict_first (get_least_recently_used orders counts 1 s.lru_tracker) s

  unfoldable pub remove_batch :
      List ShadowPath → OverrideStore env → List (Option OverrideEntry) × OverrideStore env
  remove_batch [] s = ([], s)
  remove_batch (path ∷ paths) s =
      let (removed, s') = remove path s in
      let (rest, s'') = remove_batch paths s' in (removed ∷ rest, s'')
