-- ===== src/Store/Access.antt =====
-- `get`, `exists`, `is_deleted`, `entry_count` and the configuration, of override_store/mod.rs.
use shadowfs.Base.{ℕ, Option, none, some, Bool, true, false, is_some}
use shadowfs.Entry
use shadowfs.Entry.{OverrideEntry}
use shadowfs.Lru.{record_access}
use shadowfs.Optimization.{cache_get, cache_put, cache_clear, cache_stats, dedup_stats}
use shadowfs.Optimization.Prefetch.{PrefetchStrategy}
use shadowfs.Path.{ShadowPath}
use shadowfs.Stats.{reset, update_cache_access, update_hot_path_access}
use shadowfs.Store.{Env, OverrideStore, OverrideStoreConfig, now, now_secs, tick, touch}

module _ (env : Env) where
  open env use {entry_map, orders, counts, codec, contents, caches}

  -- What a hit writes, in the cache or in the main store.
  unfoldable pub note_access :
      Bool → ShadowPath → OverrideEntry → OverrideStore env → OverrideStore env
  unfolding update_cache_access update_hot_path_access record_access
  note_access hit path e s = tick env 3 (
      touch env e.arc (now_secs env 2 s) (record s {
        stats =
            update_hot_path_access (now env 0 s) path e.override_metadata.size
              (update_cache_access hit s.stats);
        lru_tracker = record_access orders counts (now env 1 s) path s.lru_tracker;
      }))

  unfoldable pub get_from_entries :
      Option OverrideEntry
      → ShadowPath
      → OverrideStore env
      → Option OverrideEntry × OverrideStore env
  unfolding note_access cache_put
  get_from_entries none path s = (none, record s { stats = update_cache_access false s.stats })
  get_from_entries (some e) path s = (
    some e,
    note_access false path e (record s { hot_cache = cache_put caches path e s.hot_cache }),
  )

  unfoldable pub get_from_cache :
      Option OverrideEntry
      → ShadowPath
      → OverrideStore env
      → Option OverrideEntry × OverrideStore env
  unfolding note_access get_from_entries
  get_from_cache (some e) path s = (some e, note_access true path e s)
  get_from_cache none path s = get_from_entries (entry_map.get path s.entries) path s

  -- First the hot cache, then the main store.
  unfoldable pub get : ShadowPath → OverrideStore env → Option OverrideEntry × OverrideStore env
  unfolding get_from_cache cache_get
  get path s =
      let (c, found) = cache_get caches path s.hot_cache in
      get_from_cache found path (record s { hot_cache = c })

  unfoldable pub exists : ShadowPath → OverrideStore env → Bool
  exists path s = is_some (entry_map.get path s.entries)

  unfoldable pub is_deleted : ShadowPath → OverrideStore env → Bool
  is_deleted path s = elim (entry_map.get path s.entries) [
    | none ↦ false
    | some e ↦ Entry.is_deleted e
  ]

  unfoldable pub entry_count : OverrideStore env → ℕ
  entry_count s = entry_map.len s.entries

  -- Only the stored configuration changes: not the limit, not the cache, not the prefetcher.
  unfoldable pub update_config : OverrideStoreConfig env → OverrideStore env → OverrideStore env
  update_config new_config s = record s { config = new_config }

  -- The number and the bytes of the contents, the number of hot entries and the room for them.
  unfoldable pub optimization_stats : OverrideStore env → ℕ × ℕ × ℕ × ℕ
  optimization_stats s =
      let (dedup_entries, dedup_bytes) = dedup_stats codec contents s.content_dedup in
      let (cache_entries, cache_capacity) = cache_stats caches s.hot_cache in
      (dedup_entries, dedup_bytes, cache_entries, cache_capacity)

  unfoldable pub set_prefetch_strategy : PrefetchStrategy → OverrideStore env → OverrideStore env
  set_prefetch_strategy strategy s = record s { prefetcher = strategy }

  unfoldable pub clear_cache : OverrideStore env → OverrideStore env
  clear_cache s = record s { hot_cache = cache_clear caches s.hot_cache }

  unfoldable pub reset_stats : OverrideStore env → OverrideStore env
  reset_stats s = record s { stats = reset s.stats }
