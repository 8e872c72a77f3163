-- ===== src/XattrCache/Invalidation.antt =====
-- What takes entries out of the cache of shadowfs-macos, fskit/xattr_cache.rs, other than `put`.
use shadowfs.Base.{
  ℕ, ◌+◌, ◌%◌, List, [], ◌∷◌, none, some, Bool, true, false, leb, ite, filter, keys, map,
}
use shadowfs.Memory.{usize_mod}
use shadowfs.Path.Buf.{PathBuf, components}
use shadowfs.Path.Chars.{Text}
use shadowfs.XattrCache.{
  CacheEntry, CacheKey, PathBuf-discrete, key_of, CacheConfig, XattrCache, find, invalidated,
  note_totals, remove_entry, is_expired,
}

unfoldable pub invalidate_key : CacheKey → XattrCache → XattrCache
unfolding invalidated
invalidate_key k s = elim (find k s) [ none ↦ s | some e ↦ invalidated k e s ]

unfoldable pub invalidate_keys : List CacheKey → XattrCache → XattrCache
unfolding invalidate_key
invalidate_keys [] s = s
invalidate_keys (k ∷ l) s = invalidate_keys l (invalidate_key k s)

unfoldable pub is_of : PathBuf → CacheKey → Bool
unfolding PathBuf-discrete
is_of path k = ite (PathBuf-discrete k.path path) true false

unfoldable pub invalidate_path : PathBuf → XattrCache → XattrCache
unfolding invalidate_keys is_of
invalidate_path path s = invalidate_keys (filter (is_of path) (keys s.cache)) s

unfoldable pub invalidate : Text → XattrCache → XattrCache
unfolding note_totals invalidate_path
invalidate path s = note_totals (invalidate_path (components path) s)

abbrev pub invalidate_attr : Text → Text → XattrCache → XattrCache
invalidate_attr path attr_name s = remove_entry (key_of path attr_name) s

unfoldable pub invalidate_each : List Text → XattrCache → XattrCache
unfolding invalidate_path
invalidate_each [] s = s
invalidate_each (path ∷ l) s = invalidate_each l (invalidate_path (components path) s)

unfoldable pub invalidate_batch : List Text → XattrCache → XattrCache
unfolding note_totals invalidate_each
invalidate_batch paths s = note_totals (invalidate_each paths s)

abbrev pub clear : XattrCache → XattrCache
clear s = record {
  cache = [];
  lru_queue = [];
  stats = record (s.stats) { current_size = 0; current_entries = 0 };
  memory_usage = 0;
}

unfoldable pub expired_keys : CacheConfig → ℕ → List (CacheKey × CacheEntry) → List CacheKey
unfolding is_expired
expired_keys config now l = map (λ x. x.0) (filter (λ x. is_expired config now x.1) l)

unfoldable pub prune_expired : CacheConfig → ℕ → XattrCache → XattrCache
unfolding note_totals invalidate_keys expired_keys
prune_expired config now s = note_totals (invalidate_keys (expired_keys config now s.cache) s)

unfoldable pub has_room_for : CacheConfig → ℕ → XattrCache → Bool
has_room_for config size s = leb ((s.memory_usage + size) % usize_mod) config.max_memory
