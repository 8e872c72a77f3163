-- ===== src/XattrCache/Stored.antt =====
-- What the write of `put` of shadowfs-macos, fskit/xattr_cache.rs, leaves, once room is made.
use shadowfs.Base.{
  ◌+◌, ◌-◌, ◌≤◌, ◌<◌, ◌≡◌, inl, inr, refl, [], ◌∷◌, arith, put, weigh, put-IsDistinct, lookup-put,
  length-put, weigh-without, ap, ◌∙◌,
}
use shadowfs.XattrCache.{
  CacheKey, CacheKey-discrete, CacheEntry, CacheConfig, XattrCache, find, note_totals,
}
use shadowfs.XattrCache.Put.{note_peak, is_over, store, old_size}
use shadowfs.XattrCache.Eviction.{stands, stands-append}
use shadowfs.XattrCache.Kept.{IsKept, IsWithin, half, entry_size, weigh-put}
use shadowfs.XattrCache.Sound.{IsSound, IsRoom}

module _ (config : CacheConfig) (k : CacheKey) (e : CacheEntry) (s t : XattrCache) where
  -- The account after the write, before it is cut to a `usize`.
  store-exact :
      IsKept t
      → t.memory_usage - old_size (find k t) + e.size
        ≡ weigh entry_size (put CacheKey-discrete k e t.cache)
  store-exact h =
      let total = weigh-put k e t.cache in
      let part = weigh-without CacheKey-discrete entry_size k t.cache h.distinct in
      ground (arith, total, part, h.exact)

  store-fits :
      IsRoom config e.size s t
      → config.max_memory ≤ half
      → e.size < half
      → t.memory_usage - old_size (find k t) + e.size ≤ half
  unfolding is_over weigh
  store-fits r m f = elim r.room [
    | inl n ↦ ground (arith, n, r.kept.small, m, f)
    | inr empty ↦
        let none_used : t.memory_usage ≡ 0 = r.kept.exact ∙ ap (weigh entry_size) empty in
        omega (arith, none_used, f)
  ]

  store-IsWithin :
      IsRoom config e.size s t
      → config.max_memory ≤ half
      → e.size < half
      → IsWithin config (store k e t)
  unfolding store note_totals note_peak is_over put
  store-IsWithin r m f =
      let count = length-put CacheKey-discrete k e t.cache in
      elim r.room [
        | inl n ↦ inl (ground (arith, n, r.kept.small, m, f), ground (arith, n, count))
        | inr empty ↦ inr (rw empty (omega arith))
      ]

  -- Where room was made, and neither the limit nor the entry is beyond half of a `usize`: after the
  -- write the account is exact, and the limits are kept or the entry is the only one.
  pub store-IsSound :
      IsRoom config e.size s t
      → config.max_memory ≤ half
      → e.size < half
      → IsSound config (store k e t)
  unfolding store note_totals note_peak stands
  store-IsSound r m f =
      let small = store-fits r m f in
      let exact = store-exact r.kept in
      record {
        kept = record {
          distinct = put-IsDistinct CacheKey-discrete k e t.cache r.kept.distinct;
          exact = omega (arith, exact, small);
          queued = λ j y. ground (
            arith,
            lookup-put CacheKey-discrete k j e t.cache,
            y,
            r.kept.queued j,
            stands-append j t.lru_queue (k ∷ []),
          );
          small = omega (arith, small);
        };
        within = store-IsWithin r m f;
        current_size = refl;
        current_entries = refl;
      }
