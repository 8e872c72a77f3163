-- ===== src/XattrCache/Returns.antt =====
-- When `put` of shadowfs-macos, fskit/xattr_cache.rs, comes back.
use shadowfs.Base.{
  ℕ, zero, suc, ◌<◌, ◌≡◌, inl, inr, refl, List, [], ◌∷◌, Option, none, some, true, false, not, ◌&&◌,
  leb, length, arith, Bool-cases, Option-cases, is_none, IsDistinct, length-without, lookup-without,
  without-IsDistinct,
}
use shadowfs.Path.Chars.{Text}
use shadowfs.XattrCache.{
  CacheKey, CacheKey-discrete, CacheEntry, CacheConfig, XattrCache, find, key_of,
}
use shadowfs.XattrCache.Put.{evicted, is_over, make_room, put_attr, new_entry, after_evict, store}
use shadowfs.XattrCache.Ending.{has_popular, has_victim, evict_lru-ends, evict_from-Goes}

abbrev pub IsUnread : CacheConfig → XattrCache → Type 0
IsUnread config s =
    (k : CacheKey) (e : CacheEntry)
    → find k s ≡ some e
    → leb config.min_access_count e.access_count ≡ false

module _ (config : CacheConfig) where
  unread_victims :
      (s : XattrCache) (q : List CacheKey) → IsUnread config s → has_popular config s q ≡ false
  unfolding has_popular
  unread_victims s [] h = refl
  unread_victims s (k ∷ q) h = elim (Option-cases (find k s)) [
    | inl a ↦ ground (arith, unread_victims s q h, a)
    | inr (e, m) ↦ ground (arith, unread_victims s q h, h k e m, m)
  ]

  evicted-IsUnread :
      (k : CacheKey) (e : CacheEntry) (q : List CacheKey) (s : XattrCache)
      → IsUnread config s
      → IsUnread config (evicted k e q s)
  unfolding evicted
  evicted-IsUnread k e q s h j d m =
      h j d (ground (arith, m, lookup-without CacheKey-discrete k j s.cache))

  evicted-length :
      (k : CacheKey) (e : CacheEntry) (q : List CacheKey) (s : XattrCache)
      → IsDistinct CacheKey-discrete s.cache
      → find k s ≡ some e
      → length s.cache ≡ suc (length (evicted k e q s).cache)
  unfolding evicted
  evicted-length k e q s d m = ground (arith, length-without CacheKey-discrete k s.cache d)

  make_room-returns :
      (rounds turns size : ℕ) (s : XattrCache)
      → IsDistinct CacheKey-discrete s.cache
      → IsUnread config s
      → length s.cache < turns
      → length s.lru_queue < rounds
      → (s' : XattrCache) × (make_room config rounds turns size s ≡ some s')
  unfolding make_room after_evict evicted
  make_room-returns rounds zero size s d h c l = absurd (omega (arith, c))
  make_room-returns rounds (suc turns) size s d h c l = elim (Bool-cases (is_over config size s)) [
    | inr n ↦ (s, rw (make_room, n) refl)
    | inl y ↦ elim (evict_lru-ends config s rounds l) [
      | inl (s', back, ev) ↦
          let same = ev.left in
          let next = evicted ev.key ev.entry ev.rest s in
          let shorter = evicted-length ev.key ev.entry ev.rest s d ev.found in
          let (t, done) =
            make_room-returns rounds turns size next
              (without-IsDistinct CacheKey-discrete ev.key s.cache d)
              (evicted-IsUnread ev.key ev.entry ev.rest s h) (omega (arith, shorter, c))
              (omega (arith, ev.shorter, l)) in
          (t, rw (make_room, y, back, same) done)
      | inr (inl (back, gone)) ↦ (record s { lru_queue = [] }, rw (make_room, y, back) refl)
      | inr (inr (p, v, on)) ↦ absurd (ground (arith, unread_victims s s.lru_queue h, p))
    ]
  ]

  module _ (now : ℕ) (path attr_name : Text) (value : Option (List ℕ)) (s : XattrCache) where
    -- Where no key stands twice in the cache, no cached entry was read `min_access_count` times,
    -- and more rounds are given than there are entries and queued keys: `put` comes back.
    pub put_attr-returns :
        (rounds : ℕ)
        → IsDistinct CacheKey-discrete s.cache
        → IsUnread config s
        → length s.cache < rounds
        → length s.lru_queue < rounds
        → (s' : XattrCache) × (put_attr config rounds now path attr_name value s ≡ some s')
    unfolding put_attr
    put_attr-returns rounds d h c l =
        let e = new_entry now path attr_name value in
        let (t, back) = make_room-returns rounds rounds e.size s d h c l in
        elim (Bool-cases (not config.cache_negatives && is_none value)) [
          | inl y ↦ (s, rw (put_attr, y) refl)
          | inr n ↦ (store (key_of path attr_name) e t, rw (put_attr, n, back) refl)
        ]

    -- Where a value is to be cached, room must be made for it, and the queue has a key whose entry
    -- was read `min_access_count` times or more and none whose entry was read less: `put` does not
    -- come back, whatever the number of rounds.
    pub put_attr-stuck :
        not config.cache_negatives && is_none value ≡ false
        → is_over config (new_entry now path attr_name value).size s ≡ true
        → has_popular config s s.lru_queue ≡ true
        → has_victim config s s.lru_queue ≡ false
        → (rounds : ℕ) → put_attr config rounds now path attr_name value s ≡ none
    unfolding put_attr make_room after_evict
    put_attr-stuck n y p v zero = rw (put_attr, n) refl
    put_attr-stuck n y p v (suc rounds) =
        let e = new_entry now path attr_name value in
        let on = evict_from-Goes config s (suc rounds) s.lru_queue (p, v) in
        rw (put_attr, n, make_room, y, on) refl
