-- ===== src/XattrCache/Answers.antt =====
-- What `get` of shadowfs-macos, fskit/xattr_cache.rs, finds after other calls.
use shadowfs.Base.{
  ℕ, zero, suc, ◌-◌, ◌≤◌, ◌≡◌, ◌⊎◌, inl, inr, ◌≢◌, refl, List, [], ◌∷◌, Option, none, some, Bool,
  true, false, not, ◌&&◌, if◌then◌else◌, arith, Bool-cases, Option-cases, is_none, is_some, filter,
  keys, lookup, lookup-put, lookup-without,
}
use shadowfs.Path.Buf.{components}
use shadowfs.Path.Chars.{Text}
use shadowfs.XattrCache.{
  CacheKey, CacheKey-discrete, CacheEntry, CacheConfig, XattrCache, find, get, take_out,
  note_totals, key_of, is_expired, invalidated,
}
use shadowfs.XattrCache.Invalidation.{
  invalidate, invalidate_path, invalidate_keys, invalidate_key, is_of,
}
use shadowfs.XattrCache.Put.{
  put_attr, make_room, after_evict, evict_lru, is_over, evicted, store, note_peak, new_entry,
}
use shadowfs.XattrCache.Eviction.{stands, Outcome, evict_from-Outcome}

-- An entry is as it was or is gone.
abbrev pub SameOrGone : XattrCache → XattrCache → Type 0
SameOrGone s t = (k : CacheKey) → (find k t ≡ find k s) ⊎ (find k t ≡ none)

find-invalidate_keys :
    (l : List CacheKey) (s : XattrCache) (k : CacheKey)
    → find k (invalidate_keys l s) ≡ (if stands k l then none else find k s)
unfolding invalidate_keys invalidate_key invalidated take_out stands
find-invalidate_keys [] s k = refl
find-invalidate_keys (j ∷ l) s k = ground (
  arith,
  find-invalidate_keys l (invalidate_key j s) k,
  lookup-without CacheKey-discrete j k s.cache,
)

stands-filter :
    (p : CacheKey → Bool) (k : CacheKey) (l : List (CacheKey × CacheEntry))
    → stands k (filter p (keys l)) ≡ (p k && is_some (lookup CacheKey-discrete k l))
unfolding stands lookup
stands-filter p k [] = ground arith
stands-filter p k ((j, e) ∷ l) = ground (arith, stands-filter p k l)

module _ (config : CacheConfig) where
  evicted-SameOrGone :
      (k : CacheKey) (e : CacheEntry) (q : List CacheKey) (s : XattrCache)
      → SameOrGone s (evicted k e q s)
  unfolding evicted take_out
  evicted-SameOrGone k e q s j = ground (arith, lookup-without CacheKey-discrete k j s.cache)

  SameOrGone-trans : (s t u : XattrCache) → SameOrGone s t → SameOrGone t u → SameOrGone s u
  SameOrGone-trans s t u a b k = ground (arith, a k, b k)

  turn-SameOrGone :
      (f : XattrCache → Option XattrCache) (s t : XattrCache) (r : Option (Bool × XattrCache))
      → ((u : XattrCache) → f u ≡ some t → SameOrGone u t)
      → Outcome config s s.lru_queue r
      → after_evict f r ≡ some t
      → SameOrGone s t
  unfolding after_evict
  turn-SameOrGone f s t none h o e = absurd (ground (arith, e))
  turn-SameOrGone f s t (some (false, u)) h o e =
      λ k. let same : u ≡ t = ground (arith, e) in inl (rw (← same, o.0) refl)
  turn-SameOrGone f s t (some (true, u)) h o e =
      SameOrGone-trans s u t (rw o.left (evicted-SameOrGone o.key o.entry o.rest s)) (h u e)

  make_room-SameOrGone :
      (rounds turns size : ℕ) (s t : XattrCache)
      → make_room config rounds turns size s ≡ some t
      → SameOrGone s t
  unfolding make_room
  make_room-SameOrGone rounds zero size s t e = absurd (ground (arith, e))
  make_room-SameOrGone rounds (suc turns) size s t e = elim (Bool-cases (is_over config size s)) [
    | inr n ↦ λ k. inl (ground (arith, e, n))
    | inl y ↦
        turn-SameOrGone (make_room config rounds turns size) s t (evict_lru config rounds s)
          (λ u. make_room-SameOrGone rounds turns size u t)
          (evict_from-Outcome config s rounds s.lru_queue) (ground (arith, e, y))
  ]

  find-store :
      (k j : CacheKey) (e : CacheEntry) (u : XattrCache) → j ≢ k → find j (store k e u) ≡ find j u
  unfolding store note_peak note_totals
  find-store k j e u ne = ground (arith, lookup-put CacheKey-discrete k j e u.cache, ne)

  get-store :
      (now later : ℕ) (path attr_name : Text) (value : Option (List ℕ)) (u : XattrCache)
      → later - now ≤ config.ttl
      → (get config later path attr_name
          (store (key_of path attr_name) (new_entry now path attr_name value) u)).0
        ≡ some value
  unfolding get store note_peak note_totals is_expired new_entry
  get-store now later path attr_name value u l =
      let k = key_of path attr_name in
      let e = new_entry now path attr_name value in
      ground (arith, lookup-put CacheKey-discrete k k e u.cache, l)

  -- Where `put` comes back and its value is one to be cached: a `get` of the attribute within the
  -- time to live answers the value; and another key has the entry that it had before, or none.
  pub get-put_attr :
      (rounds now later : ℕ) (path attr_name : Text) (value : Option (List ℕ)) (s t : XattrCache)
      (j : CacheKey)
      → put_attr config rounds now path attr_name value s ≡ some t
      → not config.cache_negatives && is_none value ≡ false
      → later - now ≤ config.ttl
      → j ≢ key_of path attr_name
      → ((get config later path attr_name t).0 ≡ some value)
        × ((find j t ≡ find j s) ⊎ (find j t ≡ none))
  unfolding get put_attr store note_peak note_totals is_expired new_entry
  get-put_attr rounds now later path attr_name value s t j e n l ne =
      let entry = new_entry now path attr_name value in
      let k = key_of path attr_name in
      elim (Option-cases (make_room config rounds rounds entry.size s)) [
        | inl a ↦ absurd (ground (arith, e, n, a))
        | inr (u, m) ↦
            let same : store k entry u ≡ t = ground (arith, e, n, m) in
            (
              rw (← same) (get-store now later path attr_name value u l),
              rw (← same, find-store k j entry u ne)
                  (make_room-SameOrGone rounds rounds entry.size s u m j),
            )
      ]

-- After `invalidate` of a path, no attribute of the path is in the cache, and of every other path
-- each is as it was.
pub find-invalidate :
    (path : Text) (s : XattrCache) (k : CacheKey)
    → find k (invalidate path s) ≡ (if is_of (components path) k then none else find k s)
unfolding invalidate invalidate_path note_totals
find-invalidate path s k = ground (
  arith,
  find-invalidate_keys (filter (is_of (components path)) (keys s.cache)) s k,
  stands-filter (is_of (components path)) k s.cache,
)
