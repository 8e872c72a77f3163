-- ===== src/XattrCache/Sound.antt =====
-- What `put` of shadowfs-macos, fskit/xattr_cache.rs, keeps of the cache, where it comes back.
use shadowfs.Base.{
  ℕ, zero, suc, ◌≤◌, ◌<◌, ◌≡◌, ◌⊎◌, inl, inr, refl, List, [], ◌∷◌, some, none, true, false, length,
  arith, Option-cases, Bool-cases, is_some, lookup, ap, length-without,
}
use shadowfs.XattrCache.{
  CacheKey, CacheKey-discrete, CacheEntry, CacheConfig, XattrCache, find, take_out,
}
use shadowfs.XattrCache.Put.{is_over, make_room, after_evict, evict_lru, evicted}
use shadowfs.XattrCache.Eviction.{stands, IsEvicted}
use shadowfs.XattrCache.Ending.{evict_lru-ends}
use shadowfs.XattrCache.Kept.{IsKept, IsWithin, eviction-IsKept}
use shadowfs.XattrCache.Rounds.{stuck_before}

pub record IsSound (config : CacheConfig) (s : XattrCache) : Type 0 where
  pub kept : IsKept s
  pub within : IsWithin config s
  pub current_size : s.stats.current_size ≡ s.memory_usage
  pub current_entries : s.stats.current_entries ≡ length s.cache

nothing_cached :
    (l : List (CacheKey × CacheEntry))
    → ((k : CacheKey) → lookup CacheKey-discrete k l ≡ none)
    → l ≡ []
unfolding lookup
nothing_cached [] h = refl
nothing_cached ((k, e) ∷ l) h = absurd (ground (arith, h k))

module _ (config : CacheConfig) (size : ℕ) where
  -- What the loop of `put` leaves.
  pub record IsRoom (s t : XattrCache) : Type 0 where
    pub kept : IsKept t
    pub fewer : length t.cache ≤ length s.cache
    pub shorter : length t.lru_queue ≤ length s.lru_queue
    pub room : (is_over config size t ≡ false) ⊎ (t.cache ≡ [])

  emptied-IsRoom :
      (s : XattrCache)
      → IsKept s
      → ((k : CacheKey) → stands k s.lru_queue ≡ true → find k s ≡ none)
      → IsRoom s (record s { lru_queue = [] })
  unfolding lookup
  emptied-IsRoom s h gone =
      let absent : (k : CacheKey) → find k s ≡ none = λ k. elim (Option-cases (find k s)) [
        | inl a ↦ a
        | inr (e, m) ↦ gone k (h.queued k (ap is_some m))
      ] in
      record {
        kept = record {
          distinct = h.distinct;
          exact = h.exact;
          queued = λ k y. absurd (ground (arith, absent k, y));
          small = h.small;
        };
        fewer = omega arith;
        shorter = omega arith;
        room = inr (nothing_cached s.cache absent);
      }

  IsRoom-trans :
      (s t u : XattrCache)
      → length t.cache ≤ length s.cache
      → length t.lru_queue ≤ length s.lru_queue
      → IsRoom t u
      → IsRoom s u
  IsRoom-trans s t u a b r = record {
    kept = r.kept;
    fewer = omega (arith, a, r.fewer);
    shorter = omega (arith, b, r.shorter);
    room = r.room;
  }

  evicted-fewer :
      (s t : XattrCache)
      → IsKept s
      → IsEvicted config s s.lru_queue t
      → (suc (length t.cache) ≡ length s.cache) × (length t.lru_queue ≤ length s.lru_queue)
  unfolding evicted take_out
  evicted-fewer s t h ev =
      let shorter = length-without CacheKey-discrete ev.key s.cache h.distinct in
      rw ev.left (ground (arith, shorter, ev.found), ev.shorter)

  never_out :
      (s : XattrCache)
      → is_over config size s ≡ true
      → ((n : ℕ) → evict_lru config n s ≡ none)
      → (n i : ℕ) → make_room config n i size s ≡ none
  unfolding make_room after_evict
  never_out s y on n zero = refl
  never_out s y on n (suc i) = rw (make_room, y, on n) refl

  -- Either the loop of `put` comes back with room made, or it never does.
  pub make_room-ends :
      (rounds turns : ℕ) (s : XattrCache)
      → IsKept s
      → length s.cache < turns
      → length s.lru_queue < rounds
      → ((t : XattrCache) × (make_room config rounds turns size s ≡ some t) × IsRoom s t)
        ⊎ ((n i : ℕ) → make_room config n i size s ≡ none)
  unfolding make_room after_evict
  make_room-ends rounds zero s h c l = absurd (omega (arith, c))
  make_room-ends rounds (suc turns) s h c l = elim (Bool-cases (is_over config size s)) [
    | inr n ↦ inl (
      s,
      rw (make_room, n) refl,
      record { kept = h; fewer = omega arith; shorter = omega arith; room = inl n },
    )
    | inl y ↦ elim (evict_lru-ends config s rounds l) [
      | inl (s', back, ev) ↦
          let kept = eviction-IsKept config s s' h ev in
          let less = evicted-fewer s s' h ev in
          elim (make_room-ends rounds turns s' kept.0 (omega (arith, less.0, c))
            (omega (arith, less.1, l))) [
              | inl (t, done, r) ↦ inl (
                t,
                rw (make_room, y, back) done,
                IsRoom-trans s s' t (omega (arith, less.0)) less.1 r,
              )
              | inr never ↦ inr (stuck_before config rounds size s s' y back never)
            ]
      | inr (inl (back, gone)) ↦
          inl (record s { lru_queue = [] }, rw (make_room, y, back) refl, emptied-IsRoom s h gone)
      | inr (inr (p, v, on)) ↦ inr (never_out s y on)
    ]
  ]
