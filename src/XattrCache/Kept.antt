-- ===== src/XattrCache/Kept.antt =====
-- What holds between the parts of the cache of shadowfs-macos, fskit/xattr_cache.rs: the account of
-- the memory, the entries and the queue.
use shadowfs.Base.{
  ℕ, ◌+◌, ◌-◌, ◌^◌, ◌≤◌, ◌≡◌, ◌⊎◌, inl, inr, refl, List, [], ◌∷◌, some, none, true, ite, length,
  arith, Option-cases, is_some, IsDistinct, lookup, put, without, weigh, weigh-without, weight_at,
  lookup-without, without-IsDistinct, length-without, put-IsDistinct, lookup-put, length-put, ap,
  ◌∙◌,
}
use shadowfs.XattrCache.{
  CacheKey, CacheKey-discrete, CacheEntry, CacheConfig, XattrCache, find, take_out, invalidated,
  drop_first, hit, update_lru, touched,
}
use shadowfs.XattrCache.Invalidation.{invalidate_key, invalidate_keys}
use shadowfs.XattrCache.Put.{evicted}
use shadowfs.XattrCache.Eviction.{stands, stands-append, IsEvicted}

-- Half of what a `usize` holds: the sizes of entries are below it, as those of all values in memory.
abbrev pub half : ℕ
half = 2 ^ 63

abbrev pub entry_size : CacheKey → CacheEntry → ℕ
entry_size k e = e.size

pub record IsKept (s : XattrCache) : Type 0 where
  pub distinct : IsDistinct CacheKey-discrete s.cache
  pub exact : s.memory_usage ≡ weigh entry_size s.cache
  pub queued : (k : CacheKey) → is_some (find k s) ≡ true → stands k s.lru_queue ≡ true
  pub small : s.memory_usage ≤ half

abbrev pub Shrinks : XattrCache → XattrCache → Type 0
Shrinks s t = (t.memory_usage ≤ s.memory_usage) × (length t.cache ≤ length s.cache)

-- The limits are kept, but where a single entry is cached, which may be larger than the limit.
abbrev pub IsWithin : CacheConfig → XattrCache → Type 0
IsWithin config s =
    ((s.memory_usage ≤ config.max_memory) × (length s.cache ≤ config.max_entries))
    ⊎ (length s.cache ≤ 1)

pub Shrinks-IsWithin :
    (config : CacheConfig) (s t : XattrCache) → Shrinks s t → IsWithin config s → IsWithin config t
Shrinks-IsWithin config s t h w = ground (arith, h, w)

-- A write changes the total by the difference of the two entries at its key.
pub weigh-put :
    (k : CacheKey) (e : CacheEntry) (l : List (CacheKey × CacheEntry))
    → weigh entry_size (put CacheKey-discrete k e l)
        + weight_at CacheKey-discrete entry_size k (lookup CacheKey-discrete k l)
      ≡ weigh entry_size l + e.size
unfolding weigh put lookup
weigh-put k e [] = omega arith
weigh-put k e ((j, d) ∷ l) = ground (arith, weigh-put k e l)

module _ (k : CacheKey) (e : CacheEntry) (s : XattrCache) where
  -- What a removal leaves, whatever the queue is, as long as the other keys are in it.
  pub removal-IsKept :
      (t : XattrCache)
      → IsKept s
      → find k s ≡ some e
      → t.cache ≡ without CacheKey-discrete k s.cache
      → t.memory_usage ≡ s.memory_usage - e.size
      → ((j : CacheKey) → is_some (find j s) ≡ true → (j ≡ k) ⊎ (stands j t.lru_queue ≡ true))
      → IsKept t × Shrinks s t
  removal-IsKept t h m c u q =
      let total = weigh-without CacheKey-discrete entry_size k s.cache h.distinct in
      let shorter = length-without CacheKey-discrete k s.cache h.distinct in
      let there : (j : CacheKey) → find j t ≡ ite (CacheKey-discrete j k) none (find j s) =
        λ j. ap (lookup CacheKey-discrete j) c ∙ lookup-without CacheKey-discrete k j s.cache in
      (
        record {
          distinct = rw c (without-IsDistinct CacheKey-discrete k s.cache h.distinct);
          exact = rw c (ground (arith, total, u, m, h.exact));
          queued = λ j y. ground (arith, there j, q j, y);
          small = omega (arith, u, h.small);
        },
        (omega (arith, u), rw c (ground (arith, shorter))),
      )

  pub invalidated-IsKept :
      IsKept s → find k s ≡ some e → IsKept (invalidated k e s) × Shrinks s (invalidated k e s)
  unfolding invalidated take_out
  invalidated-IsKept h m =
      removal-IsKept (invalidated k e s) h m refl refl (λ j y. inr (h.queued j y))

pub eviction-IsKept :
    (config : CacheConfig) (s t : XattrCache)
    → IsKept s
    → IsEvicted config s s.lru_queue t
    → IsKept t × Shrinks s t
unfolding evicted take_out
eviction-IsKept config s t h ev =
    let next = evicted ev.key ev.entry ev.rest s in
    rw ev.left (
      removal-IsKept ev.key ev.entry s next h ev.found refl refl (λ j y.
        elim (ev.keeps j (h.queued j y)) [ inl a ↦ absurd (ground (arith, a, y)) | inr b ↦ b ]))

pub invalidate_key-IsKept :
    (k : CacheKey) (s : XattrCache)
    → IsKept s
    → IsKept (invalidate_key k s) × Shrinks s (invalidate_key k s)
unfolding invalidate_key
invalidate_key-IsKept k s h = elim (Option-cases (find k s)) [
  | inl a ↦ rw (invalidate_key, a) (h, (omega arith, omega arith))
  | inr (e, m) ↦ rw (invalidate_key, m) (invalidated-IsKept k e s h m)
]

pub invalidate_keys-IsKept :
    (l : List CacheKey) (s : XattrCache)
    → IsKept s
    → IsKept (invalidate_keys l s) × Shrinks s (invalidate_keys l s)
unfolding invalidate_keys
invalidate_keys-IsKept [] s h = (h, (omega arith, omega arith))
invalidate_keys-IsKept (k ∷ l) s h =
    let first = invalidate_key-IsKept k s h in
    let rest = invalidate_keys-IsKept l (invalidate_key k s) first.0 in
    (rest.0, (omega (arith, first.1.0, rest.1.0), omega (arith, first.1.1, rest.1.1)))

stands-drop_first :
    (j k : CacheKey) (q : List CacheKey)
    → stands j q ≡ true
    → (j ≡ k) ⊎ (stands j (drop_first k q) ≡ true)
unfolding stands drop_first
stands-drop_first j k [] h = absurd (ground (arith, h))
stands-drop_first j k (i ∷ q) h = ground (arith, stands-drop_first j k q)

-- A hit changes neither the account nor the number of entries.
pub hit-IsKept :
    (now : ℕ) (k : CacheKey) (e : CacheEntry) (s : XattrCache)
    → IsKept s
    → find k s ≡ some e
    → IsKept (hit now k e s) × Shrinks s (hit now k e s)
unfolding hit update_lru touched stands
hit-IsKept now k e s h m =
    let e' = touched now e in
    let total = weigh-put k e' s.cache in
    let count = length-put CacheKey-discrete k e' s.cache in
    (
      record {
        distinct = put-IsDistinct CacheKey-discrete k e' s.cache h.distinct;
        exact = ground (arith, total, h.exact, m);
        queued = λ j y. ground (
          arith,
          lookup-put CacheKey-discrete k j e' s.cache,
          y,
          h.queued j,
          stands-drop_first j k s.lru_queue,
          stands-append j (drop_first k s.lru_queue) (k ∷ []),
        );
        small = h.small;
      },
      (omega arith, ground (arith, count, m)),
    )
