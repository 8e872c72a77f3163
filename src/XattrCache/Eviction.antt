-- ===== src/XattrCache/Eviction.antt =====
-- How the loops of `evict_lru` and `put` of shadowfs-macos, fskit/xattr_cache.rs, end.
use shadowfs.Base.{
  ℕ, zero, suc, ◌≤◌, ◌≡◌, ◌⊎◌, inl, inr, refl, List, [], ◌∷◌, ◌++◌, Option, none, some, Bool, true,
  false, leb, if◌then◌else◌, ite, length, length-append, arith, Option-cases, Bool-cases,
}
use shadowfs.XattrCache.{CacheKey, CacheKey-discrete, CacheEntry, CacheConfig, XattrCache, find}
use shadowfs.XattrCache.Put.{evicted, evict_from}

-- Whether a key stands in a queue.
unfoldable pub stands : CacheKey → List CacheKey → Bool
stands j [] = false
stands j (k ∷ q) = let rest = stands j q in ite (CacheKey-discrete j k) true rest

pub stands-append :
    (j : CacheKey) (p q : List CacheKey)
    → stands j (p ++ q) ≡ (if stands j p then true else stands j q)
unfolding stands
stands-append j [] q = refl
stands-append j (k ∷ p) q = ground (arith, stands-append j p q)

module _ (config : CacheConfig) (s : XattrCache) where
  -- What an eviction leaves: the entry of one queued key is gone, and the key with it; the other
  -- queued keys that have entries are still queued.
  pub record IsEvicted (p : List CacheKey) (s' : XattrCache) : Type 0 where
    pub key : CacheKey
    pub entry : CacheEntry
    pub rest : List CacheKey
    pub found : find key s ≡ some entry
    pub unpopular : leb config.min_access_count entry.access_count ≡ false
    pub left : s' ≡ evicted key entry rest s
    pub keeps :
        (j : CacheKey)
        → stands j p ≡ true
        → (find j s ≡ none) ⊎ ((j ≡ key) ⊎ (stands j rest ≡ true))
    pub shorter : length rest ≤ length p

  -- What is true of the loop's outcome: where nothing was evicted, no queued key has an entry.
  abbrev pub Outcome : List CacheKey → Option (Bool × XattrCache) → Type 0
  Outcome p none = Unit
  Outcome p (some (false, s')) =
      (s' ≡ record s { lru_queue = [] }) × ((j : CacheKey) → stands j p ≡ true → find j s ≡ none)
  Outcome p (some (true, s')) = IsEvicted p s'

  Outcome-weaken :
      (p q : List CacheKey) (r : Option (Bool × XattrCache))
      → ((j : CacheKey) → stands j p ≡ true → (find j s ≡ none) ⊎ (stands j q ≡ true))
      → length q ≤ length p
      → Outcome q r
      → Outcome p r
  Outcome-weaken p q none h l o = tt
  Outcome-weaken p q (some (false, s')) h l o =
      (o.0, λ j m. elim (h j m) [ inl a ↦ a | inr b ↦ o.1 j b ])
  Outcome-weaken p q (some (true, s')) h l o = record {
    key = o.key;
    entry = o.entry;
    rest = o.rest;
    found = o.found;
    unpopular = o.unpopular;
    left = o.left;
    keeps = λ j m. elim (h j m) [ inl a ↦ inl a | inr b ↦ o.keeps j b ];
    shorter = omega (arith, o.shorter);
  }

  pub evict_from-Outcome : (fuel : ℕ) (q : List CacheKey) → Outcome q (evict_from config fuel q s)
  unfolding evict_from stands
  evict_from-Outcome zero q = tt
  evict_from-Outcome (suc fuel) [] = (refl, λ j m. absurd (ground (arith, m)))
  evict_from-Outcome (suc fuel) (k ∷ q) = elim (Option-cases (find k s)) [
    | inl a ↦
        rw (evict_from, a)
          (Outcome-weaken (k ∷ q) q _ (λ j m. ground (arith, a, m)) (omega arith)
            (evict_from-Outcome fuel q))
    | inr (e, m) ↦ elim (Bool-cases (leb config.min_access_count e.access_count)) [
      | inl y ↦
          rw (evict_from, m, y)
            (Outcome-weaken (k ∷ q) (q ++ k ∷ []) _
              (λ j h. ground (arith, stands-append j q (k ∷ [])))
              (omega (arith, length-append q (k ∷ []))) (evict_from-Outcome fuel (q ++ k ∷ [])))
      | inr n ↦
          rw (evict_from, m, n)
            (record {
              key = k;
              entry = e;
              rest = q;
              found = m;
              unpopular = n;
              left = refl;
              keeps = λ j h. ground (arith, h);
              shorter = omega arith;
            })
    ]
  ]
