-- ===== src/XattrCache/Ending.antt =====
-- When the loops of `evict_lru` and `put` of shadowfs-macos, fskit/xattr_cache.rs, come back.
use shadowfs.Base.{
  ℕ, zero, suc, ◌<◌, ◌≡◌, ◌⊎◌, inl, inr, refl, List, [], ◌∷◌, ◌++◌, none, some, Bool, true, false,
  leb, if◌then◌else◌, length, length-append, arith, Option-cases, Bool-cases, subst, ap,
}
use mathlib.Core.List.{append_assoc}
use shadowfs.XattrCache.{CacheKey, CacheEntry, CacheConfig, XattrCache, find}
use shadowfs.XattrCache.Put.{evicted, evict_from, evict_lru}
use shadowfs.XattrCache.Eviction.{stands, IsEvicted, Outcome, evict_from-Outcome}

module _ (config : CacheConfig) (s : XattrCache) where
  -- Whether a queue has a key whose entry was read too often to be evicted, and whether it has one
  -- that can be.
  unfoldable pub has_popular : List CacheKey → Bool
  has_popular [] = false
  has_popular (k ∷ q) = elim (find k s) [
    | none ↦ has_popular q
    | some e ↦ if leb config.min_access_count e.access_count then true else has_popular q
  ]

  unfoldable pub has_victim : List CacheKey → Bool
  has_victim [] = false
  has_victim (k ∷ q) = elim (find k s) [
    | none ↦ has_victim q
    | some e ↦ if leb config.min_access_count e.access_count then has_victim q else true
  ]

  -- The loop goes on for ever.
  abbrev pub Goes : List CacheKey → Type 0
  Goes q = (has_popular q ≡ true) × (has_victim q ≡ false)

  Goes-rotate :
      (k : CacheKey) (e : CacheEntry) (q : List CacheKey)
      → find k s ≡ some e
      → leb config.min_access_count e.access_count ≡ true
      → (has_popular (q ++ k ∷ []) ≡ true) × (has_victim (q ++ k ∷ []) ≡ has_victim q)
  unfolding has_popular has_victim
  Goes-rotate k e [] m y = (ground (arith, m, y), ground (arith, m, y))
  Goes-rotate k e (j ∷ q) m y =
      let rest = Goes-rotate k e q m y in (ground (arith, rest.0), ground (arith, rest.1))

  pub evict_from-Goes : (fuel : ℕ) (q : List CacheKey) → Goes q → evict_from config fuel q s ≡ none
  unfolding evict_from has_popular has_victim
  evict_from-Goes zero q g = refl
  evict_from-Goes (suc fuel) [] g = absurd (ground (arith, g.0))
  evict_from-Goes (suc fuel) (k ∷ q) g = elim (Option-cases (find k s)) [
    | inl a ↦
        rw (evict_from, a) (evict_from-Goes fuel q (ground (arith, g.0, a), ground (arith, g.1, a)))
    | inr (e, m) ↦ elim (Bool-cases (leb config.min_access_count e.access_count)) [
      | inl y ↦
          let rotated = Goes-rotate k e q m y in
          rw (evict_from, m, y)
            (evict_from-Goes fuel (q ++ k ∷ []) (rotated.0, ground (arith, g.1, rotated.1, m, y)))
      | inr n ↦ absurd (ground (arith, g.1, m, n))
    ]
  ]

  -- A victim that stands in the queue is found after as many rounds as there are keys before it.
  victim_reached :
      (fuel : ℕ) (p : List CacheKey) (v : CacheKey) (e : CacheEntry) (q : List CacheKey)
      → length p < fuel
      → find v s ≡ some e
      → leb config.min_access_count e.access_count ≡ false
      → (s' : XattrCache) × (evict_from config fuel (p ++ v ∷ q) s ≡ some (true, s'))
  unfolding evict_from
  victim_reached zero p v e q l m n = absurd (omega (arith, l))
  victim_reached (suc fuel) [] v e q l m n = (evicted v e q s, ground (arith, m, n))
  victim_reached (suc fuel) (k ∷ p) v e q l m n = elim (Option-cases (find k s)) [
    | inl a ↦ rw (evict_from, a) (victim_reached fuel p v e q (omega (arith, l)) m n)
    | inr (d, h) ↦ elim (Bool-cases (leb config.min_access_count d.access_count)) [
      | inl y ↦
          rw (evict_from, h, y, append_assoc p (v ∷ q) (k ∷ []))
            (victim_reached fuel p v e (q ++ k ∷ []) (omega (arith, l)) m n)
      | inr w ↦ (evicted k d (p ++ v ∷ q) s, ground (arith, h, w))
    ]
  ]

  victim_place :
      (q : List CacheKey)
      → has_victim q ≡ true
      → (p : List CacheKey) × (v : CacheKey) × (e : CacheEntry) × (r : List CacheKey) × (q
          ≡ p ++ v ∷ r)
        × (find v s ≡ some e)
        × (leb config.min_access_count e.access_count ≡ false)
  unfolding has_victim
  victim_place [] h = absurd (ground (arith, h))
  victim_place (k ∷ q) h = elim (Option-cases (find k s)) [
    | inl a ↦
        let (p, v, e, r, same, m, n) = victim_place q (ground (arith, h, a)) in
        (k ∷ p, v, e, r, rw same refl, m, n)
    | inr (d, m) ↦ elim (Bool-cases (leb config.min_access_count d.access_count)) [
      | inl y ↦
          let (p, v, e, r, same, f, n) = victim_place q (ground (arith, h, m, y)) in
          (k ∷ p, v, e, r, rw same refl, f, n)
      | inr n ↦ ([], k, d, q, refl, m, n)
    ]
  ]

  victim_found :
      (fuel : ℕ) (q : List CacheKey)
      → length q < fuel
      → has_victim q ≡ true
      → (s' : XattrCache) × (evict_from config fuel q s ≡ some (true, s'))
  victim_found fuel q l h =
      let (p, v, e, r, same, m, n) = victim_place q h in
      rw same (
        victim_reached fuel p v e r (omega (arith, l, length-append p (v ∷ r), ap length same)) m n)

  nothing_left :
      (fuel : ℕ) (q : List CacheKey)
      → length q < fuel
      → has_popular q ≡ false
      → has_victim q ≡ false
      → evict_from config fuel q s ≡ some (false, record s { lru_queue = [] })
  unfolding evict_from has_popular has_victim
  nothing_left zero q l a b = absurd (omega (arith, l))
  nothing_left (suc fuel) [] l a b = refl
  nothing_left (suc fuel) (k ∷ q) l a b = ground (arith, nothing_left fuel q)

  -- Where more rounds are given than there are keys in the queue: the eviction takes out an entry
  -- that was read too seldom to stay; or no queued key has an entry, and the queue is empty
  -- afterwards; or the queue has entries that were read often and no others, and the loop does not
  -- come back, whatever the number of rounds.
  pub evict_lru-ends :
      (rounds : ℕ)
      → length s.lru_queue < rounds
      → ((s' : XattrCache) × (evict_lru config rounds s ≡ some (true, s'))
          × IsEvicted config s s.lru_queue s')
        ⊎ (((evict_lru config rounds s ≡ some (false, record s { lru_queue = [] }))
              × ((k : CacheKey) → stands k s.lru_queue ≡ true → find k s ≡ none))
            ⊎ ((has_popular s.lru_queue ≡ true)
                × (has_victim s.lru_queue ≡ false)
                × ((n : ℕ) → evict_lru config n s ≡ none)))
  evict_lru-ends rounds l =
      let q = s.lru_queue in
      let known = evict_from-Outcome config s rounds q in
      elim (Bool-cases (has_victim q)) [
        | inl y ↦
            let (s', back) = victim_found rounds q l y in
            inl (s', back, subst (Outcome config s q) back known)
        | inr n ↦ elim (Bool-cases (has_popular q)) [
          | inl y ↦ inr (inr (y, n, λ i. evict_from-Goes i q (y, n)))
          | inr w ↦
              let back = nothing_left rounds q l w n in
              inr (inl (back, (subst (Outcome config s q) back known).1))
        ]
      ]
