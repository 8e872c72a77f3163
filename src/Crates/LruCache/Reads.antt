-- ===== src/Crates/LruCache/Reads.antt =====
-- What can be read from a cache after each of its operations.
use shadowfs.Base.{
  ℕ, zero, suc, ◌≡◌, none, some, List, [], ◌∷◌, ite, take, lookup, without, lookup-without, arith,
}
use shadowfs.Crates.LruCache.{LruCache, promote}

module _ {K V : Type 0} (dec : Discrete K) where
  -- A use changes the order only.
  lookup-promote :
      (k j : K) (l : List (K × V))
      → lookup dec j (promote dec V k (lookup dec k l) l) ≡ lookup dec j l
  unfolding lookup
  lookup-promote k j l = ground (arith, lookup-without dec k j l)

  -- What is dropped cannot be read, and nothing else is changed.
  lookup-take :
      (j : K) (v : V) (n : ℕ) (l : List (K × V))
      → lookup dec j (take n l) ≡ some v
      → lookup dec j l ≡ some v
  unfolding lookup
  lookup-take j v zero l h = cc
  lookup-take j v (suc n) [] h = cc
  lookup-take j v (suc n) ((i, w) ∷ l) h = ground (arith, lookup-take j v n l)

module _ {K V : Type 0} (dec : Discrete K) (caches : LruCache dec V) where
  open caches use {Cache, get, put, pop, order, order-get, order-put, order-pop, cap}

  pub lookup-get : (k j : K) (c : Cache) → lookup dec j (order (get k c).0) ≡ lookup dec j (order c)
  lookup-get k j c = rw (order-get k c) (lookup-promote dec k j (order c))

  pub lookup-put :
      (k j : K) (v w : V) (c : Cache)
      → lookup dec j (order (put k v c)) ≡ some w
      → ite (dec j k) (some v) (lookup dec j (order c)) ≡ some w
  unfolding lookup
  lookup-put k j v w c h = ground (
    arith,
    order-put k v c,
    lookup-take dec j w (cap c) ((k, v) ∷ without dec k (order c)),
    lookup-without dec k j (order c),
  )

  pub lookup-pop :
      (k j : K) (c : Cache)
      → lookup dec j (order (pop k c).0) ≡ ite (dec j k) none (lookup dec j (order c))
  lookup-pop k j c = rw (order-pop k c) (lookup-without dec k j (order c))
