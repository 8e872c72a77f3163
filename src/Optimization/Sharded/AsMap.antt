-- ===== src/Optimization/Sharded/AsMap.antt =====
-- The sixteen shards behind the interface of one map, iteration and length included.
use shadowfs.Base.{
  ℕ, zero, suc, ◌%◌, ◌≡◌, ◌≢◌, refl, List, [], ◌∷◌, ◌++◌, none, some, ℕ_discrete, lookup,
  lookup-append, length, length-append, IsDistinct, arith, ltb, if◌then◌else◌, Option-cases, inl,
  inr,
}
use shadowfs.Crates.DashMap.{DashMap}
use shadowfs.Optimization.Sharded
use shadowfs.Optimization.Sharded.{
  ShardedMap, shard_index, insert, get, remove, iter, iter_below, len, len_below, get-insert,
  get-remove, insert_old, remove_old, get-empty,
}

module _ {K V : Type 0} (dec : Discrete K) where
  IsDistinct-append :
      (l m : List (K × V))
      → IsDistinct dec l
      → IsDistinct dec m
      → ((k : K) (v : V) → lookup dec k l ≡ some v → lookup dec k m ≡ none)
      → IsDistinct dec (l ++ m)
  unfolding lookup
  IsDistinct-append [] m hl hm apart = hm
  IsDistinct-append ((k, v) ∷ l) m hl hm apart = (
    ground (arith, lookup-append dec k l m, apart k v),
    IsDistinct-append l m hl.1 hm (λ j w e. ground (arith, apart j w, apart j v)),
  )

module _ {K : Type 0} {V : Type 0} (dec : Discrete K) (shard : DashMap dec V) (hash : K → ℕ) where
  -- Every entry stands in the shard that the hash of its key names.
  pub record IsPlaced (m : ShardedMap dec shard hash) : Type 0 where
    pub at : (i : ℕ) (k : K) (v : V) → shard.get k (m.shards i) ≡ some v → hash k % 16 ≡ i

  pub empty-IsPlaced : IsPlaced (Sharded.empty dec shard hash)
  empty-IsPlaced = record { at = λ i k v e. ground (arith, shard.get-new k) }

  pub insert-IsPlaced :
      (k : K) (v : V) (m : ShardedMap dec shard hash)
      → IsPlaced m
      → IsPlaced (insert dec shard hash k v m).0
  unfolding insert
  insert-IsPlaced k v m h = record {
    at = λ i j w e. ground (arith, shard.get-insert k j v (m.shards i), h.at i j w);
  }

  pub remove-IsPlaced :
      (k : K) (m : ShardedMap dec shard hash) → IsPlaced m → IsPlaced (remove dec shard hash k m).0
  unfolding remove
  remove-IsPlaced k m h = record {
    at = λ i j w e. ground (arith, shard.get-remove k j (m.shards i), h.at i j w);
  }

  get_other_shard :
      (i : ℕ) (k : K) (m : ShardedMap dec shard hash)
      → IsPlaced m
      → hash k % 16 ≢ i
      → shard.get k (m.shards i) ≡ none
  get_other_shard i k m h ne = elim (Option-cases (shard.get k (m.shards i))) [
    | inl e ↦ e
    | inr (v, e) ↦ absurd (ne (h.at i k v e))
  ]

  lookup-iter_below :
      (n : ℕ) (k : K) (m : ShardedMap dec shard hash)
      → IsPlaced m
      → lookup dec k (iter_below dec shard hash n m)
        ≡ (if ltb (hash k % 16) n then get dec shard hash k m else none)
  unfolding iter_below lookup get
  lookup-iter_below zero k m h = ground arith
  lookup-iter_below (suc n) k m h = elim (ℕ_discrete (hash k % 16) n) [
    | yes e ↦ ground (
      arith,
      lookup-iter_below n k m h,
      lookup-append dec k (iter_below dec shard hash n m) (shard.iter (m.shards n)),
      shard.lookup-iter k (m.shards n),
    )
    | no e ↦ ground (
      arith,
      lookup-iter_below n k m h,
      lookup-append dec k (iter_below dec shard hash n m) (shard.iter (m.shards n)),
      shard.lookup-iter k (m.shards n),
      get_other_shard n k m h e,
    )
  ]

  iter_below-IsDistinct :
      (n : ℕ) (m : ShardedMap dec shard hash)
      → IsPlaced m
      → IsDistinct dec (iter_below dec shard hash n m)
  unfolding iter_below
  iter_below-IsDistinct zero m h = tt
  iter_below-IsDistinct (suc n) m h =
      IsDistinct-append dec (iter_below dec shard hash n m) (shard.iter (m.shards n))
        (iter_below-IsDistinct n m h) (shard.iter-IsDistinct (m.shards n))
        λ k v e. ground (
          arith,
          lookup-iter_below n k m h,
          shard.lookup-iter k (m.shards n),
          get_other_shard n k m h,
        )

  length-iter_below :
      (n : ℕ) (m : ShardedMap dec shard hash)
      → length (iter_below dec shard hash n m) ≡ len_below dec shard hash n m
  unfolding iter_below len_below
  length-iter_below zero m = refl
  length-iter_below (suc n) m = ground (
    arith,
    length-append (iter_below dec shard hash n m) (shard.iter (m.shards n)),
    length-iter_below n m,
    shard.length-iter (m.shards n),
  )

  -- Where each entry stands in the shard that the hash of its key names: looking a key up in what
  -- the iteration over the sixteen shards yields finds what `get` finds.
  pub lookup-iter :
      (k : K) (m : ShardedMap dec shard hash)
      → IsPlaced m
      → lookup dec k (iter dec shard hash m) ≡ get dec shard hash k m
  unfolding iter
  lookup-iter k m h = ground (arith, lookup-iter_below 16 k m h)

  pub iter-IsDistinct :
      (m : ShardedMap dec shard hash) → IsPlaced m → IsDistinct dec (iter dec shard hash m)
  unfolding iter
  iter-IsDistinct m h = iter_below-IsDistinct 16 m h

  pub length-iter :
      (m : ShardedMap dec shard hash) → length (iter dec shard hash m) ≡ len dec shard hash m
  unfolding iter len
  length-iter m = length-iter_below 16 m

  -- The sixteen shards as one map.
  unfoldable pub sharded : DashMap dec V
  sharded = record {
    Map = (m : ShardedMap dec shard hash) × IsPlaced m;
    new = (Sharded.empty dec shard hash, empty-IsPlaced);
    get = λ k m. get dec shard hash k m.0;
    insert = λ k v m. (
      ((insert dec shard hash k v m.0).0, insert-IsPlaced k v m.0 m.1),
      (insert dec shard hash k v m.0).1,
    );
    remove = λ k m. (
      ((remove dec shard hash k m.0).0, remove-IsPlaced k m.0 m.1),
      (remove dec shard hash k m.0).1,
    );
    iter = λ m. iter dec shard hash m.0;
    len = λ m. len dec shard hash m.0;
    get-new = λ k. get-empty dec shard hash k;
    get-insert = λ k j v m. get-insert dec shard hash k j v m.0;
    insert_old = λ k v m. insert_old dec shard hash k v m.0;
    get-remove = λ k j m. get-remove dec shard hash k j m.0;
    remove_old = λ k m. remove_old dec shard hash k m.0;
    lookup-iter = λ k m. lookup-iter k m.0 m.1;
    iter-IsDistinct = λ m. iter-IsDistinct m.0 m.1;
    length-iter = λ m. length-iter m.0;
  }
