-- ===== src/Optimization/Sharded.antt =====
-- `ShardedMap` of override_store/optimization.rs: sixteen maps, and a key is kept in the one that its
-- hash names.
pub mod AsMap
use shadowfs.Base.{
  ℕ, zero, suc, ◌+◌, ◌<◌, ◌%◌, ◌≡◌, ◌≢◌, refl, ap, ◌∙◌, sym, List, [], ◌∷◌, ◌++◌, Option, none,
  some, Bool, true, false, ◌&&◌, ◌==◌, ite, ℕ_discrete, is_some, lookup, lookup-append, length,
  length-append, IsDistinct, arith,
}
use shadowfs.Crates.DashMap.{DashMap}

module _ {K : Type 0} {V : Type 0} (dec : Discrete K) (shard : DashMap dec V) (hash : K → ℕ) where
  -- The array of shards, by the index.
  pub record ShardedMap : Type 0 where
    pub shards : ℕ → shard.Map

  abbrev pub empty : ShardedMap
  empty = record { shards = λ _. shard.new }

  unfoldable pub shard_index : K → ℕ
  shard_index k = hash k % 16

  abbrev pub write : ℕ → shard.Map → ShardedMap → ShardedMap
  write i s m = record { shards = λ j. ite (ℕ_discrete j i) s (m.shards j) }

  unfoldable pub insert : K → V → ShardedMap → ShardedMap × Option V
  unfolding shard_index
  insert k v m =
      let i = shard_index k in let (s, old) = shard.insert k v (m.shards i) in (write i s m, old)

  unfoldable pub get : K → ShardedMap → Option V
  unfolding shard_index
  get k m = shard.get k (m.shards (shard_index k))

  unfoldable pub remove : K → ShardedMap → ShardedMap × Option V
  unfolding shard_index
  remove k m =
      let i = shard_index k in let (s, old) = shard.remove k (m.shards i) in (write i s m, old)

  unfoldable pub contains_key : K → ShardedMap → Bool
  unfolding shard_index
  contains_key k m = is_some (shard.get k (m.shards (shard_index k)))

  -- The loops over the array, up to an index.
  unfoldable pub len_below : ℕ → ShardedMap → ℕ
  len_below zero m = 0
  len_below (suc i) m = len_below i m + shard.len (m.shards i)

  unfoldable pub len : ShardedMap → ℕ
  unfolding len_below
  len m = len_below 16 m

  unfoldable pub empty_below : ℕ → ShardedMap → Bool
  empty_below zero m = true
  empty_below (suc i) m = empty_below i m && (shard.len (m.shards i) == 0)

  unfoldable pub is_empty : ShardedMap → Bool
  unfolding empty_below
  is_empty m = empty_below 16 m

  unfoldable pub iter_below : ℕ → ShardedMap → List (K × V)
  iter_below zero m = []
  iter_below (suc i) m = iter_below i m ++ shard.iter (m.shards i)

  unfoldable pub iter : ShardedMap → List (K × V)
  unfolding iter_below
  iter m = iter_below 16 m

  pub get-insert :
      (k j : K) (v : V) (m : ShardedMap) → get j (insert k v m).0 ≡ ite (dec j k) (some v) (get j m)
  unfolding get insert
  get-insert k j v m = ground (arith, shard.get-insert k j v (m.shards (hash j % 16)))

  pub get-remove : (k j : K) (m : ShardedMap) → get j (remove k m).0 ≡ ite (dec j k) none (get j m)
  unfolding get remove
  get-remove k j m = ground (arith, shard.get-remove k j (m.shards (hash j % 16)))

  pub insert_old : (k : K) (v : V) (m : ShardedMap) → (insert k v m).1 ≡ get k m
  unfolding get insert
  insert_old k v m = shard.insert_old k v (m.shards (shard_index k))

  pub remove_old : (k : K) (m : ShardedMap) → (remove k m).1 ≡ get k m
  unfolding get remove
  remove_old k m = shard.remove_old k (m.shards (shard_index k))

  pub get-empty : (k : K) → get k empty ≡ none
  unfolding get
  get-empty k = shard.get-new k

  pub contains_key-get : (k : K) (m : ShardedMap) → contains_key k m ≡ is_some (get k m)
  unfolding get contains_key
  contains_key-get k m = refl
