-- ===== src/Crates/LruCache.antt =====
-- `lru::LruCache`, as override_store/optimization.rs uses it. `order` has the entries from the most
-- to the least recently used; a new key in a full cache drops the last one.
pub mod Reads
use shadowfs.Base.{ℕ, ◌≡◌, Option, none, some, List, [], ◌∷◌, lookup, without, take, length}

module _ {K : Type 0} (dec : Discrete K) (V : Type 0) where
  -- The list after an entry that is found has moved to the front.
  abbrev pub promote : K → Option V → List (K × V) → List (K × V)
  promote k none l = l
  promote k (some v) l = (k, v) ∷ without dec k l

  pub record LruCache : Type 1 where
    pub Cache : Type 0
    pub new : ℕ → Cache
    pub get : K → Cache → Cache × Option V
    pub put : K → V → Cache → Cache
    pub pop : K → Cache → Cache × Option V
    pub clear : Cache → Cache
    pub cap : Cache → ℕ
    pub len : Cache → ℕ
    pub order : Cache → List (K × V)
    pub order-new : (n : ℕ) → order (new n) ≡ []
    pub cap-new : (n : ℕ) → cap (new n) ≡ n
    pub get_value : (k : K) (c : Cache) → (get k c).1 ≡ lookup dec k (order c)
    pub order-get :
        (k : K) (c : Cache) → order (get k c).0 ≡ promote k (lookup dec k (order c)) (order c)
    pub cap-get : (k : K) (c : Cache) → cap (get k c).0 ≡ cap c
    pub order-put :
        (k : K) (v : V) (c : Cache)
        → order (put k v c) ≡ take (cap c) ((k, v) ∷ without dec k (order c))
    pub cap-put : (k : K) (v : V) (c : Cache) → cap (put k v c) ≡ cap c
    pub pop_value : (k : K) (c : Cache) → (pop k c).1 ≡ lookup dec k (order c)
    pub order-pop : (k : K) (c : Cache) → order (pop k c).0 ≡ without dec k (order c)
    pub cap-pop : (k : K) (c : Cache) → cap (pop k c).0 ≡ cap c
    pub order-clear : (c : Cache) → order (clear c) ≡ []
    pub cap-clear : (c : Cache) → cap (clear c) ≡ cap c
    pub length-order : (c : Cache) → length (order c) ≡ len c
