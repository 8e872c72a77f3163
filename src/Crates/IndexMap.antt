-- ===== src/Crates/IndexMap.antt =====
-- `indexmap::IndexMap`, as override_store/lru.rs uses it: a map that keeps the order of insertion.
use shadowfs.Base.{◌≡◌, Option, List, [], lookup, put, without}

pub record IndexMap {K : Type 0} (dec : Discrete K) (V : Type 0) : Type 1 where
  pub Map : Type 0
  pub new : Map
  pub insert : K → V → Map → Map
  pub shift_remove : K → Map → Map
  pub get : K → Map → Option V
  pub iter : Map → List (K × V)
  pub iter-new : iter new ≡ []
  pub iter-insert : (k : K) (v : V) (m : Map) → iter (insert k v m) ≡ put dec k v (iter m)
  pub iter-shift_remove : (k : K) (m : Map) → iter (shift_remove k m) ≡ without dec k (iter m)
  pub get-iter : (k : K) (m : Map) → get k m ≡ lookup dec k (iter m)
