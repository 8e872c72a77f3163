-- ===== src/Crates/DashMap.antt =====
-- `dashmap::DashMap`, as override_store/{lru, directory, optimization}.rs use it. `iter` has the
-- entries in an order that the crate does not specify.
pub mod Totals
use shadowfs.Base.{ℕ, ◌≡◌, Option, none, some, List, ite, lookup, length, IsDistinct}

pub record DashMap {K : Type 0} (dec : Discrete K) (V : Type 0) : Type 1 where
  pub Map : Type 0
  pub new : Map
  pub get : K → Map → Option V
  pub insert : K → V → Map → Map × Option V
  pub remove : K → Map → Map × Option V
  pub iter : Map → List (K × V)
  pub len : Map → ℕ
  pub get-new : (k : K) → get k new ≡ none
  pub get-insert :
      (k j : K) (v : V) (m : Map) → get j (insert k v m).0 ≡ ite (dec j k) (some v) (get j m)
  pub insert_old : (k : K) (v : V) (m : Map) → (insert k v m).1 ≡ get k m
  pub get-remove : (k j : K) (m : Map) → get j (remove k m).0 ≡ ite (dec j k) none (get j m)
  pub remove_old : (k : K) (m : Map) → (remove k m).1 ≡ get k m
  pub lookup-iter : (k : K) (m : Map) → lookup dec k (iter m) ≡ get k m
  pub iter-IsDistinct : (m : Map) → IsDistinct dec (iter m)
  pub length-iter : (m : Map) → length (iter m) ≡ len m
