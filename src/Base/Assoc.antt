-- ===== src/Base/Assoc.antt =====
-- Association lists with at most one entry for a key: what the laws of a map are stated by.
use Prim.Native.Nat.{ℕ, ◌+◌}
use mathlib.Core.Path.{◌≡◌, refl}
use mathlib.Core.Logic.{ite}
use mathlib.Core.List.{List, [], ◌∷◌, ◌++◌, map}
use mathlib.Core.Option.{Option, none, some}
use native.Mathlib.Omega.{arith}
use shadowfs.Base.Lists.{length, sum}
use shadowfs.Base.Tests.{is_some, if◌then◌else◌}

module _ {ℓ} {K V : Type ℓ} where
  abbrev pub keys : List (K × V) → List K
  keys [] = []
  keys ((k, v) ∷ l) = k ∷ keys l

module _ {ℓ} {K V : Type ℓ} (dec : Discrete K) where
  unfoldable pub lookup : K → List (K × V) → Option V
  lookup k [] = none
  lookup k ((j, v) ∷ l) = ite (dec k j) (some v) (lookup k l)

  -- A write in place, or at the end for a new key.
  unfoldable pub put : K → V → List (K × V) → List (K × V)
  put k v [] = (k, v) ∷ []
  put k v ((j, w) ∷ l) = ite (dec k j) ((k, v) ∷ l) ((j, w) ∷ put k v l)

  -- Every other entry, in the order that they had.
  unfoldable pub without : K → List (K × V) → List (K × V)
  without k [] = []
  without k ((j, w) ∷ l) = let rest = without k l in ite (dec k j) rest ((j, w) ∷ rest)

  abbrev pub IsDistinct : List (K × V) → Type ℓ
  IsDistinct [] = Unit
  IsDistinct ((k, v) ∷ l) = (lookup k l ≡ none) × IsDistinct l

  pub lookup-put :
      (k j : K) (v : V) (l : List (K × V))
      → lookup j (put k v l) ≡ ite (dec j k) (some v) (lookup j l)
  unfolding lookup put
  lookup-put k j v [] = refl
  lookup-put k j v ((i, w) ∷ l) = ground (arith, lookup-put k j v l)

  pub lookup-without :
      (k j : K) (l : List (K × V)) → lookup j (without k l) ≡ ite (dec j k) none (lookup j l)
  unfolding lookup without
  lookup-without k j [] = ground arith
  lookup-without k j ((i, w) ∷ l) = ground (arith, lookup-without k j l)

  pub lookup-append :
      (j : K) (l m : List (K × V))
      → lookup j (l ++ m) ≡ elim (lookup j l) [ none ↦ lookup j m | some v ↦ some v ]
  unfolding lookup
  lookup-append j [] m = refl
  lookup-append j ((i, w) ∷ l) m = ground (arith, lookup-append j l m)

  pub without_absent : (k : K) (l : List (K × V)) → lookup k l ≡ none → without k l ≡ l
  unfolding lookup without
  without_absent k [] h = refl
  without_absent k ((i, w) ∷ l) h = ground (arith, without_absent k l)

  pub put_absent :
      (k : K) (v : V) (l : List (K × V)) → lookup k l ≡ none → put k v l ≡ l ++ (k, v) ∷ []
  unfolding lookup put
  put_absent k v [] h = refl
  put_absent k v ((i, w) ∷ l) h = ground (arith, put_absent k v l)

  pub put-IsDistinct : (k : K) (v : V) (l : List (K × V)) → IsDistinct l → IsDistinct (put k v l)
  unfolding lookup put
  put-IsDistinct k v [] h = (refl, tt)
  put-IsDistinct k v ((i, w) ∷ l) h = ground (arith, put-IsDistinct k v l, lookup-put k i v l)

  pub without-IsDistinct : (k : K) (l : List (K × V)) → IsDistinct l → IsDistinct (without k l)
  unfolding lookup without
  without-IsDistinct k [] h = tt
  without-IsDistinct k ((i, w) ∷ l) h = ground (arith, without-IsDistinct k l, lookup-without k i l)

  pub length-put :
      (k : K) (v : V) (l : List (K × V))
      → length (put k v l) ≡ (if is_some (lookup k l) then length l else length l + 1)
  unfolding lookup put
  length-put k v [] = omega arith
  length-put k v ((i, w) ∷ l) = ground (arith, length-put k v l)

  pub length-without :
      (k : K) (l : List (K × V))
      → IsDistinct l
      → length l ≡ (if is_some (lookup k l) then length (without k l) + 1 else length (without k l))
  unfolding lookup without
  length-without k [] h = omega arith
  length-without k ((i, w) ∷ l) h = ground (arith, length-without k l, without_absent k l)

-- A total over the entries, each with a weight of its own.
module _ {ℓ} {K V : Type ℓ} (f : K → V → ℕ) where
  unfoldable pub weigh : List (K × V) → ℕ
  weigh [] = 0
  weigh ((k, v) ∷ l) = f k v + weigh l

module _ {ℓ} {K V : Type ℓ} (dec : Discrete K) (f : K → V → ℕ) where
  abbrev pub weight_at : K → Option V → ℕ
  weight_at k none = 0
  weight_at k (some v) = f k v

  pub weigh-without :
      (k : K) (l : List (K × V))
      → IsDistinct dec l
      → weigh f l ≡ weight_at k (lookup dec k l) + weigh f (without dec k l)
  unfolding lookup without weigh
  weigh-without k [] h = omega arith
  weigh-without k ((i, w) ∷ l) h = ground (arith, weigh-without k l, without_absent dec k l)

  -- The total depends on what is stored at each key, and on nothing else.
  pub weigh_ext :
      (l m : List (K × V))
      → IsDistinct dec l
      → IsDistinct dec m
      → ((k : K) → lookup dec k l ≡ lookup dec k m)
      → weigh f l ≡ weigh f m
  unfolding weigh lookup
  weigh_ext [] [] hl hm e = refl
  weigh_ext [] ((k, v) ∷ m) hl hm e = ground (arith, e k)
  weigh_ext ((k, v) ∷ l) m hl hm e =
      let same : (j : K) → lookup dec j l ≡ lookup dec j (without dec k m) =
        λ j. ground (arith, lookup-without dec k j m, e j) in
      let rest : weigh f l ≡ weigh f (without dec k m) =
        weigh_ext l (without dec k m) hl.1 (without-IsDistinct dec k m hm) same in
      ground (arith, e k, rest, weigh-without k m hm)

module _ {K V : Type 0} (g : V → ℕ) where
  pub sum-map-weigh : (l : List (K × V)) → sum (map (λ e. g e.1) l) ≡ weigh (λ (_ : K) v. g v) l
  unfolding weigh
  sum-map-weigh [] = refl
  sum-map-weigh ((k, v) ∷ l) = omega (arith, sum-map-weigh l)
