-- ===== src/Crates/DashMap/Totals.antt =====
-- Totals over the entries of a map follow its insertions and removals, whatever order `iter` has.
use shadowfs.Base.{
  inl, inr, List-cases, ℕ, ◌+◌, ◌≡◌, refl, ◌∙◌, none, List, [], ◌∷◌, arith, lookup, without,
  lookup-without, without-IsDistinct, length, weigh, weigh-without, weigh_ext, weight_at, is_some,
  if◌then◌else◌,
}
use shadowfs.Crates.DashMap.{DashMap}

module _ {K V : Type 0} (dec : Discrete K) (maps : DashMap dec V) (f : K → V → ℕ) where
  open maps use {
    Map, get, insert, remove, iter, get-insert, get-remove, lookup-iter, iter-IsDistinct,
  }

  lookup-iter-remove :
      (k : K) (m : Map) (j : K)
      → lookup dec j (iter (remove k m).0) ≡ lookup dec j (without dec k (iter m))
  lookup-iter-remove k m j = ground (
    arith,
    lookup-iter j (remove k m).0,
    lookup-iter j m,
    get-remove k j m,
    lookup-without dec k j (iter m),
  )

  -- What is stored at the key leaves the total.
  pub weigh-remove :
      (k : K) (m : Map)
      → weigh f (iter m) ≡ weight_at dec f k (get k m) + weigh f (iter (remove k m).0)
  weigh-remove k m =
      let rest : weigh f (iter (remove k m).0) ≡ weigh f (without dec k (iter m)) =
        weigh_ext dec f _ _ (iter-IsDistinct (remove k m).0)
          (without-IsDistinct dec k (iter m) (iter-IsDistinct m)) (lookup-iter-remove k m) in
      ground (arith, rest, lookup-iter k m, weigh-without dec f k (iter m) (iter-IsDistinct m))

  lookup-iter-insert :
      (k : K) (v : V) (m : Map) (j : K)
      → lookup dec j (iter (insert k v m).0) ≡ lookup dec j ((k, v) ∷ without dec k (iter m))
  unfolding lookup
  lookup-iter-insert k v m j = ground (
    arith,
    lookup-iter j (insert k v m).0,
    lookup-iter j m,
    get-insert k j v m,
    lookup-without dec k j (iter m),
  )

  pub weigh-insert :
      (k : K) (v : V) (m : Map)
      → weight_at dec f k (get k m) + weigh f (iter (insert k v m).0) ≡ f k v + weigh f (iter m)
  unfolding weigh
  weigh-insert k v m =
      let fresh : lookup dec k (without dec k (iter m)) ≡ none =
        ground (arith, lookup-without dec k k (iter m)) in
      let rest : weigh f (iter (insert k v m).0) ≡ weigh f ((k, v) ∷ without dec k (iter m)) =
        weigh_ext dec f _ _ (iter-IsDistinct (insert k v m).0)
          (fresh, without-IsDistinct dec k (iter m) (iter-IsDistinct m))
          (lookup-iter-insert k v m) in
      ground (arith, rest, lookup-iter k m, weigh-without dec f k (iter m) (iter-IsDistinct m))

module _ {K V : Type 0} where
  weigh_one : (l : List (K × V)) → weigh (λ _ _. 1) l ≡ length l
  unfolding weigh
  weigh_one [] = refl
  weigh_one ((k, v) ∷ l) = omega (arith, weigh_one l)

module _ {K V : Type 0} (dec : Discrete K) (maps : DashMap dec V) where
  open maps use {Map, get, insert, remove, iter, len, length-iter, lookup-iter, new, get-new}

  len-weigh : (m : Map) → weigh (λ _ _. 1) (iter m) ≡ len m
  len-weigh m = weigh_one (iter m) ∙ length-iter m

  pub len-insert :
      (k : K) (v : V) (m : Map)
      → len (insert k v m).0 ≡ (if is_some (get k m) then len m else len m + 1)
  len-insert k v m =
      ground
        (arith, len-weigh m, len-weigh (insert k v m).0, weigh-insert dec maps (λ _ _. 1) k v m)

  pub len-remove :
      (k : K) (m : Map)
      → len m ≡ (if is_some (get k m) then len (remove k m).0 + 1 else len (remove k m).0)
  len-remove k m =
      ground (arith, len-weigh m, len-weigh (remove k m).0, weigh-remove dec maps (λ _ _. 1) k m)

  -- An empty map has nothing at any key.
  pub get_of_len-zero : (k : K) (m : Map) → len m ≡ 0 → get k m ≡ none
  unfolding lookup
  get_of_len-zero k m h = elim (List-cases (iter m)) [
    | inl e ↦ ground (arith, lookup-iter k m)
    | inr (x, l, e) ↦ ground (arith, length-iter m)
  ]

  pub len-new : len new ≡ 0
  unfolding lookup
  len-new = elim (List-cases (iter new)) [
    | inl e ↦ ground (arith, length-iter new)
    | inr ((k, v), l, e) ↦ ground (arith, lookup-iter k new, get-new k)
  ]
