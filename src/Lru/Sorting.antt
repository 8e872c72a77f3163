-- ===== src/Lru/Sorting.antt =====
-- A stable sort, as `slice::sort_by_key` promises: sorted, a permutation, equal keys in their order.
use mathlib.Core.List.{Perm}
use mathlib.Core.List.Perm
use shadowfs.Base.{◌≡◌, List, [], ◌∷◌, Bool, true, false, inl, inr, Bool-cases, if◌then◌else◌}

module _ {A : Type 0} (le : A → A → Bool) where
  unfoldable pub insert_by : A → List A → List A
  insert_by x [] = x ∷ []
  insert_by x (y ∷ l) = let rest = insert_by x l in if le x y then x ∷ y ∷ l else y ∷ rest

  unfoldable pub sort_by : List A → List A
  unfolding insert_by
  sort_by [] = []
  sort_by (x ∷ l) = insert_by x (sort_by l)

  abbrev pub IsBelow : A → List A → Type 0
  IsBelow x [] = Unit
  IsBelow x (y ∷ l) = (le x y ≡ true) × IsBelow x l

  abbrev pub IsSorted : List A → Type 0
  IsSorted [] = Unit
  IsSorted (x ∷ l) = IsBelow x l × IsSorted l

  insert_by-perm : (x : A) (l : List A) → Perm (insert_by x l) (x ∷ l)
  unfolding insert_by
  insert_by-perm x [] = Perm.refl (x ∷ [])
  insert_by-perm x (y ∷ l) = elim (Bool-cases (le x y)) [
    | inl e ↦ rw e (Perm.refl (x ∷ y ∷ l))
    | inr e ↦ rw e (Perm.trans (Perm.cons y (insert_by-perm x l)) (Perm.swap x y l))
  ]

  pub sort_by-perm : (l : List A) → Perm (sort_by l) l
  unfolding sort_by
  sort_by-perm [] = Perm.refl []
  sort_by-perm (x ∷ l) = Perm.trans (insert_by-perm x (sort_by l)) (Perm.cons x (sort_by-perm l))

  module _ (total : (x y : A) → le x y ≡ false → le y x ≡ true)
      (trans : (x y z : A) → le x y ≡ true → le y z ≡ true → le x z ≡ true) where
    IsBelow-trans : (x y : A) (l : List A) → le x y ≡ true → IsBelow y l → IsBelow x l
    IsBelow-trans x y [] e h = tt
    IsBelow-trans x y (z ∷ l) e h = (trans x y z e h.0, IsBelow-trans x y l e h.1)

    IsBelow-insert :
        (x y : A) (l : List A) → le y x ≡ true → IsBelow y l → IsBelow y (insert_by x l)
    unfolding insert_by
    IsBelow-insert x y [] e h = (e, tt)
    IsBelow-insert x y (z ∷ l) e h = elim (Bool-cases (le x z)) [
      | inl p ↦ rw p (e, h)
      | inr p ↦ rw p (h.0, IsBelow-insert x y l e h.1)
    ]

    insert_by-IsSorted : (x : A) (l : List A) → IsSorted l → IsSorted (insert_by x l)
    unfolding insert_by
    insert_by-IsSorted x [] h = (tt, tt)
    insert_by-IsSorted x (y ∷ l) h = elim (Bool-cases (le x y)) [
      | inl e ↦ rw e ((e, IsBelow-trans x y l e h.0), h)
      | inr e ↦ rw e (IsBelow-insert x y l (total x y e) h.0, insert_by-IsSorted x l h.1)
    ]

    pub sort_by-IsSorted : (l : List A) → IsSorted (sort_by l)
    unfolding sort_by
    sort_by-IsSorted [] = tt
    sort_by-IsSorted (x ∷ l) = insert_by-IsSorted x (sort_by l) (sort_by-IsSorted l)
