-- ===== src/Lru/Victims.antt =====
-- What is chosen by the loop of `select_victims` in override_store/lru.rs.
use shadowfs.Base.{
  ℕ, ◌+◌, ◌≤◌, ◌<◌, ◌≡◌, ◌≢◌, ◌⊎◌, inl, inr, refl, ap, sym, ◌∙◌, List, [], ◌∷◌, ◌++◌, Option, none,
  some, true, false, Bool-cases, Option-cases, arith, leb, unwrap_or,
}
use shadowfs.Path.{ShadowPath}
use shadowfs.Lru.{pick}

freed_more :
    {Q : Type 0} (target freed n b c : ℕ)
    → c ≡ n + b
    → (target ≤ freed + n + b) ⊎ Q
    → (target ≤ freed + c) ⊎ Q
freed_more target freed n b c e (inl h) = inl (omega arith)
freed_more target freed n b c e (inr q) = inr q

module _ (size_of : ShadowPath → Option ℕ) where
  -- The candidates that have an entry.
  unfoldable pub present : List ShadowPath → List ShadowPath
  present [] = []
  present (p ∷ l) = let rest = present l in elim (size_of p) [ none ↦ rest | some n ↦ p ∷ rest ]

  unfoldable pub bytes_of : List ShadowPath → ℕ
  bytes_of [] = 0
  bytes_of (p ∷ l) = unwrap_or (size_of p) 0 + bytes_of l

  module _ (target freed : ℕ) (p : ShadowPath) (l : List ShadowPath) where
    pick_enough : leb target freed ≡ true → pick size_of target freed (p ∷ l) ≡ []
    unfolding pick
    pick_enough e = ground arith

    pick_absent :
        leb target freed ≡ false
        → size_of p ≡ none
        → (pick size_of target freed (p ∷ l) ≡ pick size_of target freed l)
          × (present (p ∷ l) ≡ present l)
    unfolding pick present
    pick_absent e m = (ground arith, ground arith)

    pick_taken :
        (n : ℕ)
        → leb target freed ≡ false
        → size_of p ≡ some n
        → (pick size_of target freed (p ∷ l) ≡ p ∷ pick size_of target (freed + n) l)
          × (present (p ∷ l) ≡ p ∷ present l)
          × (bytes_of (p ∷ pick size_of target (freed + n) l)
              ≡ n + bytes_of (pick size_of target (freed + n) l))
    unfolding pick present bytes_of
    pick_taken n e m = (ground arith, ground arith, ground arith)

  -- The victims are the first ones of the candidates that have an entry, in the order of the
  -- candidates: together with what was freed before they reach the target, or no candidate with an
  -- entry is left.
  pub pick_enough_or_all :
      (target freed : ℕ) (l : List ShadowPath)
      → (rest : List ShadowPath) × (present l ≡ pick size_of target freed l ++ rest)
        × ((target ≤ freed + bytes_of (pick size_of target freed l)) ⊎ (rest ≡ []))
  unfolding bytes_of
  pick_enough_or_all target freed [] = ([], unfold pick present in refl, inr refl)
  pick_enough_or_all target freed (p ∷ l) = elim (Bool-cases (leb target freed)) [
    | inl e ↦ (
      present (p ∷ l),
      rw (pick_enough target freed p l e),
      rw (pick_enough target freed p l e) (inl (ground arith)),
    )
    | inr e ↦ elim (Option-cases (size_of p)) [
      | inl m ↦
          let (rest, eq, end) = pick_enough_or_all target freed l in
          let (a, b) = pick_absent target freed p l e m in (rest, rw (a, b) eq, rw a end)
      | inr (n, m) ↦
          let (rest, eq, end) = pick_enough_or_all target (freed + n) l in
          let (a, b, c) = pick_taken target freed p l n e m in
          (rest, rw (a, b) (ap (◌∷◌ p) eq), rw a (freed_more target freed n _ _ c end))
    ]
  ]

  pick-nil : (target freed : ℕ) → pick size_of target freed [] ≡ []
  unfolding pick
  pick-nil target freed = refl

  minimal_cons :
      (target freed : ℕ) (p : ShadowPath) (l front : List ShadowPath) (last : ShadowPath) (n : ℕ)
      → leb target freed ≡ false
      → size_of p ≡ some n
      → p ∷ pick size_of target (freed + n) l ≡ front ++ last ∷ []
      → ((rest : List ShadowPath)
          → pick size_of target (freed + n) l ≡ rest ++ last ∷ []
          → freed + n + bytes_of rest < target)
      → freed + bytes_of front < target
  unfolding bytes_of
  minimal_cons target freed p l [] last n e m h ih = ground arith
  minimal_cons target freed p l (q ∷ rest) last n e m h ih = ground (arith, ih rest)

  snoc-ne-nil : (front : List ShadowPath) (last : ShadowPath) → front ++ last ∷ [] ≢ []
  snoc-ne-nil [] last h = cc
  snoc-ne-nil (q ∷ front) last h = cc

  -- Where victims are chosen: without the last of them, the target would not be reached.
  pub pick_minimal :
      (target freed : ℕ) (l front : List ShadowPath) (last : ShadowPath)
      → pick size_of target freed l ≡ front ++ last ∷ []
      → freed + bytes_of front < target
  unfolding bytes_of
  pick_minimal target freed [] front last h =
      absurd (snoc-ne-nil front last (sym h ∙ pick-nil target freed))
  pick_minimal target freed (p ∷ l) front last h = elim (Bool-cases (leb target freed)) [
    | inl e ↦ absurd (snoc-ne-nil front last (sym h ∙ pick_enough target freed p l e))
    | inr e ↦ elim (Option-cases (size_of p)) [
      | inl m ↦
          let (a, b) = pick_absent target freed p l e m in
          pick_minimal target freed l front last (rw a at h)
      | inr (n, m) ↦
          let (a, b, c) = pick_taken target freed p l n e m in
          minimal_cons target freed p l front last n e m (rw a at h)
            (λ rest. pick_minimal target (freed + n) l rest last)
    ]
  ]
