-- ===== src/XattrCache/Rounds.antt =====
-- How the number of rounds bears on the loops of `evict_lru` and `put` of shadowfs-macos,
-- fskit/xattr_cache.rs.
use shadowfs.Base.{
  ℕ, zero, suc, ◌≡◌, ◌⊎◌, inl, inr, refl, List, [], ◌∷◌, ◌++◌, Option, none, some, Bool, true,
  false, leb, arith, Option-cases, Bool-cases,
}
use shadowfs.Path.Chars.{Text}
use shadowfs.XattrCache.{CacheKey, CacheConfig, XattrCache, find}
use shadowfs.XattrCache.Put.{
  evict_from, evict_lru, is_over, make_room, after_evict, put_attr, new_entry,
}

-- One of two runs has not come back, or they answer the same.
abbrev pub Agree {ℓ} : {A : Type ℓ} → Option A → Option A → Type ℓ
Agree a b = (a ≡ none) ⊎ ((b ≡ none) ⊎ (a ≡ b))

pub Agree-some {ℓ} :
    {A : Type ℓ} (a b : Option A) (x y : A) → Agree a b → a ≡ some x → b ≡ some y → x ≡ y
Agree-some a b x y h e f = ground (arith, h, e, f)

module _ (config : CacheConfig) where
  evict_from-agrees :
      (n m : ℕ) (q : List CacheKey) (s : XattrCache)
      → Agree (evict_from config n q s) (evict_from config m q s)
  unfolding evict_from
  evict_from-agrees zero m q s = inl refl
  evict_from-agrees (suc n) zero q s = inr (inl refl)
  evict_from-agrees (suc n) (suc m) [] s = inr (inr refl)
  evict_from-agrees (suc n) (suc m) (k ∷ q) s = elim (Option-cases (find k s)) [
    | inl a ↦ rw (evict_from, a) (evict_from-agrees n m q s)
    | inr (e, f) ↦ elim (Bool-cases (leb config.min_access_count e.access_count)) [
      | inl y ↦ rw (evict_from, f, y) (evict_from-agrees n m (q ++ k ∷ []) s)
      | inr w ↦ rw (evict_from, f, w) (inr (inr refl))
    ]
  ]

  turn_agrees :
      (f g : XattrCache → Option XattrCache) (a b : Option (Bool × XattrCache))
      → ((s : XattrCache) → Agree (f s) (g s))
      → Agree a b
      → Agree (after_evict f a) (after_evict g b)
  unfolding after_evict
  turn_agrees f g none b h k = inl refl
  turn_agrees f g (some x) none h k = inr (inl refl)
  turn_agrees f g (some (true, s)) (some (true, t)) h k =
      let same : s ≡ t = ground (arith, k) in rw same (h t)
  turn_agrees f g (some (false, s)) (some (false, t)) h k = inr (inr (ground (arith, k)))
  turn_agrees f g (some (true, s)) (some (false, t)) h k = absurd (ground (arith, k))
  turn_agrees f g (some (false, s)) (some (true, t)) h k = absurd (ground (arith, k))

  make_room-agrees :
      (n m i j size : ℕ) (s : XattrCache)
      → Agree (make_room config n i size s) (make_room config m j size s)
  unfolding make_room
  make_room-agrees n m zero j size s = inl refl
  make_room-agrees n m (suc i) zero size s = inr (inl refl)
  make_room-agrees n m (suc i) (suc j) size s = elim (Bool-cases (is_over config size s)) [
    | inr w ↦ rw (make_room, w) (inr (inr refl))
    | inl y ↦
        rw (make_room, y)
          (turn_agrees (make_room config n i size) (make_room config m j size)
            (evict_lru config n s) (evict_lru config m s) (λ t. make_room-agrees n m i j size t)
            (evict_from-agrees n m s.lru_queue s))
  ]

  pub put_attr-agrees :
      (n m now : ℕ) (path attr_name : Text) (value : Option (List ℕ)) (s : XattrCache)
      → Agree
          (put_attr config n now path attr_name value s)
          (put_attr config m now path attr_name value s)
  unfolding put_attr
  put_attr-agrees n m now path attr_name value s =
      ground (arith, make_room-agrees n m n m (new_entry now path attr_name value).size s)

  -- Where an eviction comes back with something evicted, and no number of turns is enough after it,
  -- none is enough before it.
  pub stuck_before :
      (rounds size : ℕ) (s t : XattrCache)
      → is_over config size s ≡ true
      → evict_lru config rounds s ≡ some (true, t)
      → ((n i : ℕ) → make_room config n i size t ≡ none)
      → (n i : ℕ) → make_room config n i size s ≡ none
  unfolding make_room after_evict
  stuck_before rounds size s t y back h n zero = refl
  stuck_before rounds size s t y back h n (suc i) = elim (Option-cases (evict_lru config n s)) [
    | inl a ↦ rw (make_room, y, a) refl
    | inr (r, f) ↦
        let same : (true, t) ≡ r =
          Agree-some (evict_lru config rounds s) (evict_lru config n s) (true, t) r
            (evict_from-agrees rounds n s.lru_queue s) back f in
        rw (make_room, y, f, ← same) (h n i)
  ]
