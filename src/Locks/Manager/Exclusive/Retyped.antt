-- ===== src/Locks/Manager/Exclusive/Retyped.antt =====
-- Locks of shadowfs-macos, fskit/file_locking.rs, whose type changes: downgrades and upgrades.
use shadowfs.Base.{
  ℕ, ◌<◌, ◌≡◌, ◌≢◌, sym, subst, ◌∙◌, Bool-cases, inl, inr, List, [], ◌∷◌, true, false, ◌==◌, All,
  arith, Option, some,
}
use shadowfs.Locks.{
  FileLock, LockType, shared, exclusive, ByteRange, locks_compatible, ranges_overlap, both_shared,
}
use shadowfs.Locks.Held.{set_type, find_lock, in_the_way}
use shadowfs.Locks.Manager.Exclusive.{Fits, Apart, Pairwise, locks_compatible_comm}

-- A shared lock stands in the way of no more than any lock does.
compatible_shared :
    (t u : LockType) (a b : Option ByteRange)
    → locks_compatible t u a b ≡ true
    → locks_compatible t shared a b ≡ true
unfolding locks_compatible both_shared
compatible_shared shared u a b h = ground arith
compatible_shared exclusive shared a b h = ground arith
compatible_shared exclusive exclusive a b h = ground arith

compatible_clear :
    (t u : LockType) (a b : Option ByteRange)
    → ranges_overlap a b ≡ false
    → locks_compatible t u a b ≡ true
unfolding locks_compatible
compatible_clear t u a b h = ground arith

All-set_type-shared :
    (a : FileLock) (n : ℕ) (l : List FileLock)
    → All (Apart a) l
    → All (Apart a) (set_type n shared l)
unfolding set_type
All-set_type-shared a n [] h = tt
All-set_type-shared a n (b ∷ l) h =
    ground
      (arith, All-set_type-shared a n l, compatible_shared a.lock_type b.lock_type a.range b.range)

pub All-set_type-id :
    (m n : ℕ) (t : LockType) (l : List FileLock)
    → All (λ a. a.lock_id < m) l
    → All (λ a. a.lock_id < m) (set_type n t l)
unfolding set_type
All-set_type-id m n t [] h = tt
All-set_type-id m n t (b ∷ l) h = ground (arith, All-set_type-id m n t l)

Fits-shared : (a b : FileLock) → Fits a b → Fits (record a { lock_type = shared }) b
Fits-shared a b h f =
    locks_compatible_comm shared b.lock_type a.range b.range
    ∙ compatible_shared b.lock_type a.lock_type b.range a.range
        (locks_compatible_comm b.lock_type a.lock_type b.range a.range ∙ h f)

All-shared :
    (a : FileLock) (l : List FileLock)
    → All (Apart a) l
    → All (Apart (record a { lock_type = shared })) l
All-shared a [] h = tt
All-shared a (b ∷ l) h = ((h.0.0, Fits-shared a b h.0.1), All-shared a l h.1)

pub Pairwise-set_type-shared :
    (n : ℕ) (l : List FileLock) → Pairwise Apart l → Pairwise Apart (set_type n shared l)
unfolding set_type
Pairwise-set_type-shared n [] h = tt
Pairwise-set_type-shared n (a ∷ l) h =
    ground (arith, All-shared a l, All-set_type-shared a n l, Pairwise-set_type-shared n l)

-- A lock does not overlap with any lock of another number.
abbrev pub IsClear : FileLock → FileLock → Type 0
IsClear l o = o.lock_id ≢ l.lock_id → ranges_overlap l.range o.range ≡ false

pub in_the_way-IsClear :
    (x : FileLock) (l : List FileLock) → in_the_way x l ≡ [] → All (IsClear x) l
unfolding in_the_way
in_the_way-IsClear x [] h = tt
in_the_way-IsClear x (a ∷ l) h = ground (arith, in_the_way-IsClear x l)

pub find_lock-lock_id :
    (n : ℕ) (l : List FileLock) (x : FileLock) → find_lock n l ≡ some x → x.lock_id ≡ n
unfolding find_lock
find_lock-lock_id n [] x h = ground arith
find_lock-lock_id n (a ∷ l) x h = ground (arith, find_lock-lock_id n l x)

Fits-clear :
    (a x : FileLock) (t : LockType)
    → ranges_overlap x.range a.range ≡ false
    → Fits a (record x { lock_type = t })
Fits-clear a x t h f =
    locks_compatible_comm a.lock_type t a.range x.range
    ∙ compatible_clear t a.lock_type x.range a.range h

-- The first lock of a number, at the front of a list or further on.
module _ (n : ℕ) (a : FileLock) (l : List FileLock) where
  set_type_here :
      (t : LockType)
      → (a.lock_id == n) ≡ true
      → set_type n t (a ∷ l) ≡ record a { lock_type = t } ∷ l
  unfolding set_type
  set_type_here t h = ground arith

  set_type_there :
      (t : LockType) → (a.lock_id == n) ≡ false → set_type n t (a ∷ l) ≡ a ∷ set_type n t l
  unfolding set_type
  set_type_there t h = ground arith

  find_lock_here : (x : FileLock) → (a.lock_id == n) ≡ true → find_lock n (a ∷ l) ≡ some x → a ≡ x
  unfolding find_lock
  find_lock_here x h e = let e' : some a ≡ some x = ground arith in cc

  find_lock_there : (a.lock_id == n) ≡ false → find_lock n (a ∷ l) ≡ find_lock n l
  unfolding find_lock
  find_lock_there h = ground arith

-- The other locks stay apart from a lock that is retyped, as it overlaps with none of them.
All-set_type :
    (a x : FileLock) (t : LockType) (l : List FileLock)
    → find_lock x.lock_id l ≡ some x
    → ranges_overlap x.range a.range ≡ false
    → All (Apart a) l
    → All (Apart a) (set_type x.lock_id t l)
unfolding set_type
All-set_type a x t [] e c h = tt
All-set_type a x t (b ∷ l) e c h = elim (Bool-cases (b.lock_id == x.lock_id)) [
  | inl f ↦ rw (set_type_here x.lock_id b l t f) (
      let same = find_lock_here x.lock_id b l x f e in
      (
        (
          h.0.0,
          subst (λ (y : FileLock). Fits a (record y { lock_type = t })) (sym same)
              (Fits-clear a x t c),
        ),
        h.1,
      ))
  | inr f ↦
      rw (set_type_there x.lock_id b l t f)
        (h.0, All-set_type a x t l (sym (find_lock_there x.lock_id b l f) ∙ e) c h.1)
]

All-clear :
    (x : FileLock) (t : LockType) (l : List FileLock)
    → All (IsClear x) l
    → All (Apart x) l
    → All (Apart (record x { lock_type = t })) l
All-clear x t [] c h = tt
All-clear x t (a ∷ l) c h = (
  (h.0.0, λ f. compatible_clear t a.lock_type x.range a.range (c.0 (λ e. h.0.0 (sym e)))),
  All-clear x t l c.1 h.1,
)

-- The locks stay apart when one is retyped that overlaps with none of the others.
pub Pairwise-set_type :
    (x : FileLock) (t : LockType) (l : List FileLock)
    → find_lock x.lock_id l ≡ some x
    → All (IsClear x) l
    → Pairwise Apart l
    → Pairwise Apart (set_type x.lock_id t l)
unfolding set_type
Pairwise-set_type x t [] e c h = tt
Pairwise-set_type x t (a ∷ l) e c h = elim (Bool-cases (a.lock_id == x.lock_id)) [
  | inl f ↦ rw (set_type_here x.lock_id a l t f) (
      let same = find_lock_here x.lock_id a l x f e in
      (
        subst (λ (y : FileLock). All (Apart (record y { lock_type = t })) l) (sym same)
            (All-clear x t l c.1 (subst (λ (y : FileLock). All (Apart y) l) same h.0)),
        h.1,
      ))
  | inr f ↦
      let later = sym (find_lock_there x.lock_id a l f) ∙ e in
      rw (set_type_there x.lock_id a l t f) (
        All-set_type a x t l later (c.0 (λ g. ground arith)) h.0,
        Pairwise-set_type x t l later c.1 h.1,
      )
]
