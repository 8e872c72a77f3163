-- ===== src/Locks/Manager/Exclusive.antt =====
-- Locks of shadowfs-macos, fskit/file_locking.rs, that exclude each other: the lists of locks.
pub mod Retyped
pub mod Granting
pub mod Calls
pub mod Sharing
use shadowfs.Base.{
  ℕ, ◌+◌, ◌<◌, ◌≡◌, ◌≢◌, refl, ap, sym, ◌∙◌, List, [], ◌∷◌, ◌++◌, Bool, true, false, not, ◌&&◌,
  ◌==◌, All, All-append, filter, arith, if◌then◌else◌, Bool-cases, inl, inr, Option, some, none,
}
use shadowfs.Locks.{
  FileLock, LockType, shared, exclusive, ByteRange, locks_compatible, ranges_overlap, both_shared,
}
use shadowfs.Locks.Bytes.{overlaps_comm}
use shadowfs.Locks.Held.{remove_lock, set_type, all_compatible, find_lock, in_the_way, is_exclusive}

-- Two locks of a file, by different owners: the code finds them compatible.
abbrev pub Fits : FileLock → FileLock → Type 0
Fits a b = a.owner ≢ b.owner → locks_compatible a.lock_type b.lock_type a.range b.range ≡ true

abbrev pub Apart : FileLock → FileLock → Type 0
Apart a b = (a.lock_id ≢ b.lock_id) × Fits a b

abbrev pub Pairwise : (FileLock → FileLock → Type 0) → List FileLock → Type 0
Pairwise R [] = Unit
Pairwise R (a ∷ l) = All (R a) l × Pairwise R l

module _ (Q : FileLock → Type 0) where
  pub All-filter : (p : FileLock → Bool) (l : List FileLock) → All Q l → All Q (filter p l)
  All-filter p [] h = tt
  All-filter p (a ∷ l) h = ground (arith, All-filter p l)

  pub All-remove_lock : (n : ℕ) (l : List FileLock) → All Q l → All Q (remove_lock n l)
  unfolding remove_lock
  All-remove_lock n [] h = tt
  All-remove_lock n (a ∷ l) h = ground (arith, All-remove_lock n l)

module _ (R : FileLock → FileLock → Type 0) where
  pub Pairwise-filter :
      (p : FileLock → Bool) (l : List FileLock) → Pairwise R l → Pairwise R (filter p l)
  Pairwise-filter p [] h = tt
  Pairwise-filter p (a ∷ l) h = ground (arith, All-filter (R a) p l, Pairwise-filter p l)

  pub Pairwise-remove_lock :
      (n : ℕ) (l : List FileLock) → Pairwise R l → Pairwise R (remove_lock n l)
  unfolding remove_lock
  Pairwise-remove_lock n [] h = tt
  Pairwise-remove_lock n (a ∷ l) h =
      ground (arith, All-remove_lock (R a) n l, Pairwise-remove_lock n l)

  pub Pairwise-append :
      (l : List FileLock) (x : FileLock)
      → Pairwise R l
      → All (λ a. R a x) l
      → Pairwise R (l ++ x ∷ [])
  Pairwise-append [] x h k = (tt, tt)
  Pairwise-append (a ∷ l) x h k =
      (All-append (R a) l (x ∷ []) h.0 (k.0, tt), Pairwise-append l x h.1 k.1)

ranges_overlap_comm : (a b : Option ByteRange) → ranges_overlap a b ≡ ranges_overlap b a
unfolding ranges_overlap
ranges_overlap_comm (some a) (some b) = overlaps_comm a b
ranges_overlap_comm (some a) none = refl
ranges_overlap_comm none (some b) = refl
ranges_overlap_comm none none = refl

both_shared_comm : (t u : LockType) → both_shared t u ≡ both_shared u t
unfolding both_shared
both_shared_comm shared shared = refl
both_shared_comm shared exclusive = refl
both_shared_comm exclusive shared = refl
both_shared_comm exclusive exclusive = refl

pub locks_compatible_comm :
    (t u : LockType) (a b : Option ByteRange) → locks_compatible t u a b ≡ locks_compatible u t b a
unfolding locks_compatible
locks_compatible_comm t u a b = ground (arith, ranges_overlap_comm a b, both_shared_comm t u)

-- What `can_acquire_lock` asks for.
pub all_compatible-Fits :
    (x : FileLock) (l : List FileLock)
    → all_compatible x.owner x.lock_type x.range l ≡ true
    → All (λ a. Fits a x) l
unfolding all_compatible
all_compatible-Fits x [] h = tt
all_compatible-Fits x (a ∷ l) h =
    ground (
      arith,
      all_compatible-Fits x l,
      locks_compatible_comm a.lock_type x.lock_type a.range x.range,
    )

pub All-Apart :
    (x : FileLock) (n : ℕ) (l : List FileLock)
    → x.lock_id ≡ n
    → All (λ a. a.lock_id < n) l
    → All (λ a. Fits a x) l
    → All (λ a. Apart a x) l
All-Apart x n [] e h k = tt
All-Apart x n (a ∷ l) e h k = ((λ f. omega arith, k.0), All-Apart x n l e h.1 k.1)
