-- ===== src/Locks/Manager/Exclusive/Sharing.antt =====
-- Who may use a byte of a file under the locks of shadowfs-macos, fskit/file_locking.rs.
use shadowfs.Base.{
  ℕ, zero, suc, ◌+◌, ◌^◌, ◌<◌, ◌≡◌, ◌≢◌, refl, sym, ap, subst, ◌∙◌, List, [], ◌∷◌, true, All, arith,
  Option, some, none, length, get_elem?,
}
use shadowfs.Locks.{FileLock, LockType, ByteRange, both_shared, locks_compatible, ranges_overlap}
use shadowfs.Locks.Bytes.{IsProper, Covers, overlaps-Covers}
use shadowfs.Locks.Manager
use shadowfs.Locks.Manager.{get_locks}
use shadowfs.Locks.Manager.Exclusive.{Apart, Pairwise, locks_compatible_comm}
use shadowfs.Locks.Manager.Exclusive.Calls.{LockCall, run, run-IsSafe, new-IsSafe}

-- A lock on no range is on every byte.
abbrev pub Touches : Option ByteRange → ℕ → Type 0
Touches none x = Unit
Touches (some r) x = IsProper r × Covers r x

ranges_overlap-Touches :
    (x : ℕ) (a b : Option ByteRange) → Touches a x → Touches b x → ranges_overlap a b ≡ true
unfolding ranges_overlap
ranges_overlap-Touches x (some a) (some b) h k = (overlaps-Covers a b h.0 k.0).1 (x, h.1, k.1)
ranges_overlap-Touches x (some a) none h k = refl
ranges_overlap-Touches x none b h k = refl

shared_by :
    (t u : LockType) (a b : Option ByteRange)
    → ranges_overlap a b ≡ true
    → locks_compatible t u a b ≡ true
    → both_shared t u ≡ true
unfolding locks_compatible
shared_by t u a b h k = ground arith

All-get_elem? :
    (Q : FileLock → Type 0) (l : List FileLock) (i : ℕ) (b : FileLock)
    → All Q l
    → get_elem? l i ≡ some b
    → Q b
All-get_elem? Q [] i b h e = absurd (ground arith)
All-get_elem? Q (a ∷ l) zero b h e = let same : a ≡ b = cc in subst Q same h.0
All-get_elem? Q (a ∷ l) (suc i) b h e = All-get_elem? Q l i b h.1 e

-- Wherever they stand in the list.
Pairwise-get_elem? :
    (l : List FileLock) (i j : ℕ) (a b : FileLock)
    → Pairwise Apart l
    → get_elem? l i ≡ some a
    → get_elem? l j ≡ some b
    → a.owner ≢ b.owner
    → locks_compatible a.lock_type b.lock_type a.range b.range ≡ true
Pairwise-get_elem? [] i j a b h e f ne = absurd (ground arith)
Pairwise-get_elem? (c ∷ l) zero zero a b h e f ne =
    let same : a ≡ b = cc in absurd (ne (ap (λ (y : FileLock). y.owner) same))
Pairwise-get_elem? (c ∷ l) zero (suc j) a b h e f ne =
    let same : c ≡ a = cc in
    (All-get_elem? (Apart a) l j b (subst (λ (y : FileLock). All (Apart y) l) same h.0) f).1 ne
Pairwise-get_elem? (c ∷ l) (suc i) zero a b h e f ne =
    let same : c ≡ b = cc in
    locks_compatible_comm a.lock_type b.lock_type a.range b.range
    ∙ (All-get_elem? (Apart b) l i a (subst (λ (y : FileLock). All (Apart y) l) same h.0) e).1
        (λ g. ne (sym g))
Pairwise-get_elem? (c ∷ l) (suc i) (suc j) a b h e f ne = Pairwise-get_elem? l i j a b h.1 e f ne

module _ {P : Type 0} (dec : Discrete P) where
  -- After any sequence of fewer than 2^64 - 1 calls of `try_acquire_lock`, `release_lock`,
  -- `upgrade_lock`, `downgrade_lock` and `release_all_locks` from an empty manager: where locks of
  -- two owners on one file are on a common byte, by ranges that are not empty and end below 2^64 or
  -- as locks of the whole file, both locks are shared.
  pub run-both_shared :
      (calls : List (LockCall dec)) (path : P) (i j : ℕ) (a b : FileLock) (x : ℕ)
      → 1 + length calls < 2 ^ 64
      → get_elem? (get_locks dec path (run dec calls (Manager.new dec))) i ≡ some a
      → get_elem? (get_locks dec path (run dec calls (Manager.new dec))) j ≡ some b
      → a.owner ≢ b.owner
      → Touches a.range x
      → Touches b.range x
      → both_shared a.lock_type b.lock_type ≡ true
  run-both_shared calls path i j a b x h e f ne p q =
      shared_by a.lock_type b.lock_type a.range b.range
        (ranges_overlap-Touches x a.range b.range p q)
        (Pairwise-get_elem? _ i j a b
          (run-IsSafe dec calls (Manager.new dec) h (new-IsSafe dec) path).0 e f ne)
