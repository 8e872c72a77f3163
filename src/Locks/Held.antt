-- ===== src/Locks/Held.antt =====
-- The loops of shadowfs-macos, fskit/file_locking.rs, over the locks of one file.
use shadowfs.Base.{
  ℕ, List, [], ◌∷◌, Option, none, some, Bool, true, false, not, ◌&&◌, ◌||◌, ◌==◌, if◌then◌else◌,
  filter,
}
use shadowfs.Locks.{
  ByteRange, ranges_overlap, LockType, shared, exclusive, FileLock, locks_compatible,
}

unfoldable pub find_lock : ℕ → List FileLock → Option FileLock
find_lock lock_id [] = none
find_lock lock_id (l ∷ rest) =
    let found = find_lock lock_id rest in if l.lock_id == lock_id then some l else found

unfoldable pub remove_lock : ℕ → List FileLock → List FileLock
remove_lock lock_id [] = []
remove_lock lock_id (l ∷ rest) =
    let others = remove_lock lock_id rest in if l.lock_id == lock_id then rest else l ∷ others

unfoldable pub set_type : ℕ → LockType → List FileLock → List FileLock
set_type lock_id t [] = []
set_type lock_id t (l ∷ rest) =
    let others = set_type lock_id t rest in
    if l.lock_id == lock_id then record l { lock_type = t } ∷ rest else l ∷ others

-- The loop of `can_acquire_lock` over the locks of a file, and the one of `is_range_locked`.
unfoldable pub all_compatible : ℕ → LockType → Option ByteRange → List FileLock → Bool
all_compatible owner t range [] = true
all_compatible owner t range (l ∷ rest) =
    let others = all_compatible owner t range rest in
    if l.owner == owner
    then others
    else if locks_compatible t l.lock_type range l.range
    then others
    else false

unfoldable pub is_exclusive : LockType → Bool
is_exclusive shared = false
is_exclusive exclusive = true

unfoldable pub any_locked : ByteRange → Bool → List FileLock → Bool
any_locked range for_write [] = false
any_locked range for_write (l ∷ rest) =
    let others = any_locked range for_write rest in
    if (for_write || is_exclusive l.lock_type) && ranges_overlap l.range (some range)
    then true
    else others

unfoldable pub other_owners : ℕ → List FileLock → List ℕ
other_owners waiter [] = []
other_owners waiter (l ∷ rest) =
    let others = other_owners waiter rest in if l.owner == waiter then others else l.owner ∷ others

-- The other locks of the file that overlap a lock.
unfoldable pub in_the_way : FileLock → List FileLock → List FileLock
in_the_way l file_locks =
    filter (λ o. not (o.lock_id == l.lock_id) && ranges_overlap l.range o.range) file_locks

unfoldable pub owns_one : ℕ → List FileLock → Bool
owns_one owner [] = false
owns_one owner (l ∷ rest) =
    let others = owns_one owner rest in if l.owner == owner then true else others
