-- ===== src/Locks.antt =====
-- shadowfs-macos, fskit/file_locking.rs: the locks on files and on ranges of their bytes.
pub mod Bytes
pub mod Graph
pub mod Held
pub mod Manager
pub mod Queue
pub mod State
use shadowfs.Base.{ℕ, ◌+◌, ◌%◌, ◌^◌, Option, none, some, Bool, true, false, ◌&&◌, not, ltb, leb}

pub record ByteRange : Type 0 where
  pub start : ℕ
  pub length : ℕ

-- The end of a range, which is a 64-bit number.
unfoldable pub end : ByteRange → ℕ
end r = (r.start + r.length) % 2 ^ 64

unfoldable pub overlaps : ByteRange → ByteRange → Bool
overlaps self other = ltb self.start (end other) && ltb other.start (end self)

unfoldable pub contains : ByteRange → ByteRange → Bool
contains self other = leb self.start other.start && leb (end other) (end self)

pub data LockType : Type 0 where
  shared exclusive : LockType

pub record FileLock : Type 0 where
  pub lock_type : LockType
  pub owner : ℕ
  pub range : Option ByteRange
  pub acquired_at : ℕ
  pub lock_id : ℕ

pub record LockRequest : Type 0 where
  pub requester : ℕ
  pub lock_type : LockType
  pub range : Option ByteRange
  pub requested_at : ℕ
  pub timeout : Option ℕ

-- A lock on no range is a lock on the whole file.
unfoldable pub ranges_overlap : Option ByteRange → Option ByteRange → Bool
ranges_overlap (some a) (some b) = overlaps a b
ranges_overlap _ _ = true

unfoldable pub both_shared : LockType → LockType → Bool
both_shared shared shared = true
both_shared _ _ = false

unfoldable pub locks_compatible : LockType → LockType → Option ByteRange → Option ByteRange → Bool
locks_compatible new_type existing_type new_range existing_range =
    elim (ranges_overlap new_range existing_range) [
      | false ↦ true
      | true ↦ both_shared new_type existing_type
    ]

-- One constructor for each message.
pub data LockError : Type 0 where
  would_cause_deadlock timed_out not_shared not_exclusive other_locks_exist : LockError
  no_locks_found no_condition : LockError
  lock_not_found : ℕ → LockError

pub data LockResult {ℓ} (A : Type ℓ) : Type ℓ where
  ok : A → LockResult A
  err : LockError → LockResult A
