-- ===== src/FileOps.antt =====
-- shadowfs-macos, fskit/file_ops.rs: open files, and the overrides of fskit/operations.rs that they
-- are written to. A file is named by any type of paths with a decidable equality. An error is its kind
-- and what the message quotes; a lock that another thread poisoned is left out.
pub mod Content
pub mod Handles
pub mod Transfer
pub mod LockCalls
pub mod Places
pub mod CopyOnWrite
pub mod ReadWrite
pub mod Restored
pub mod Buffered
pub mod Opened
pub mod Closed
pub mod Appended
pub mod Kept
pub mod Calls
pub mod Runs
use shadowfs.Base.{
  ℕ, ◌≡◌, ◌⊎◌, inl, inr, refl, ◌%◌, ◌^◌, List, [], Option, some, none, Bool, true, false, ◌==◌,
  if◌then◌else◌, lookup, ℕ_discrete,
}
use shadowfs.Crates.Codec.{Bytes}
use shadowfs.Error.{IoError}
use shadowfs.Locks.{LockError}
use shadowfs.Locks.Manager.{FileLockManager}

pub data OpenMode : Type 0 where
  read_only write_only read_write append create truncate exclusive_open : OpenMode

-- `flags & 0x03`.
unfoldable pub from_flags : ℕ → OpenMode
from_flags flags =
    let bits = flags % 4 in
    if bits == 1
    then read_only
    else if bits == 2
    then write_only
    else if bits == 3
    then read_write
    else read_only

abbrev pub can_read : OpenMode → Bool
can_read read_only = true
can_read read_write = true
can_read _ = false

abbrev pub can_write : OpenMode → Bool
can_write write_only = true
can_write read_write = true
can_write append = true
can_write _ = false

abbrev pub is_append : OpenMode → Bool
is_append append = true
is_append _ = false

abbrev pub is_truncate : OpenMode → Bool
is_truncate truncate = true
is_truncate _ = false

-- Of the read cache only whether there is one: nothing is ever put into it.
pub record FileContext : Type 0 where
  pub write_buffer : Bytes
  pub read_cache : Option Bytes
  pub cache_offset : ℕ
  pub cache_length : ℕ
  pub is_dirty : Bool

abbrev pub new_context : FileContext
new_context = record {
  write_buffer = [];
  read_cache = none;
  cache_offset = 0;
  cache_length = 0;
  is_dirty = false;
}

pub record FsFileHandle (P : Type 0) : Type 0 where
  pub id : ℕ
  pub path : P
  pub mode : OpenMode
  pub position : ℕ
  pub ref_count : ℕ
  pub context : Option FileContext

pub data FsItemType : Type 0 where
  file directory symbolic_link : FsItemType

pub record FileAttributes : Type 0 where
  pub size : ℕ
  pub mode : ℕ
  pub uid : ℕ
  pub gid : ℕ
  pub atime : ℕ
  pub mtime : ℕ
  pub ctime : ℕ

pub record OverrideItem (P : Type 0) : Type 0 where
  pub path : P
  pub item_type : FsItemType
  pub attributes : FileAttributes
  pub data_of : Option Bytes

pub record OverrideStore (P : Type 0) : Type 0 where
  pub items : List (P × OverrideItem P)
  pub deleted_paths : List P

pub data FileError : Type 0 where
  handle_not_found handle_exists : ℕ → FileError
  not_for_reading not_for_writing file_deleted not_in_override seek_past_end : FileError
  open_failed seek_failed read_failed copy_failed metadata_failed size_failed : IoError → FileError
  lock_failed : LockError → FileError

pub data FileResult {ℓ} (A : Type ℓ) : Type ℓ where
  ok : A → FileResult A
  err : FileError → FileResult A

pub FileResult-cases {ℓ} :
    {A : Type ℓ} (r : FileResult A) → ((a : A) × (r ≡ ok a)) ⊎ ((e : FileError) × (r ≡ err e))
FileResult-cases (ok a) = inl (a, refl)
FileResult-cases (err e) = inr (e, refl)

pub record FsFileOps (P : Type 0) : Type 0 where
  pub handles : List (ℕ × FsFileHandle P)
  pub next_handle_id : ℕ
  pub lock_manager : FileLockManager P
  pub override_store : OverrideStore P

module _ {P : Type 0} where
  abbrev pub handle_at : ℕ → FsFileOps P → Option (FsFileHandle P)
  handle_at id s = lookup ℕ_discrete id s.handles
