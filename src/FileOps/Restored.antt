-- ===== src/FileOps/Restored.antt =====
-- What a write to a deleted file does in shadowfs-macos, fskit/file_ops.rs.
use shadowfs.Base.{ℕ, ◌≡◌, some, none, true, arith}
use shadowfs.Crates.Codec.{Bytes}
use shadowfs.Crates.SourceFs.{SourceFs, SourceMetadata}
use shadowfs.Error.{done, failed, IoError}
use shadowfs.FileOps.{
  FsFileOps, FsFileHandle, handle_at, can_read, can_write, err, file_deleted, copy_failed,
}
use shadowfs.FileOps.Content.{
  item_at, write_item, write_at, item_for, copied, read_content, read_from_source,
  ensure_in_override, copy_to_override,
}
use shadowfs.FileOps.CopyOnWrite.{base, write_through-base, holds_path-drop_path}
use shadowfs.FileOps.Handles.{with_handle}
use shadowfs.FileOps.Transfer.{on_store, write_through, pwrite, pread}
use shadowfs.Locks.Graph.{holds_path}

module _ {P : Type 0} (dec : Discrete P) (source : SourceFs P) (id : ℕ) (s : FsFileOps P)
    (h : FsFileHandle P) where
  -- A handle for reading and writing, whose file is deleted in the overrides and exists in the source.
  pub record IsDeleted : Type 0 where
    pub open_as : handle_at id s ≡ some h
    pub readable : can_read h.mode ≡ true
    pub writable : can_write h.mode ≡ true
    pub no_item : item_at dec h.path s.override_store ≡ none
    pub marked : holds_path dec h.path s.override_store.deleted_paths ≡ true
    pub in_source : source.exists h.path ≡ true

  refused : (at n : ℕ) → IsDeleted → pread dec source id at n s ≡ err file_deleted
  unfolding pread read_content
  refused at n d = ground (arith, d.open_as, d.readable, d.no_item, d.marked)

  -- For a handle that may read and write on a file that is deleted in the overrides and can be read
  -- in the source: reads are refused before; after a `pwrite`, the file has the bytes of the source
  -- again, with the new ones at their place.
  pub pwrite-restored :
      (at n offset : ℕ) (new content : Bytes) (m : SourceMetadata)
      → IsDeleted
      → source.read_file h.path ≡ done content
      → source.metadata h.path ≡ done m
      → (pread dec source id at n s ≡ err file_deleted)
        × (item_at dec h.path (pwrite dec source id offset new s).1.override_store
            ≡ some (write_item dec source.now offset new (copied dec source h.path content m)))
        × ((write_item dec source.now offset new (copied dec source h.path content m)).data_of
            ≡ some (write_at offset new content))
  unfolding pwrite with_handle on_store base item_for write_item copied
  pwrite-restored at n offset new content m d r k =
      let after = write_through-base dec source h.path offset new s.override_store in
      (
        refused at n d,
        ground (arith, after.1, d.open_as, d.writable, d.no_item, d.in_source, r, k),
        ground arith,
      )

  -- Where the source cannot be read: the write is refused, and the next read of the file that was
  -- deleted goes to the source.
  pub pwrite-unmarked :
      (at n offset : ℕ) (new : Bytes) (e : IoError)
      → IsDeleted
      → source.read_file h.path ≡ failed e
      → (pread dec source id at n s ≡ err file_deleted)
        × ((pwrite dec source id offset new s).0 ≡ err (copy_failed e))
        × (pread dec source id at n (pwrite dec source id offset new s).1
            ≡ read_from_source dec source h.path at n)
  unfolding pwrite with_handle on_store item_for pread read_content write_through ensure_in_override
      copy_to_override
  pwrite-unmarked at n offset new e d r =
      let gone = holds_path-drop_path dec h.path h.path s.override_store.deleted_paths in
      (
        refused at n d,
        ground (arith, d.open_as, d.writable, d.no_item, d.in_source, r),
        ground (arith, d.open_as, d.writable, d.readable, d.no_item, d.in_source, r, gone),
      )
