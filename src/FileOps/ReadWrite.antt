-- ===== src/FileOps/ReadWrite.antt =====
-- What the reads of shadowfs-macos, fskit/file_ops.rs, find after its writes.
use shadowfs.Base.{ℕ, ◌≡◌, ◌≢◌, refl, ap, ◌∙◌, sym, some, true, length, arith, inl, inr}
use shadowfs.Crates.Codec.{Bytes}
use shadowfs.Crates.SourceFs.{SourceFs}
use shadowfs.FileOps.{
  FsFileOps, FsFileHandle, handle_at, can_read, can_write, OverrideItem, OverrideStore,
  FileResult-cases, ok,
}
use shadowfs.FileOps.Content.{item_at, write_item, read_content}
use shadowfs.FileOps.CopyOnWrite.{base, bytes_of, write_through-base, write_through-other}
use shadowfs.FileOps.Handles.{with_handle}
use shadowfs.FileOps.Places.{read_from_buffer-write_at}
use shadowfs.FileOps.Transfer.{on_store, write_through, pwrite, pread}

module _ {P : Type 0} (dec : Discrete P) (source : SourceFs P) where
  -- What a write that is accepted leaves in the item of its path.
  pub written_item :
      (path : P) (offset : ℕ) (new : Bytes) (o : OverrideStore P) (n : ℕ)
      → (write_through dec source path offset new o).0 ≡ ok n
      → (item : OverrideItem P) × (base dec source path o ≡ ok item)
        × (n ≡ length new)
        × (item_at dec path (write_through dec source path offset new o).1
            ≡ some (write_item dec source.now offset new item))
  written_item path offset new o n h =
      let (answer, item) = write_through-base dec source path offset new o in
      elim (FileResult-cases (base dec source path o)) [
        | inl (i, b) ↦ (i, b, ground (arith, answer, b, h), ground (arith, item, b))
        | inr (e, b) ↦ absurd (ground (arith, answer, b, h))
      ]

  pub read_back :
      (path : P) (offset : ℕ) (new : Bytes) (o : OverrideStore P) (item : OverrideItem P)
      → item_at dec path o ≡ some (write_item dec source.now offset new item)
      → read_content dec source path offset (length new) o ≡ ok new
  unfolding read_content write_item
  read_back path offset new o item h =
      ground (arith, h, read_from_buffer-write_at offset new (bytes_of dec source item))

  module _ (id : ℕ) (offset : ℕ) (new : Bytes) (s : FsFileOps P) (h : FsFileHandle P) where
    pwrite-through :
        handle_at id s ≡ some h
        → can_write h.mode ≡ true
        → pwrite dec source id offset new s
          ≡ on_store dec source (write_through dec source h.path offset new) s
    unfolding pwrite with_handle
    pwrite-through m w = rw (pwrite, with_handle, m, w) refl

    -- For a handle that may read and write, where a `pwrite` at some offset is accepted: it counts
    -- all the bytes that it was given, and a `pread` of as many bytes at the same offset answers
    -- these bytes.
    pub pread-pwrite :
        (n : ℕ)
        → handle_at id s ≡ some h
        → can_read h.mode ≡ true
        → can_write h.mode ≡ true
        → (pwrite dec source id offset new s).0 ≡ ok n
        → (n ≡ length new)
          × (pread dec source id offset (length new) (pwrite dec source id offset new s).1 ≡ ok new)
    unfolding on_store pread pwrite with_handle
    pread-pwrite n m r w y =
        let through = pwrite-through m w in
        let accepted : (write_through dec source h.path offset new s.override_store).0 ≡ ok n =
          ap (λ x. x.0) (sym through) ∙ y in
        let (item, b, count, there) = written_item h.path offset new s.override_store n accepted in
        let found =
          read_back h.path offset new
            (write_through dec source h.path offset new s.override_store).1 item there in
        (count, ground (arith, m, r, w, found))

    -- A write through a handle leaves what handles of other paths read.
    pub pread-pwrite_other :
        (j at n : ℕ) (k : FsFileHandle P)
        → handle_at id s ≡ some h
        → handle_at j s ≡ some k
        → k.path ≢ h.path
        → pread dec source j at n (pwrite dec source id offset new s).1 ≡ pread dec source j at n s
    unfolding pwrite with_handle on_store pread read_content
    pread-pwrite_other j at n k m f ne =
        let (item, marks) =
          write_through-other dec source h.path k.path offset new s.override_store ne in
        ground (arith, m, f, item, marks)
