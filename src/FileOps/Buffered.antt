-- ===== src/FileOps/Buffered.antt =====
-- Buffered writes through one handle in shadowfs-macos, fskit/file_ops.rs.
use shadowfs.Base.{
  ℕ, ◌≤◌, ◌≡◌, refl, ap, [], ◌++◌, Option, some, none, true, leb, length, arith, lookup-put,
  ℕ_discrete,
}
use shadowfs.Crates.Codec.{Bytes}
use shadowfs.Crates.SourceFs.{SourceFs}
use shadowfs.FileOps.{
  FsFileOps, FsFileHandle, FileContext, handle_at, can_read, can_write, OverrideItem, ok,
}
use shadowfs.FileOps.Content.{item_at, write_item, write_at}
use shadowfs.FileOps.CopyOnWrite.{base, bytes_of, write_through-base}
use shadowfs.FileOps.Handles.{with_handle, put_handle}
use shadowfs.FileOps.ReadWrite.{read_back}
use shadowfs.FileOps.Transfer.{
  on_store, write_through, pread, write_buffered, buffered, spill, buffer_threshold,
}

abbrev pub content_of : {P : Type 0} → Option (OverrideItem P) → Option Bytes
content_of none = none
content_of (some item) = item.data_of

module _ {P : Type 0} (dec : Discrete P) (source : SourceFs P) where
  -- A handle for writing, with a context and nothing buffered, and what its file has.
  pub record IsIdle (id : ℕ) (path : P) (position : ℕ) (item : OverrideItem P) (s : FsFileOps P)
      : Type 0 where
    pub handle : FsFileHandle P
    pub context : FileContext
    pub open_as : handle_at id s ≡ some handle
    pub own_id : handle.id ≡ id
    pub own_path : handle.path ≡ path
    pub own_position : handle.position ≡ position
    pub readable : can_read handle.mode ≡ true
    pub writable : can_write handle.mode ≡ true
    pub has_context : handle.context ≡ some context
    pub nothing_buffered : context.write_buffer ≡ []
    pub starts : base dec source path s.override_store ≡ ok item

  module _ (id : ℕ) (path : P) (position : ℕ) (new : Bytes) (item : OverrideItem P)
      (s : FsFileOps P) (h : IsIdle id path position item s) where
    -- The handle afterwards.
    emptied : FsFileHandle P
    emptied = record (h.handle) {
      context = some (record (buffered new h.context) { write_buffer = [] });
    }

    spilled-through :
        buffer_threshold ≤ length new
        → write_buffered dec source id new s
          ≡ on_store dec source (write_through dec source path position new) (put_handle emptied s)
    unfolding write_buffered with_handle buffered spill emptied
    spilled-through l =
        let whole : h.context.write_buffer ++ new ≡ new = ap (λ b. b ++ new) h.nothing_buffered in
        let big : leb buffer_threshold (length (h.context.write_buffer ++ new)) ≡ true =
          ground (arith, l, ap length whole) in
        rw
          (
            write_buffered, with_handle, h.open_as, h.writable, h.has_context, big, whole,
            h.own_path, h.own_position,
          )
          refl

    -- A large write through an idle handle leaves the handle where it was.
    pub spilled :
        buffer_threshold ≤ length new
        → IsIdle id path position
            (write_item dec source.now position new item)
            (write_buffered dec source id new s).1
          × (item_at dec path (write_buffered dec source id new s).1.override_store
              ≡ some (write_item dec source.now position new item))
    unfolding on_store put_handle base emptied buffered
    spilled l =
        let after = write_through-base dec source path position new s.override_store in
        rw (spilled-through l) (
          record {
            handle = emptied;
            context = record (buffered new h.context) { write_buffer = [] };
            open_as =
                ground (arith, h.own_id, lookup-put ℕ_discrete h.handle.id id emptied s.handles);
            own_id = h.own_id;
            own_path = h.own_path;
            own_position = h.own_position;
            readable = h.readable;
            writable = h.writable;
            has_context = refl;
            nothing_buffered = refl;
            starts = ground (arith, after.1, h.starts);
          },
          ground (arith, after.1, h.starts),
        )

  -- For a handle that may read and write, with an empty buffer, whose file can be copied: of two
  -- buffered writes of at least the threshold in a row, the second is written over the first at the
  -- position of the handle, and a `pread` there answers it.
  pub write_buffered-overwritten :
      (id : ℕ) (path : P) (position : ℕ) (first second : Bytes) (item : OverrideItem P)
      (s : FsFileOps P)
      → IsIdle id path position item s
      → buffer_threshold ≤ length first
      → buffer_threshold ≤ length second
      → (pread dec source id position
            (length second)
            (write_buffered dec source id second (write_buffered dec source id first s).1).1
          ≡ ok second)
        × (content_of (
              item_at dec path
                (write_buffered dec source id second
                  (write_buffered dec source id first s).1).1.override_store)
            ≡ some (write_at position second (write_at position first (bytes_of dec source item))))
  unfolding pread write_item
  write_buffered-overwritten id path position first second item s h l m =
      let one = spilled id path position first item s h l in
      let s1 = (write_buffered dec source id first s).1 in
      let item1 = write_item dec source.now position first item in
      let two = spilled id path position second item1 s1 one.0 m in
      let s2 = (write_buffered dec source id second s1).1 in
      let found = read_back dec source path position second s2.override_store item1 two.1 in
      let k = two.0 in
      (ground (arith, k.open_as, k.readable, k.own_path, found), ground (arith, two.1))
