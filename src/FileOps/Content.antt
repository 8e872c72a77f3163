-- ===== src/FileOps/Content.antt =====
-- The files of shadowfs-macos, fskit/file_ops.rs: reading and writing the data of overrides, and the
-- copy that the first write makes.
use shadowfs.Base.{
  ℕ, zero, suc, ◌+◌, ◌-◌, min, [], ◌∷◌, ◌++◌, Option, some, none, leb, if◌then◌else◌, length, take,
  drop, lookup, put, unwrap_or, is_some,
}
use shadowfs.Crates.Codec.{Bytes}
use shadowfs.Crates.SourceFs.{SourceFs, SourceMetadata}
use shadowfs.Error.{done, failed}
use shadowfs.FileOps.{
  OverrideItem, OverrideStore, FileResult, ok, err, file, file_deleted, not_in_override,
  open_failed, seek_failed, read_failed, copy_failed, metadata_failed, size_failed,
}
use shadowfs.Locks.Graph.{holds_path, drop_path}

unfoldable pub zeros : ℕ → Bytes
zeros zero = []
zeros (suc n) = 0 ∷ zeros n

-- `Vec::resize` to a length that is not less.
unfoldable pub resize : ℕ → Bytes → Bytes
unfolding zeros
resize n b = b ++ zeros (n - length b)

-- The bytes from `offset` are overwritten by `new`, and a gap is filled with zeros. A file that grows
-- beyond the memory ends the process, so that the end of the write does not wrap around.
unfoldable pub write_at : ℕ → Bytes → Bytes → Bytes
unfolding resize
write_at offset new old =
    let end_position = offset + length new in
    let grown = resize end_position (resize offset old) in
    take offset grown ++ (new ++ drop end_position grown)

-- What is copied to a buffer of `n` bytes.
unfoldable pub read_from_buffer : Bytes → ℕ → ℕ → Bytes
read_from_buffer content offset n =
    if leb (length content) offset
    then []
    else take (min n (length content - offset)) (drop offset content)

module _ {P : Type 0} (dec : Discrete P) where
  abbrev pub item_at : P → OverrideStore P → Option (OverrideItem P)
  item_at path o = lookup dec path o.items

  unfoldable pub write_item : ℕ → ℕ → Bytes → OverrideItem P → OverrideItem P
  unfolding write_at
  write_item now offset new item =
      let written = write_at offset new (unwrap_or item.data_of []) in
      record item {
        data_of = some written;
        attributes = record (item.attributes) { size = length written; mtime = now };
      }

  module _ (source : SourceFs P) where
    open source use {
      exists, read_file, metadata, open_file, seek_start, read_at, now, current_uid, current_gid,
    }

    unfoldable pub write_to_override :
        P → ℕ → Bytes → OverrideStore P → FileResult ℕ × OverrideStore P
    unfolding write_item
    write_to_override path offset new o = elim (item_at path o) [
      | none ↦ (err not_in_override, o)
      | some item ↦ (
        ok (length new),
        record o { items = put dec path (write_item now offset new item) o.items },
      )
    ]

    unfoldable pub copied : P → Bytes → SourceMetadata → OverrideItem P
    copied path content m = record {
      path = path;
      item_type = file;
      attributes = record {
        size = m.len;
        mode = m.mode;
        uid = m.uid;
        gid = m.gid;
        atime = 0;
        mtime = 0;
        ctime = 0;
      };
      data_of = some content;
    }

    -- 0o644.
    unfoldable pub created : P → OverrideItem P
    created path = record {
      path = path;
      item_type = file;
      attributes = record {
        size = 0;
        mode = 420;
        uid = current_uid;
        gid = current_gid;
        atime = now;
        mtime = now;
        ctime = now;
      };
      data_of = some [];
    }

    unfoldable pub item_for : P → FileResult (OverrideItem P)
    unfolding copied created
    item_for path =
        if exists path
        then elim (read_file path) [
          | failed e ↦ err (copy_failed e)
          | done content ↦ elim (metadata path) [
            | failed e ↦ err (metadata_failed e)
            | done m ↦ ok (copied path content m)
          ]
        ]
        else ok (created path)

    -- The mark of a deletion goes before the file is read.
    unfoldable pub copy_to_override : P → OverrideStore P → FileResult (Unit {0}) × OverrideStore P
    unfolding item_for
    copy_to_override path o =
        let unmarked = record o { deleted_paths = drop_path dec path o.deleted_paths } in
        elim (item_for path) [
          | err e ↦ (err e, unmarked)
          | ok item ↦ (ok tt, record unmarked { items = put dec path item o.items })
        ]

    unfoldable pub ensure_in_override :
        P → OverrideStore P → FileResult (Unit {0}) × OverrideStore P
    unfolding copy_to_override
    ensure_in_override path o =
        if is_some (item_at path o) then (ok tt, o) else copy_to_override path o

    unfoldable pub read_from_source : P → ℕ → ℕ → FileResult Bytes
    read_from_source path offset n = elim (open_file path) [
      | failed e ↦ err (open_failed e)
      | done u ↦ elim (seek_start path offset) [
        | failed e ↦ err (seek_failed e)
        | done v ↦ elim (read_at path offset n) [ failed e ↦ err (read_failed e) | done b ↦ ok b ]
      ]
    ]

    -- What `read` and `pread` do, once they know the path.
    unfoldable pub read_content : P → ℕ → ℕ → OverrideStore P → FileResult Bytes
    unfolding read_from_buffer read_from_source
    read_content path offset n o = elim (item_at path o) [
      | some item ↦ elim item.data_of [
        | some content ↦ ok (read_from_buffer content offset n)
        | none ↦ ok []
      ]
      | none ↦
          if holds_path dec path o.deleted_paths
          then err file_deleted
          else read_from_source path offset n
    ]

    unfoldable pub get_file_size : P → OverrideStore P → FileResult ℕ
    get_file_size path o = elim (item_at path o) [
      | some item ↦ ok item.attributes.size
      | none ↦
          if holds_path dec path o.deleted_paths
          then err file_deleted
          else elim (metadata path) [ failed e ↦ err (size_failed e) | done m ↦ ok m.len ]
    ]

    unfoldable pub cut_item : OverrideItem P → OverrideItem P
    cut_item item = record item {
      data_of = some [];
      attributes = record (item.attributes) { size = 0; mtime = now };
    }

    unfoldable pub cut : P → OverrideStore P → OverrideStore P
    unfolding cut_item
    cut path o = elim (item_at path o) [
      | none ↦ o
      | some item ↦ record o { items = put dec path (cut_item item) o.items }
    ]

    unfoldable pub truncate_file : P → OverrideStore P → FileResult (Unit {0}) × OverrideStore P
    unfolding ensure_in_override cut
    truncate_file path o =
        let r = ensure_in_override path o in
        elim r.0 [ err e ↦ (err e, r.1) | ok u ↦ (ok tt, cut path r.1) ]
