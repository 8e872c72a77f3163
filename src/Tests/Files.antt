-- ===== src/Tests/Files.antt =====
-- Open files, with numbers as the paths.
use shadowfs.Base.{
  List, ◌-◌, ℕ, ◌+◌, ◌≡◌, ◌≤◌, refl, ap, [], ◌∷◌, ◌++◌, some, none, true, arith, ℕ_discrete, length,
  take, drop, length-take-le, get_elem?, if◌then◌else◌, ltb, ◌-◌, lookup, put,
}
use shadowfs.Crates.Codec.{Bytes}
use shadowfs.Crates.SourceFs.{SourceFs, SourceMetadata}
use shadowfs.Error.{done}
use shadowfs.FileOps.{
  FsFileOps, FsFileHandle, new_context, handle_at, OpenMode, read_write, append, truncate,
  OverrideItem, OverrideStore, ok, err, file_deleted, file,
}
use shadowfs.FileOps.Appended.{write-append, IsSized}
use shadowfs.FileOps.Buffered.{content_of, IsIdle, write_buffered-overwritten}
use shadowfs.FileOps.Closed.{close_handle-released}
use shadowfs.FileOps.Content.{
  ensure_in_override, write_to_override, item_at, write_at, write_item, copied, get_file_size,
  zeros,
}
use shadowfs.FileOps.CopyOnWrite.{base}
use shadowfs.FileOps.Handles.{open_with_mode, opened_position, new_handle}
use shadowfs.FileOps.Handles
use shadowfs.FileOps.Opened.{open_with_mode-kept}
use shadowfs.FileOps.Places.{get_elem?-write_at, length-zeros}
use shadowfs.FileOps.ReadWrite.{pread-pwrite}
use shadowfs.FileOps.Restored.{pwrite-restored}
use shadowfs.FileOps.Handles.{from_start}
use shadowfs.FileOps.Kept.{IsTracked}
use shadowfs.FileOps.Runs.{
  Call, call_open, call_write, call_seek, call_read, call_close, run, run-IsTracked,
}
use shadowfs.FileOps.Transfer.{pread, pwrite, write, write_buffered, close_handle}
use shadowfs.Locks.Graph.{holds_path}
use shadowfs.Locks.Manager.{get_locks}
use shadowfs.Locks.Manager.Released.{of_others}

abbrev bytes : Bytes
bytes = 1 ∷ 2 ∷ 3 ∷ []

abbrev written : Bytes
written = 8 ∷ 9 ∷ []

abbrev eight : Bytes
eight = 8 ∷ []

abbrev about : SourceMetadata
about = record { len = 3; mode = 420; uid = 5; gid = 6 }

within_buffer : (at n : ℕ) (b : Bytes) → take n (drop at bytes) ≡ b → length b ≤ n
within_buffer at n b e = omega (arith, length-take-le n (drop at bytes), ap length e)

-- Every file has the same three bytes.
abbrev source : SourceFs ℕ
source = record {
  exists = λ p. true;
  read_file = λ p. done bytes;
  metadata = λ p. done about;
  open_file = λ p. done tt;
  seek_start = λ p at. done tt;
  read_at = λ p at n. done (take n (drop at bytes));
  now = 9;
  current_uid = 5;
  current_gid = 6;
  read_at-le = λ p at n b e. within_buffer at n b (ground (arith, e));
}

abbrev handle : OpenMode → FsFileHandle ℕ
handle mode = record {
  id = 1;
  path = 7;
  mode = mode;
  position = 0;
  ref_count = 1;
  context = some new_context;
}

abbrev with_store : OpenMode → OverrideStore ℕ → FsFileOps ℕ
with_store mode o = record (Handles.new ℕ_discrete o) {
  handles = (1, handle mode) ∷ [];
  next_handle_id = 2;
}

abbrev untouched : OverrideStore ℕ
untouched = record { items = []; deleted_paths = [] }

abbrev deleted : OverrideStore ℕ
deleted = record { items = []; deleted_paths = 7 ∷ [] }

abbrev item : OverrideItem ℕ
item = record {
  path = 7;
  item_type = file;
  attributes = record { size = 3; mode = 420; uid = 5; gid = 6; atime = 0; mtime = 0; ctime = 0 };
  data_of = some bytes;
}

abbrev overridden : OverrideStore ℕ
overridden = record { items = (7, item) ∷ []; deleted_paths = [] }

first_handle :
    (mode : OpenMode) (o : OverrideStore ℕ) → handle_at 1 (with_store mode o) ≡ some (handle mode)
unfolding lookup ℕ_discrete
first_handle mode o = refl

there : item_at ℕ_discrete 7 overridden ≡ some item
unfolding lookup ℕ_discrete
there = refl

sized : IsSized ℕ_discrete source overridden
unfolding lookup ℕ_discrete
sized p i m = ground (arith, m)

idle : IsIdle ℕ_discrete source 1 7 0 item (with_store read_write overridden)
unfolding base lookup ℕ_discrete
idle = record {
  handle = handle read_write;
  context = new_context;
  open_as = refl;
  own_id = refl;
  own_path = refl;
  own_position = refl;
  readable = refl;
  writable = refl;
  has_context = refl;
  nothing_buffered = refl;
  starts = refl;
}

get_elem?-write_at_example : get_elem? (write_at 5 eight bytes) 4 ≡ (
    if ltb 4 5
    then (if ltb 4 (length bytes) then get_elem? bytes 4 else some 0)
    else if ltb 4 (5 + length eight)
    then get_elem? eight (4 - 5)
    else get_elem? bytes 4)
get_elem?-write_at_example = get_elem?-write_at 5 eight bytes 4

accepted : (pwrite ℕ_discrete source 1 1 written (with_store read_write untouched)).0 ≡ ok 2
unfolding pwrite lookup put ℕ_discrete ensure_in_override write_to_override
accepted = refl

pread-pwrite_example :
    (2 ≡ length written)
    × (pread ℕ_discrete source 1 1 2
          (pwrite ℕ_discrete source 1 1 written (with_store read_write untouched)).1
        ≡ ok written)
pread-pwrite_example =
    pread-pwrite ℕ_discrete source 1 1 written (with_store read_write untouched) (handle read_write)
      2 (first_handle read_write untouched) refl refl accepted

pwrite-restored_example :
    (pread ℕ_discrete source 1 0 3 (with_store read_write deleted) ≡ err file_deleted)
    × (item_at ℕ_discrete 7
          (pwrite ℕ_discrete source 1 1 eight (with_store read_write deleted)).1.override_store
        ≡ some (write_item ℕ_discrete 9 1 eight (copied ℕ_discrete source 7 bytes about)))
    × ((write_item ℕ_discrete 9 1 eight (copied ℕ_discrete source 7 bytes about)).data_of
        ≡ some (write_at 1 eight bytes))
unfolding holds_path lookup ℕ_discrete
pwrite-restored_example =
    pwrite-restored ℕ_discrete source 1 (with_store read_write deleted) (handle read_write) 0 3 1
      eight bytes about
      (record {
        open_as = refl;
        readable = refl;
        writable = refl;
        no_item = refl;
        marked = refl;
        in_source = refl;
      })
      refl refl

-- As many zeros as the buffer holds, and the same of another byte.
write_buffered-overwritten_example :
    (pread ℕ_discrete source 1 0
        (length (zeros 65536))
        (write_buffered ℕ_discrete source 1
          (zeros 65536)
          (write_buffered ℕ_discrete source 1
            (7 ∷ zeros 65536)
            (with_store read_write overridden)).1).1
      ≡ ok (zeros 65536))
    × (content_of (
          item_at ℕ_discrete 7
            (write_buffered ℕ_discrete source 1
              (zeros 65536)
              (write_buffered ℕ_discrete source 1
                (7 ∷ zeros 65536)
                (with_store read_write overridden)).1).1.override_store)
        ≡ some (write_at 0 (zeros 65536) (write_at 0 (7 ∷ zeros 65536) bytes)))
write_buffered-overwritten_example =
    write_buffered-overwritten ℕ_discrete source 1 7 0 (7 ∷ zeros 65536) (zeros 65536) item
      (with_store read_write overridden) idle (omega (arith, length-zeros 65536))
      (omega (arith, length-zeros 65536))

open_with_mode-kept_example :
    ((open_with_mode ℕ_discrete source 7 truncate (with_store append overridden)).1.override_store
      ≡ overridden)
    × ((open_with_mode ℕ_discrete source 7 truncate (with_store append overridden)).0
        ≡ elim (opened_position ℕ_discrete source 7 truncate overridden) [
          | err e ↦ err e
          | ok position ↦ ok (new_handle 2 7 truncate position)
        ])
    × (handle_at 1 (open_with_mode ℕ_discrete source 7 truncate (with_store append overridden)).1
        ≡ elim (opened_position ℕ_discrete source 7 truncate overridden) [
          | err e ↦ handle_at 1 (with_store append overridden)
          | ok position ↦ elim (ℕ_discrete 1 2) [
            | yes e ↦ some (new_handle 2 7 truncate position)
            | no n ↦ handle_at 1 (with_store append overridden)
          ]
        ])
open_with_mode-kept_example =
    open_with_mode-kept ℕ_discrete source 7 truncate (with_store append overridden) 1

closed : (close_handle ℕ_discrete source 1 (with_store read_write untouched)).0 ≡ ok tt
unfolding close_handle lookup ℕ_discrete
closed = refl

close_handle-released_example :
    (handle_at 1 (close_handle ℕ_discrete source 1 (with_store read_write untouched)).1 ≡ none)
    × (get_locks ℕ_discrete 7
          (close_handle ℕ_discrete source 1 (with_store read_write untouched)).1.lock_manager
        ≡ of_others 1 (get_locks ℕ_discrete 7 (with_store read_write untouched).lock_manager))
close_handle-released_example =
    close_handle-released ℕ_discrete source 1 7 (with_store read_write untouched) closed

write-append_example :
    ((write ℕ_discrete source 1 eight (with_store append overridden)).0 ≡ ok 1)
    × (content_of (
          item_at ℕ_discrete 7
            (write ℕ_discrete source 1 eight (with_store append overridden)).1.override_store)
        ≡ some (bytes ++ eight))
    × (get_file_size ℕ_discrete source 7
          (write ℕ_discrete source 1 eight (with_store append overridden)).1.override_store
        ≡ ok (length (bytes ++ eight)))
write-append_example =
    write-append ℕ_discrete source 1 eight (with_store append overridden) (handle append) item
      (first_handle append overridden) refl there sized

abbrev session : List (Call ℕ_discrete source)
session =
    call_open 7 read_write
    ∷ call_write 1 written
    ∷ call_seek 1 0 from_start
    ∷ call_read 1 2
    ∷ call_close 1
    ∷ []

run-IsTracked_example :
    IsTracked ℕ_discrete source (run ℕ_discrete source session (Handles.new ℕ_discrete overridden))
run-IsTracked_example = run-IsTracked ℕ_discrete source session overridden sized (omega arith)
