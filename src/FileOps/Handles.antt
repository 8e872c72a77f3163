-- ===== src/FileOps/Handles.antt =====
-- The open files of shadowfs-macos, fskit/file_ops.rs: opening, contexts, seeking and what is asked
-- about them.
use shadowfs.Base.{
  ℕ, ◌+◌, ◌%◌, ◌^◌, List, [], ◌∷◌, Option, some, none, Bool, true, false, not, ◌&&◌, ◌||◌, ltb, leb,
  if◌then◌else◌, ite, length, filter, map, put, is_some, ℕ_discrete,
}
use shadowfs.Crates.SourceFs.{SourceFs}
use shadowfs.FileOps.{
  FsFileOps, FsFileHandle, FileContext, new_context, OpenMode, can_read, can_write, is_append,
  is_truncate, OverrideStore, FileResult, ok, err, handle_not_found, handle_exists, not_for_reading,
  not_for_writing, seek_past_end, handle_at,
}
use shadowfs.FileOps.Content.{get_file_size, truncate_file}
use shadowfs.Locks.Manager

pub data SeekWhence : Type 0 where
  from_start from_current from_end : SeekWhence

unfoldable pub for_reading : Option FileContext → Option FileContext
for_reading none = none
for_reading (some c) = some (record c { read_cache = some []; cache_offset = 0; cache_length = 0 })

unfoldable pub for_writing : Option FileContext → Option FileContext
for_writing none = none
for_writing (some c) = some (record c { is_dirty = false })

-- The cache holds nothing that a position outside of it could be read from.
unfoldable pub after_seek : ℕ → Option FileContext → Option FileContext
after_seek position none = none
after_seek position (some c) =
    if is_some c.read_cache
      && (ltb position c.cache_offset || leb ((c.cache_offset + c.cache_length) % 2 ^ 64) position)
    then some (record c { cache_length = 0 })
    else some c

module _ {P : Type 0} where
  unfoldable pub put_handle : FsFileHandle P → FsFileOps P → FsFileOps P
  put_handle h s = record s { handles = put ℕ_discrete h.id h s.handles }

  unfoldable pub new_handle : ℕ → P → OpenMode → ℕ → FsFileHandle P
  new_handle id path mode position = record {
    id = id;
    path = path;
    mode = mode;
    position = position;
    ref_count = 1;
    context = some new_context;
  }

  unfoldable pub track_handle : FsFileHandle P → FsFileOps P → FileResult (Unit {0}) × FsFileOps P
  unfolding put_handle
  track_handle h s =
      if is_some (handle_at h.id s) then (err (handle_exists h.id), s) else (ok tt, put_handle h s)

  -- A handle is looked up, and goes on to the rest of a method.
  unfoldable pub with_handle :
      {A : Type 0}
      → ℕ
      → (FsFileHandle P → FsFileOps P → FileResult A × FsFileOps P)
      → FsFileOps P
      → FileResult A × FsFileOps P
  with_handle id rest s = elim (handle_at id s) [
    | none ↦ (err (handle_not_found id), s)
    | some h ↦ rest h s
  ]

  unfoldable pub setup_read_context : ℕ → FsFileOps P → FileResult (Unit {0}) × FsFileOps P
  unfolding with_handle for_reading put_handle
  setup_read_context id s =
      with_handle id
        (λ h s.
          if can_read h.mode
          then (ok tt, put_handle (record h { context = for_reading h.context }) s)
          else (err not_for_reading, s))
        s

  unfoldable pub setup_write_context : ℕ → FsFileOps P → FileResult (Unit {0}) × FsFileOps P
  unfolding with_handle for_writing put_handle
  setup_write_context id s =
      with_handle id
        (λ h s.
          if can_write h.mode
          then (ok tt, put_handle (record h { context = for_writing h.context }) s)
          else (err not_for_writing, s))
        s

  unfoldable pub get_handle : ℕ → FsFileOps P → FileResult (FsFileHandle P)
  get_handle id s = elim (handle_at id s) [ none ↦ err (handle_not_found id) | some h ↦ ok h ]

  abbrev pub get_open_handle_count : FsFileOps P → ℕ
  get_open_handle_count s = length s.handles

  -- The offset is an `i64`, by its 64 bits; so the sums wrap around as those of the code do.
  unfoldable pub seek_target : FsFileHandle P → ℕ → ℕ → SeekWhence → ℕ
  seek_target h file_size offset from_start = offset % 2 ^ 64
  seek_target h file_size offset from_current = (h.position + offset) % 2 ^ 64
  seek_target h file_size offset from_end = (file_size + offset) % 2 ^ 64

module _ {P : Type 0} (dec : Discrete P) where
  abbrev pub new : OverrideStore P → FsFileOps P
  new o = record {
    handles = [];
    next_handle_id = 1;
    lock_manager = Manager.new dec;
    override_store = o;
  }

  unfoldable pub get_handles_for_file : P → FsFileOps P → List (FsFileHandle P)
  get_handles_for_file path s =
      filter (λ h. ite (dec h.path path) true false) (map (λ x. x.1) s.handles)

  unfoldable pub has_open_handles : P → List (ℕ × FsFileHandle P) → Bool
  has_open_handles path [] = false
  has_open_handles path ((id, h) ∷ l) =
      let rest = has_open_handles path l in ite (dec h.path path) true rest

  module _ (source : SourceFs P) where
    -- The truncation that `open_with_mode` asks for.
    unfoldable pub opened_content :
        P → OpenMode → OverrideStore P → FileResult (Unit {0}) × OverrideStore P
    opened_content path mode o =
        if is_truncate mode && can_write mode then truncate_file dec source path o else (ok tt, o)

    unfoldable pub opened_position : P → OpenMode → OverrideStore P → FileResult ℕ
    opened_position path mode o = if is_append mode then get_file_size dec source path o else ok 0

    -- The path is what the file's item answers.
    unfoldable pub open_with_mode :
        P → OpenMode → FsFileOps P → FileResult (FsFileHandle P) × FsFileOps P
    unfolding opened_content opened_position put_handle new_handle
    open_with_mode path mode s =
        let s' = record s { next_handle_id = (s.next_handle_id + 1) % 2 ^ 64 } in
        elim (opened_position path mode s.override_store) [
          | err e ↦ (err e, s')
          | ok position ↦
              let r = opened_content path mode s.override_store in
              let h = new_handle s.next_handle_id path mode position in
              let s'' = record s' { override_store = r.1 } in
              elim r.0 [ err e ↦ (err e, s'') | ok u ↦ (ok h, put_handle h s'') ]
        ]

    unfoldable pub seek : ℕ → ℕ → SeekWhence → FsFileOps P → FileResult ℕ × FsFileOps P
    unfolding with_handle seek_target after_seek put_handle
    seek id offset whence s =
        with_handle id
          (λ h s. elim (get_file_size dec source h.path s.override_store) [
            | err e ↦ (err e, s)
            | ok file_size ↦
                let new_position = seek_target h file_size offset whence in
                if ltb file_size new_position && not (can_write h.mode)
                then (err seek_past_end, s)
                else (
                  ok new_position,
                  put_handle
                      (record h {
                        position = new_position;
                        context = after_seek new_position h.context;
                      })
                      s,
                )
          ])
          s
