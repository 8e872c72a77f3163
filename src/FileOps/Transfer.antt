-- ===== src/FileOps/Transfer.antt =====
-- Reading, writing, flushing and closing in shadowfs-macos, fskit/file_ops.rs.
use shadowfs.Base.{
  ℕ, ◌+◌, ◌%◌, ◌^◌, [], ◌∷◌, ◌++◌, Option, some, none, Bool, true, false, ◌&&◌, leb, ltb,
  if◌then◌else◌, length, without, is_some, ℕ_discrete,
}
use shadowfs.Crates.Codec.{Bytes}
use shadowfs.Crates.SourceFs.{SourceFs}
use shadowfs.FileOps.{
  FsFileOps, FsFileHandle, FileContext, can_read, can_write, is_append, OverrideStore, FileResult,
  ok, err, handle_not_found, not_for_reading, not_for_writing, handle_at,
}
use shadowfs.FileOps.Content.{read_content, ensure_in_override, write_to_override, get_file_size}
use shadowfs.FileOps.Handles.{put_handle, with_handle}
use shadowfs.Locks.Manager.{release_all_locks}

-- The threshold of `write_buffered`.
abbrev pub buffer_threshold : ℕ
buffer_threshold = 65536

unfoldable pub cached_range : ℕ → ℕ → Option FileContext → Option FileContext
cached_range start n none = none
cached_range start n (some c) =
    if is_some c.read_cache
    then some (record c { cache_offset = start; cache_length = n })
    else some c

unfoldable pub mark_dirty : Option FileContext → Option FileContext
mark_dirty none = none
mark_dirty (some c) = some (record c { is_dirty = true })

unfoldable pub buffered : Bytes → FileContext → FileContext
buffered new c = record c { write_buffer = c.write_buffer ++ new; is_dirty = true }

unfoldable pub not_empty : Bytes → Bool
not_empty [] = false
not_empty (b ∷ l) = true

module _ {P : Type 0} (dec : Discrete P) (source : SourceFs P) where
  -- The override store is changed, whatever the answer.
  unfoldable pub on_store :
      {A : Type 0}
      → (OverrideStore P → FileResult A × OverrideStore P)
      → FsFileOps P
      → FileResult A × FsFileOps P
  on_store f s = let r = f s.override_store in (r.0, record s { override_store = r.1 })

  -- `ensure_in_override` and then `write_to_override`.
  unfoldable pub write_through : P → ℕ → Bytes → OverrideStore P → FileResult ℕ × OverrideStore P
  write_through path offset new o =
      let r = ensure_in_override dec source path o in
      elim r.0 [ err e ↦ (err e, r.1) | ok u ↦ write_to_override dec source path offset new r.1 ]

  unfoldable pub after_read : ℕ → FsFileHandle P → Bytes → FsFileOps P → FsFileOps P
  unfolding cached_range put_handle
  after_read start h b s =
      if ltb 0 (length b)
      then put_handle
          (record h {
            position = (start + length b) % 2 ^ 64;
            context = cached_range start (length b) h.context;
          })
          s
      else s

  unfoldable pub read : ℕ → ℕ → FsFileOps P → FileResult Bytes × FsFileOps P
  unfolding with_handle after_read
  read id n s =
      with_handle id
        (λ h s.
          if can_read h.mode
          then elim (read_content dec source h.path h.position n s.override_store) [
            | err e ↦ (err e, s)
            | ok b ↦ (ok b, after_read h.position h b s)
          ]
          else (err not_for_reading, s))
        s

  unfoldable pub pread : ℕ → ℕ → ℕ → FsFileOps P → FileResult Bytes
  pread id offset n s = elim (handle_at id s) [
    | none ↦ err (handle_not_found id)
    | some h ↦
        if can_read h.mode
        then read_content dec source h.path offset n s.override_store
        else err not_for_reading
  ]

  unfoldable pub after_write :
      ℕ → FsFileHandle P → FileResult ℕ × FsFileOps P → FileResult ℕ × FsFileOps P
  unfolding mark_dirty put_handle
  after_write start h (err e, s) = (err e, s)
  after_write start h (ok n, s) = (
    ok n,
    if ltb 0 n
        then put_handle
            (record h { position = (start + n) % 2 ^ 64; context = mark_dirty h.context }) s
        else s,
  )

  unfoldable pub write_position : FsFileHandle P → OverrideStore P → FileResult ℕ
  write_position h o = if is_append h.mode then get_file_size dec source h.path o else ok h.position

  unfoldable pub write : ℕ → Bytes → FsFileOps P → FileResult ℕ × FsFileOps P
  unfolding with_handle write_position after_write write_through on_store
  write id new s =
      with_handle id
        (λ h s.
          if can_write h.mode
          then elim (write_position h s.override_store) [
            | err e ↦ (err e, s)
            | ok start ↦ after_write start h (on_store (write_through h.path start new) s)
          ]
          else (err not_for_writing, s))
        s

  unfoldable pub pwrite : ℕ → ℕ → Bytes → FsFileOps P → FileResult ℕ × FsFileOps P
  unfolding with_handle write_through on_store
  pwrite id offset new s =
      with_handle id
        (λ h s.
          if can_write h.mode
          then on_store (write_through h.path offset new) s
          else (err not_for_writing, s))
        s

  -- The handle keeps its position.
  unfoldable pub spill : FsFileHandle P → FileContext → FsFileOps P → FileResult ℕ × FsFileOps P
  unfolding put_handle write_through on_store
  spill h c s =
      on_store (write_through h.path h.position c.write_buffer)
        (put_handle (record h { context = some (record c { write_buffer = [] }) }) s)

  unfoldable pub write_buffered : ℕ → Bytes → FsFileOps P → FileResult ℕ × FsFileOps P
  unfolding with_handle buffered spill write put_handle
  write_buffered id new s =
      with_handle id
        (λ h s.
          if can_write h.mode
          then elim h.context [
            | none ↦ write id new s
            | some c ↦
                let c' = buffered new c in
                if leb buffer_threshold (length c'.write_buffer)
                then spill h c' s
                else (ok (length new), put_handle (record h { context = some c' }) s)
          ]
          else (err not_for_writing, s))
        s

  unfoldable pub forget_count : FileResult ℕ × FsFileOps P → FileResult (Unit {0}) × FsFileOps P
  forget_count (err e, s) = (err e, s)
  forget_count (ok n, s) = (ok tt, s)

  unfoldable pub flush_handle : ℕ → FsFileOps P → FileResult (Unit {0}) × FsFileOps P
  unfolding with_handle spill not_empty forget_count
  flush_handle id s =
      with_handle id
        (λ h s. elim h.context [
          | none ↦ (ok tt, s)
          | some c ↦
              if c.is_dirty && not_empty c.write_buffer
              then forget_count (
                  on_store (write_through h.path h.position c.write_buffer) (
                    put_handle
                      (record h {
                        context = some (record c { write_buffer = []; is_dirty = false });
                      })
                      s))
              else (ok tt, s)
        ])
        s

  unfoldable pub close_handle : ℕ → FsFileOps P → FileResult (Unit {0}) × FsFileOps P
  unfolding flush_handle
  close_handle id s =
      let r = flush_handle id s in
      elim r.0 [
        | err e ↦ (err e, r.1)
        | ok u ↦
            let s' = record (r.1) { lock_manager = release_all_locks dec id r.1.lock_manager } in
            if is_some (handle_at id s')
            then (ok tt, record s' { handles = without ℕ_discrete id s'.handles })
            else (err (handle_not_found id), s')
      ]
