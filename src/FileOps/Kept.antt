-- ===== src/FileOps/Kept.antt =====
-- What holds between the handles and the overrides of shadowfs-macos, fskit/file_ops.rs.
use shadowfs.Base.{
  ℕ, ◌+◌, ◌%◌, ◌^◌, ◌<◌, ◌≡◌, refl, ◌∙◌, some, not, ◌&&◌, ltb, arith, lookup-put, ℕ_discrete, inl,
  inr, length, Bool-cases, Option-cases,
}
use shadowfs.Crates.Codec.{Bytes}
use shadowfs.Crates.SourceFs.{SourceFs}
use shadowfs.FileOps.{
  FsFileOps, FsFileHandle, handle_at, can_read, can_write, FileResult, FileResult-cases, ok, err,
}
use shadowfs.FileOps.Appended.{IsSized, write_through-IsSized}
use shadowfs.FileOps.Content.{get_file_size, read_content}
use shadowfs.FileOps.Handles.{
  with_handle, put_handle, setup_read_context, setup_write_context, for_reading, for_writing, seek,
  SeekWhence, seek_target, after_seek,
}
use shadowfs.FileOps.Transfer.{
  on_store, write_through, read, after_read, cached_range, write, write_position, after_write,
  mark_dirty, pwrite,
}
use shadowfs.Locks.Manager.{FileLockManager}

module _ {P : Type 0} (dec : Discrete P) (source : SourceFs P) where
  -- A handle stands under its own number, which was given out; and the sizes of the overrides are true.
  pub record IsTracked (s : FsFileOps P) : Type 0 where
    pub numbered : (id : ℕ) (h : FsFileHandle P) → handle_at id s ≡ some h → h.id ≡ id
    pub fresh : (id : ℕ) (h : FsFileHandle P) → handle_at id s ≡ some h → id < s.next_handle_id
    pub sized : IsSized dec source s.override_store

  abbrev pub Answer : Type 0 → Type 0
  Answer A = FileResult A × FsFileOps P

  -- Sound, with the same number to be given out next.
  abbrev pub Keeps : FsFileOps P → FsFileOps P → Type 0
  Keeps s t = IsTracked t × (t.next_handle_id ≡ s.next_handle_id)

  pub with_locks :
      (m : FileLockManager P) (s : FsFileOps P)
      → IsTracked s
      → Keeps s (record s { lock_manager = m })
  with_locks m s h = (record { numbered = h.numbered; fresh = h.fresh; sized = h.sized }, refl)

  pub updated :
      (id : ℕ) (h k : FsFileHandle P) (s : FsFileOps P)
      → IsTracked s
      → handle_at id s ≡ some h
      → k.id ≡ h.id
      → Keeps s (put_handle k s)
  unfolding put_handle
  updated id h k s i m e =
      let own = i.numbered id h m in
      let given = i.fresh id h m in
      (
        record {
          numbered =
              λ j x y. ground (arith, lookup-put ℕ_discrete k.id j k s.handles, i.numbered j x, y);
          fresh = λ j x y.
              ground
                (arith, lookup-put ℕ_discrete k.id j k s.handles, i.fresh j x, y, own, given, e);
          sized = i.sized;
        },
        refl,
      )

  pub written :
      (path : P) (offset : ℕ) (new : Bytes) (s : FsFileOps P)
      → IsTracked s
      → Keeps s (on_store dec source (write_through dec source path offset new) s).1
  unfolding on_store
  written path offset new s i = (
    record {
      numbered = i.numbered;
      fresh = i.fresh;
      sized = write_through-IsSized dec source path offset new s.override_store i.sized;
    },
    refl,
  )

  pub setup_read_context-Keeps :
      (id : ℕ) (s : FsFileOps P) → IsTracked s → Keeps s (setup_read_context id s).1
  unfolding setup_read_context with_handle
  setup_read_context-Keeps id s i = elim (Option-cases (handle_at id s)) [
    | inl a ↦ rw (setup_read_context, with_handle, a) (i, refl)
    | inr (h, m) ↦ elim (Bool-cases (can_read h.mode)) [
      | inr n ↦ rw (setup_read_context, with_handle, m, n) (i, refl)
      | inl y ↦
          rw (setup_read_context, with_handle, m, y)
            (updated id h (record h { context = for_reading h.context }) s i m refl)
    ]
  ]

  pub setup_write_context-Keeps :
      (id : ℕ) (s : FsFileOps P) → IsTracked s → Keeps s (setup_write_context id s).1
  unfolding setup_write_context with_handle
  setup_write_context-Keeps id s i = elim (Option-cases (handle_at id s)) [
    | inl a ↦ rw (setup_write_context, with_handle, a) (i, refl)
    | inr (h, m) ↦ elim (Bool-cases (can_write h.mode)) [
      | inr n ↦ rw (setup_write_context, with_handle, m, n) (i, refl)
      | inl y ↦
          rw (setup_write_context, with_handle, m, y)
            (updated id h (record h { context = for_writing h.context }) s i m refl)
    ]
  ]

  pub seek-Keeps :
      (id offset : ℕ) (whence : SeekWhence) (s : FsFileOps P)
      → IsTracked s
      → Keeps s (seek dec source id offset whence s).1
  unfolding seek with_handle
  seek-Keeps id offset whence s i = elim (Option-cases (handle_at id s)) [
    | inl a ↦ rw (seek, with_handle, a) (i, refl)
    | inr (h, m) ↦ elim (FileResult-cases (get_file_size dec source h.path s.override_store)) [
      | inr (e, f) ↦ rw (seek, with_handle, m, f) (i, refl)
      | inl (n, f) ↦
          let target = seek_target h n offset whence in
          elim (Bool-cases (ltb n target && not (can_write h.mode))) [
            | inl y ↦ rw (seek, with_handle, m, f, y) (i, refl)
            | inr w ↦
                rw (seek, with_handle, m, f, w)
                  (updated id h
                    (record h { position = target; context = after_seek target h.context }) s i m
                    refl)
          ]
    ]
  ]

  pub pwrite-Keeps :
      (id offset : ℕ) (new : Bytes) (s : FsFileOps P)
      → IsTracked s
      → Keeps s (pwrite dec source id offset new s).1
  unfolding pwrite with_handle
  pwrite-Keeps id offset new s i = elim (Option-cases (handle_at id s)) [
    | inl a ↦ rw (pwrite, with_handle, a) (i, refl)
    | inr (h, m) ↦ elim (Bool-cases (can_write h.mode)) [
      | inr n ↦ rw (pwrite, with_handle, m, n) (i, refl)
      | inl y ↦ rw (pwrite, with_handle, m, y) (written h.path offset new s i)
    ]
  ]

  after_read-Keeps :
      (id : ℕ) (h : FsFileHandle P) (b : Bytes) (s : FsFileOps P)
      → IsTracked s
      → handle_at id s ≡ some h
      → Keeps s (after_read dec source h.position h b s)
  unfolding after_read
  after_read-Keeps id h b s i m = elim (Bool-cases (ltb 0 (length b))) [
    | inr n ↦ rw (after_read, n) (i, refl)
    | inl y ↦
        rw (after_read, y)
          (updated id h
            (record h {
              position = (h.position + length b) % 2 ^ 64;
              context = cached_range h.position (length b) h.context;
            })
            s i m refl)
  ]

  pub read-Keeps : (id n : ℕ) (s : FsFileOps P) → IsTracked s → Keeps s (read dec source id n s).1
  unfolding read with_handle
  read-Keeps id n s i = elim (Option-cases (handle_at id s)) [
    | inl a ↦ rw (read, with_handle, a) (i, refl)
    | inr (h, m) ↦ elim (Bool-cases (can_read h.mode)) [
      | inr w ↦ rw (read, with_handle, m, w) (i, refl)
      | inl y ↦
          elim (FileResult-cases (read_content dec source h.path h.position n s.override_store)) [
            | inr (e, f) ↦ rw (read, with_handle, m, y, f) (i, refl)
            | inl (b, f) ↦ rw (read, with_handle, m, y, f) (after_read-Keeps id h b s i m)
          ]
    ]
  ]

  after_write-Keeps :
      (id start : ℕ) (h : FsFileHandle P) (r : Answer ℕ)
      → IsTracked r.1
      → handle_at id r.1 ≡ some h
      → Keeps r.1 (after_write dec source start h r).1
  unfolding after_write
  after_write-Keeps id start h (err e, s) i m = (i, refl)
  after_write-Keeps id start h (ok n, s) i m = elim (Bool-cases (ltb 0 n)) [
    | inr w ↦ rw (after_write, w) (i, refl)
    | inl y ↦
        rw (after_write, y)
          (updated id h
            (record h { position = (start + n) % 2 ^ 64; context = mark_dirty h.context }) s i m
            refl)
  ]

  pub write-Keeps :
      (id : ℕ) (new : Bytes) (s : FsFileOps P) → IsTracked s → Keeps s (write dec source id new s).1
  unfolding write with_handle
  write-Keeps id new s i = elim (Option-cases (handle_at id s)) [
    | inl a ↦ rw (write, with_handle, a) (i, refl)
    | inr (h, m) ↦ elim (Bool-cases (can_write h.mode)) [
      | inr w ↦ rw (write, with_handle, m, w) (i, refl)
      | inl y ↦ elim (FileResult-cases (write_position dec source h s.override_store)) [
        | inr (e, f) ↦ rw (write, with_handle, m, y, f) (i, refl)
        | inl (start, f) ↦
            let r = on_store dec source (write_through dec source h.path start new) s in
            let stored = written h.path start new s i in
            let same : handle_at id r.1 ≡ some h = unfold on_store in m in
            let done = after_write-Keeps id start h r stored.0 same in
            rw (write, with_handle, m, y, f) (done.0, done.1 ∙ stored.1)
      ]
    ]
  ]
