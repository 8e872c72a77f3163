-- ===== src/FileOps/Calls.antt =====
-- What buffered writes, flushing, opening and closing keep in shadowfs-macos, fskit/file_ops.rs.
use shadowfs.Base.{
  ℕ, ◌+◌, ◌%◌, ◌^◌, ◌<◌, ◌≡◌, refl, subst, sym, ◌∙◌, [], some, false, ◌&&◌, leb, arith, lookup-put,
  lookup-without, without, ℕ_discrete, inl, inr, is_some, length, Bool-cases, Option-cases,
}
use shadowfs.Crates.Codec.{Bytes}
use shadowfs.Crates.SourceFs.{SourceFs}
use shadowfs.FileOps.{
  FsFileOps, FsFileHandle, FileContext, handle_at, OpenMode, can_write, OverrideStore, FileResult,
  FileResult-cases, ok, err,
}
use shadowfs.FileOps.Appended.{IsSized}
use shadowfs.FileOps.Handles.{with_handle, put_handle, open_with_mode, new_handle, opened_position}
use shadowfs.FileOps.Kept.{IsTracked, Keeps, with_locks, updated, written, write-Keeps}
use shadowfs.FileOps.Opened.{never_cut}
use shadowfs.FileOps.Transfer.{
  on_store, write_through, write_buffered, buffered, spill, flush_handle, forget_count, not_empty,
  close_handle, buffer_threshold,
}
use shadowfs.Locks.Manager.{release_all_locks}

module _ {P : Type 0} (dec : Discrete P) (source : SourceFs P) where
  spill-Keeps :
      (id : ℕ) (h : FsFileHandle P) (c d : FileContext) (new : Bytes) (s : FsFileOps P)
      → IsTracked dec source s
      → handle_at id s ≡ some h
      → Keeps dec source s
          (on_store dec source
            (write_through dec source h.path h.position new)
            (put_handle (record h { context = some d }) s)).1
  spill-Keeps id h c d new s i m =
      let k = record h { context = some d } in
      let first = updated dec source id h k s i m refl in
      let second = written dec source h.path h.position new (put_handle k s) first.0 in
      (second.0, second.1 ∙ first.1)

  pub write_buffered-Keeps :
      (id : ℕ) (new : Bytes) (s : FsFileOps P)
      → IsTracked dec source s
      → Keeps dec source s (write_buffered dec source id new s).1
  unfolding write_buffered with_handle spill
  write_buffered-Keeps id new s i = elim (Option-cases (handle_at id s)) [
    | inl a ↦ rw (write_buffered, with_handle, a) (i, refl)
    | inr (h, m) ↦ elim (Bool-cases (can_write h.mode)) [
      | inr n ↦ rw (write_buffered, with_handle, m, n) (i, refl)
      | inl y ↦ elim (Option-cases h.context) [
        | inl a ↦ rw (write_buffered, with_handle, m, y, a) (write-Keeps dec source id new s i)
        | inr (c, f) ↦
            let c' = buffered new c in
            elim (Bool-cases (leb buffer_threshold (length c'.write_buffer))) [
              | inl g ↦
                  rw (write_buffered, with_handle, m, y, f, g)
                    (spill-Keeps id h c (record c' { write_buffer = [] }) c'.write_buffer s i m)
              | inr g ↦
                  rw (write_buffered, with_handle, m, y, f, g)
                    (updated dec source id h (record h { context = some c' }) s i m refl)
            ]
      ]
    ]
  ]

  forget_count-Keeps :
      (s : FsFileOps P) (r : FileResult ℕ × FsFileOps P)
      → Keeps dec source s r.1
      → Keeps dec source s (forget_count dec source r).1
  unfolding forget_count
  forget_count-Keeps s (ok n, t) h = h
  forget_count-Keeps s (err e, t) h = h

  pub flush_handle-Keeps :
      (id : ℕ) (s : FsFileOps P)
      → IsTracked dec source s
      → Keeps dec source s (flush_handle dec source id s).1
  unfolding flush_handle with_handle
  flush_handle-Keeps id s i = elim (Option-cases (handle_at id s)) [
    | inl a ↦ rw (flush_handle, with_handle, a) (i, refl)
    | inr (h, m) ↦ elim (Option-cases h.context) [
      | inl a ↦ rw (flush_handle, with_handle, m, a) (i, refl)
      | inr (c, f) ↦ elim (Bool-cases (c.is_dirty && not_empty c.write_buffer)) [
        | inr n ↦ rw (flush_handle, with_handle, m, f, n) (i, refl)
        | inl y ↦
            rw (flush_handle, with_handle, m, f, y)
              (forget_count-Keeps s _ (
                spill-Keeps id h c (record c { write_buffer = []; is_dirty = false }) c.write_buffer
                  s i m))
      ]
    ]
  ]

  without-Keeps :
      (id : ℕ) (s : FsFileOps P)
      → IsTracked dec source s
      → Keeps dec source s (record s { handles = without ℕ_discrete id s.handles })
  without-Keeps id s i = (
    record {
      numbered =
          λ j h m. ground (arith, lookup-without ℕ_discrete id j s.handles, i.numbered j h, m);
      fresh = λ j h m. ground (arith, lookup-without ℕ_discrete id j s.handles, i.fresh j h, m);
      sized = i.sized;
    },
    refl,
  )

  pub close_handle-Keeps :
      (id : ℕ) (s : FsFileOps P)
      → IsTracked dec source s
      → Keeps dec source s (close_handle dec source id s).1
  unfolding close_handle
  close_handle-Keeps id s i =
      let r = flush_handle dec source id s in
      let kept = flush_handle-Keeps id s i in
      let s' = record (r.1) { lock_manager = release_all_locks dec id r.1.lock_manager } in
      let locked = with_locks dec source (release_all_locks dec id r.1.lock_manager) r.1 kept.0 in
      let gone = without-Keeps id s' locked.0 in
      elim (FileResult-cases r.0) [
        | inr (e, f) ↦ rw (close_handle, f) kept
        | inl (u, f) ↦ elim (Bool-cases (is_some (handle_at id s'))) [
          | inl y ↦ rw (close_handle, f, y) (gone.0, gone.1 ∙ (locked.1 ∙ kept.1))
          | inr n ↦ rw (close_handle, f, n) (locked.0, locked.1 ∙ kept.1)
        ]
      ]

  -- Opening gives out one more number.
  pub open-IsTracked :
      (path : P) (mode : OpenMode) (s : FsFileOps P)
      → IsTracked dec source s
      → s.next_handle_id + 1 < 2 ^ 64
      → IsTracked dec source (open_with_mode dec source path mode s).1
        × ((open_with_mode dec source path mode s).1.next_handle_id ≡ s.next_handle_id + 1)
  unfolding open_with_mode put_handle new_handle
  open-IsTracked path mode s i l =
      let same = never_cut dec source path mode s.override_store in
      let next : (s.next_handle_id + 1) % 2 ^ 64 ≡ s.next_handle_id + 1 = omega (arith, l) in
      elim (FileResult-cases (opened_position dec source path mode s.override_store)) [
        | inr (e, f) ↦
            rw (open_with_mode, f)
              (
                record {
                  numbered = i.numbered;
                  fresh = λ j h m. omega (arith, i.fresh j h m, next);
                  sized = i.sized;
                },
                next,
              )
        | inl (position, f) ↦
            let k = new_handle s.next_handle_id path mode position in
            rw (open_with_mode, f, same)
              (
                record {
                  numbered = λ j h m.
                      ground (arith, lookup-put ℕ_discrete k.id j k s.handles, i.numbered j h, m);
                  fresh = λ j h m.
                      ground
                        (arith, lookup-put ℕ_discrete k.id j k s.handles, i.fresh j h, m, next);
                  sized =
                      subst
                        (λ (r : FileResult (Unit {0}) × OverrideStore P). IsSized dec source r.1)
                        (sym same) i.sized;
                },
                next,
              )
      ]
