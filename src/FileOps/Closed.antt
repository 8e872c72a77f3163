-- ===== src/FileOps/Closed.antt =====
-- Closing files in shadowfs-macos, fskit/file_ops.rs.
use shadowfs.Base.{ℕ, ◌≡◌, none, arith, lookup-without, ℕ_discrete, Option-cases, inl, inr, ap}
use shadowfs.Crates.SourceFs.{SourceFs}
use shadowfs.FileOps.{FsFileOps, handle_at, FileResult-cases, ok}
use shadowfs.FileOps.Handles.{with_handle, put_handle}
use shadowfs.FileOps.Transfer.{flush_handle, close_handle, on_store, forget_count}
use shadowfs.Locks.Manager.{get_locks}
use shadowfs.Locks.Manager.Released.{of_others, get_locks-release_all_locks}

module _ {P : Type 0} (dec : Discrete P) (source : SourceFs P) where
  flush_handle-locks :
      (id : ℕ) (s : FsFileOps P) → (flush_handle dec source id s).1.lock_manager ≡ s.lock_manager
  unfolding flush_handle with_handle on_store put_handle forget_count
  flush_handle-locks id s = ground arith

  -- Where `close_handle` succeeds: its number names no handle any more, and every file has the
  -- locks of the other handles that it had, and no others.
  pub close_handle-released :
      (id : ℕ) (q : P) (s : FsFileOps P)
      → (close_handle dec source id s).0 ≡ ok tt
      → (handle_at id (close_handle dec source id s).1 ≡ none)
        × (get_locks dec q (close_handle dec source id s).1.lock_manager
            ≡ of_others id (get_locks dec q s.lock_manager))
  unfolding close_handle
  close_handle-released id q s h =
      let r = flush_handle dec source id s in
      let kept = flush_handle-locks id s in
      let locks = get_locks-release_all_locks dec id q r.1.lock_manager in
      let gone = lookup-without ℕ_discrete id id r.1.handles in
      elim (FileResult-cases r.0) [
        | inr (e, f) ↦ absurd (ground (arith, f, h))
        | inl (u, f) ↦ elim (Option-cases (handle_at id r.1)) [
          | inl a ↦ absurd (ground (arith, f, a, h))
          | inr (k, m) ↦ (
            ground (arith, f, m, gone),
            ground (
              arith,
              f,
              m,
              locks,
              ap (get_locks dec q) kept,
              ap (λ l. of_others id (get_locks dec q l)) kept,
            ),
          )
        ]
      ]
