-- ===== src/FileOps/Opened.antt =====
-- Opening files in shadowfs-macos, fskit/file_ops.rs.
use shadowfs.Base.{ℕ, ◌≡◌, refl, some, arith, lookup-put, ℕ_discrete, inl, inr}
use shadowfs.Crates.SourceFs.{SourceFs}
use shadowfs.FileOps.{
  FsFileOps, handle_at, OpenMode, read_only, write_only, read_write, append, create, truncate,
  exclusive_open, OverrideStore, FileResult-cases, ok, err,
}
use shadowfs.FileOps.Handles.{
  open_with_mode, opened_content, opened_position, put_handle, new_handle,
}

module _ {P : Type 0} (dec : Discrete P) (source : SourceFs P) where
  pub never_cut :
      (path : P) (mode : OpenMode) (o : OverrideStore P)
      → opened_content dec source path mode o ≡ (ok tt, o)
  unfolding opened_content
  never_cut path read_only o = refl
  never_cut path write_only o = refl
  never_cut path read_write o = refl
  never_cut path append o = refl
  never_cut path create o = refl
  never_cut path truncate o = refl
  never_cut path exclusive_open o = refl

  -- For any mode, the one that asks for a truncation among them: `open_with_mode` leaves the
  -- overrides as they are; it fails exactly where it needs the size of the file and cannot have it;
  -- otherwise the new handle has the next number and the position of its mode, and the other
  -- handles are as they were.
  pub open_with_mode-kept :
      (path : P) (mode : OpenMode) (s : FsFileOps P) (j : ℕ)
      → ((open_with_mode dec source path mode s).1.override_store ≡ s.override_store)
        × ((open_with_mode dec source path mode s).0
            ≡ elim (opened_position dec source path mode s.override_store) [
              | err e ↦ err e
              | ok position ↦ ok (new_handle s.next_handle_id path mode position)
            ])
        × (handle_at j (open_with_mode dec source path mode s).1
            ≡ elim (opened_position dec source path mode s.override_store) [
              | err e ↦ handle_at j s
              | ok position ↦ elim (ℕ_discrete j s.next_handle_id) [
                | yes e ↦ some (new_handle s.next_handle_id path mode position)
                | no n ↦ handle_at j s
              ]
            ])
  unfolding open_with_mode put_handle
  open_with_mode-kept path mode s j =
      let same = never_cut path mode s.override_store in
      elim (FileResult-cases (opened_position dec source path mode s.override_store)) [
        | inr (e, f) ↦ (ground (arith, f), ground (arith, f), ground (arith, f))
        | inl (position, f) ↦
            let h = new_handle s.next_handle_id path mode position in
            (
              ground (arith, f, same),
              ground (arith, f, same),
              ground (arith, f, same, lookup-put ℕ_discrete h.id j h s.handles),
            )
      ]
