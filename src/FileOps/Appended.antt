-- ===== src/FileOps/Appended.antt =====
-- Appending in shadowfs-macos, fskit/file_ops.rs, by the sizes that the overrides keep.
use shadowfs.Base.{
  ℕ, suc, ◌+◌, ◌-◌, ◌≡◌, refl, ap, sym, dec_lt, ◌∙◌, [], ◌∷◌, ◌++◌, some, none, length, get_elem?,
  arith, inl, inr,
}
use shadowfs.Crates.Codec.{Bytes}
use shadowfs.Crates.SourceFs.{SourceFs}
use shadowfs.FileOps.{
  FsFileOps, FsFileHandle, handle_at, append, OverrideItem, OverrideStore, FileResult-cases, ok,
}
use shadowfs.FileOps.Buffered.{content_of}
use shadowfs.FileOps.Content.{item_at, write_at, write_item, get_file_size}
use shadowfs.FileOps.CopyOnWrite.{base, bytes_of, write_through-base, write_through-other}
use shadowfs.FileOps.Handles.{with_handle, put_handle}
use shadowfs.FileOps.Places.{get_elem?-write_at, get_elem?-append, get_elem?_end}
use shadowfs.FileOps.Transfer.{on_store, write_through, write, after_write, write_position}

-- Lists with the same element at each place are equal.
same_places : (a b : Bytes) → ((i : ℕ) → get_elem? a i ≡ get_elem? b i) → a ≡ b
same_places [] [] h = refl
same_places [] (y ∷ b) h = absurd (ground (arith, h 0))
same_places (x ∷ a) [] h = absurd (ground (arith, h 0))
same_places (x ∷ a) (y ∷ b) h = ground (arith, h 0, same_places a b (λ i. h (suc i)))

write_at_end : (old new : Bytes) → write_at (length old) new old ≡ old ++ new
write_at_end old new = same_places (write_at (length old) new old) (old ++ new) (λ i.
    elim (dec_lt i (length old + length new)) [
      | yes l ↦
          ground (arith, get_elem?-write_at (length old) new old i, get_elem?-append old new i, l)
      | no g ↦
          let past : get_elem? new (i - length old) ≡ none =
            get_elem?_end new (i - length old) (omega (arith, g)) in
          let beyond : get_elem? old i ≡ none = get_elem?_end old i (omega (arith, g)) in
          ground (
            arith,
            get_elem?-write_at (length old) new old i,
            get_elem?-append old new i,
            g,
            past,
            beyond,
          )
    ])

module _ {P : Type 0} (dec : Discrete P) (source : SourceFs P) where
  -- The size that an item names is the size of its data.
  abbrev pub IsItemSized : OverrideItem P → Type 0
  IsItemSized item = item.attributes.size ≡ length (bytes_of dec source item)

  abbrev pub IsSized : OverrideStore P → Type 0
  IsSized o = (p : P) (item : OverrideItem P) → item_at dec p o ≡ some item → IsItemSized item

  written_sized :
      (path : P) (offset : ℕ) (new : Bytes) (o : OverrideStore P) (item : OverrideItem P)
      → item_at dec path (write_through dec source path offset new o).1 ≡ some item
      → IsItemSized item
  unfolding write_item
  written_sized path offset new o item m =
      let after = write_through-base dec source path offset new o in
      elim (FileResult-cases (base dec source path o)) [
        | inr (e, f) ↦ absurd (ground (arith, after.1, f, m))
        | inl (old, f) ↦
            let same : write_item dec source.now offset new old ≡ item =
              ground (arith, after.1, f, m) in
            rw (← same) refl
      ]

  -- A write keeps the sizes of the overrides true.
  pub write_through-IsSized :
      (path : P) (offset : ℕ) (new : Bytes) (o : OverrideStore P)
      → IsSized o
      → IsSized (write_through dec source path offset new o).1
  unfolding write_item
  write_through-IsSized path offset new o h p item m = elim (dec p path) [
    | yes e ↦
        written_sized path offset new o item
          (ap (λ q. item_at dec q (write_through dec source path offset new o).1) (sym e) ∙ m)
    | no n ↦ h p item (ground (arith, m, (write_through-other dec source path p offset new o n).0))
  ]

  -- Where the sizes that the overrides name are those of their data, for a handle that appends to a
  -- file with an override: a `write` counts all its bytes, adds them at the end of the file, and
  -- leaves the size that the next write begins at.
  pub write-append :
      (id : ℕ) (new : Bytes) (s : FsFileOps P) (h : FsFileHandle P) (item : OverrideItem P)
      → handle_at id s ≡ some h
      → h.mode ≡ append
      → item_at dec h.path s.override_store ≡ some item
      → IsSized s.override_store
      → ((write dec source id new s).0 ≡ ok (length new))
        × (content_of (item_at dec h.path (write dec source id new s).1.override_store)
            ≡ some (bytes_of dec source item ++ new))
        × (get_file_size dec source h.path (write dec source id new s).1.override_store
            ≡ ok (length (bytes_of dec source item ++ new)))
  unfolding write with_handle write_position after_write on_store put_handle get_file_size base
      write_item
  write-append id new s h item m a there sized =
      let size = item.attributes.size in
      let after = write_through-base dec source h.path size new s.override_store in
      let whole : write_at size new (bytes_of dec source item) ≡ bytes_of dec source item ++ new =
        ap (λ n. write_at n new (bytes_of dec source item)) (sized h.path item there)
        ∙ write_at_end (bytes_of dec source item) new in
      (
        ground (arith, m, a, there, after),
        ground (arith, m, a, there, after, whole),
        ground (arith, m, a, there, after, ap length whole),
      )
