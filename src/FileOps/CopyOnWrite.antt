-- ===== src/FileOps/CopyOnWrite.antt =====
-- What the first write to a file does to the overrides of shadowfs-macos, fskit/file_ops.rs.
use shadowfs.Base.{
  ℕ, ◌≡◌, ◌≢◌, List, [], ◌∷◌, some, none, false, length, put, lookup-put, unwrap_or, arith,
  Option-cases, inl, inr, ite,
}
use shadowfs.Crates.Codec.{Bytes}
use shadowfs.Crates.SourceFs.{SourceFs}
use shadowfs.FileOps.{OverrideItem, OverrideStore, FileResult, FileResult-cases, ok, err}
use shadowfs.FileOps.Content.{
  item_at, write_item, write_to_override, item_for, copy_to_override, ensure_in_override,
}
use shadowfs.FileOps.Transfer.{write_through}
use shadowfs.Locks.Graph.{holds_path, drop_path}

module _ {P : Type 0} (dec : Discrete P) where
  pub holds_path-drop_path :
      (p q : P) (l : List P)
      → holds_path dec q (drop_path dec p l) ≡ ite (dec q p) false (holds_path dec q l)
  unfolding holds_path drop_path
  holds_path-drop_path p q [] = ground arith
  holds_path-drop_path p q (r ∷ l) = ground (arith, holds_path-drop_path p q l)

  module _ (source : SourceFs P) where
    -- The data that a write to a path starts from: the override's, or what the source has, whether the
    -- path is marked as deleted or not.
    unfoldable pub base : P → OverrideStore P → FileResult (OverrideItem P)
    base path o = elim (item_at dec path o) [
      | some item ↦ ok item
      | none ↦ item_for dec source path
    ]

    abbrev pub bytes_of : OverrideItem P → Bytes
    bytes_of item = unwrap_or item.data_of []

    -- What `ensure_in_override` and `write_to_override` together do: the write fails where the copy
    -- does; otherwise the item of the path has the data that it starts from, with the new bytes at
    -- their place.
    pub write_through-base :
        (path : P) (offset : ℕ) (new : Bytes) (o : OverrideStore P)
        → ((write_through dec source path offset new o).0
            ≡ elim (base path o) [ err e ↦ err e | ok item ↦ ok (length new) ])
          × (item_at dec path (write_through dec source path offset new o).1 ≡ elim (base path o) [
            | err e ↦ none
            | ok item ↦ some (write_item dec source.now offset new item)
          ])
    unfolding write_through base ensure_in_override copy_to_override write_to_override
    write_through-base path offset new o = elim (Option-cases (item_at dec path o)) [
      | inr (item, m) ↦
          let written = write_item dec source.now offset new item in
          (ground (arith, m), ground (arith, m, lookup-put dec path path written o.items))
      | inl a ↦ elim (FileResult-cases (item_for dec source path)) [
        | inr (e, f) ↦ (ground (arith, a, f), ground (arith, a, f))
        | inl (item, f) ↦
            let written = write_item dec source.now offset new item in
            let copied = put dec path item o.items in
            (
              ground (arith, a, f, lookup-put dec path path item o.items),
              ground (
                arith,
                a,
                f,
                lookup-put dec path path item o.items,
                lookup-put dec path path written copied,
              ),
            )
      ]
    ]

    -- No write changes what other paths have.
    pub write_through-other :
        (path q : P) (offset : ℕ) (new : Bytes) (o : OverrideStore P)
        → q ≢ path
        → (item_at dec q (write_through dec source path offset new o).1 ≡ item_at dec q o)
          × (holds_path dec q (write_through dec source path offset new o).1.deleted_paths
              ≡ holds_path dec q o.deleted_paths)
    unfolding write_through ensure_in_override copy_to_override write_to_override
    write_through-other path q offset new o ne = elim (Option-cases (item_at dec path o)) [
      | inr (item, m) ↦
          let written = write_item dec source.now offset new item in
          (ground (arith, m, lookup-put dec path q written o.items, ne), ground (arith, m))
      | inl a ↦ elim (FileResult-cases (item_for dec source path)) [
        | inr (e, f) ↦ (
          ground (arith, a, f),
          ground (arith, a, f, holds_path-drop_path path q o.deleted_paths, ne),
        )
        | inl (item, f) ↦
            let written = write_item dec source.now offset new item in
            let copied = put dec path item o.items in
            (
              ground (
                arith,
                a,
                f,
                lookup-put dec path path item o.items,
                lookup-put dec path q item o.items,
                lookup-put dec path q written copied,
                ne,
              ),
              ground (
                arith,
                a,
                f,
                lookup-put dec path path item o.items,
                holds_path-drop_path path q o.deleted_paths,
                ne,
              ),
            )
      ]
    ]
