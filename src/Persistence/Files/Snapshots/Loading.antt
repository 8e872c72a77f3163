-- ===== src/Persistence/Files/Snapshots/Loading.antt =====
-- `load_snapshot` after `save_snapshot`, of override_store/persistence.rs.
use shadowfs.Base.{◌≡◌, refl, sym, ap, ◌∙◌, inl, inr, some, Bool-cases, arith}
use shadowfs.Crates.Codec.{Bytes}
use shadowfs.Crates.Fs.{Fs}
use shadowfs.Crates.Hasher.{Hasher}
use shadowfs.Crates.Serde.{Bincode}
use shadowfs.Crates.Zstd.{Zstd}
use shadowfs.Error.{IoResult-cases, done, failed, ok, err}
use shadowfs.Path.{ShadowPath}
use shadowfs.Persistence.{PersistenceConfig}
use shadowfs.Persistence.Files.{LogFile-discrete, snapshot_path}
use shadowfs.Persistence.Files.Snapshots.{
  compress_data, decompress_data, encode_snapshot, save_snapshot, load_snapshot, decode_snapshot,
}
use shadowfs.Persistence.Files.Snapshots.Atomic.{save_snapshot-IsReplaced, flushed}
use shadowfs.Persistence.Snapshot.{SavedEntry, OverrideSnapshot, from_store, restore_to_store}
use shadowfs.Persistence.Snapshot.Restore.{view, restore_to_store-from_store}
use shadowfs.Store.{Env, OverrideStore, OverrideStoreConfig}

decompress_data-compress_data :
    (zstd : Zstd) (config : PersistenceConfig) (d b : Bytes)
    → compress_data zstd config d ≡ ok b
    → decompress_data zstd config b ≡ ok d
unfolding compress_data decompress_data
decompress_data-compress_data zstd config d b h = elim (Bool-cases config.enable_compression) [
  | inr e ↦ ground arith
  | inl e ↦ elim (IoResult-cases (zstd.encode_all d config.compression_level)) [
    | inr (x, f) ↦ absurd (ground arith)
    | inl (c, f) ↦
        let c_b : c ≡ b = ground arith in
        let back = zstd.decode_all-encode_all d c config.compression_level f in ground arith
  ]
]

module _ (fs : Fs LogFile-discrete) (env : Env)
    (hasher : Hasher (OverrideStoreConfig env) SavedEntry) (zstd : Zstd)
    (config : PersistenceConfig) (snapshots : Bincode (OverrideSnapshot env)) where
  encoded-serialized :
      (snapshot : OverrideSnapshot env) (d : Bytes)
      → snapshots.serialize snapshot ≡ done d
      → encode_snapshot fs env hasher zstd config snapshots snapshot ≡ compress_data zstd config d
  unfolding encode_snapshot
  encoded-serialized snapshot d h = rw (encode_snapshot, h) refl

  decoded :
      (d : Bytes) (snapshot : OverrideSnapshot env)
      → snapshots.deserialize d ≡ done snapshot
      → decode_snapshot fs env hasher zstd config snapshots (ok d)
        ≡ restore_to_store env hasher snapshot
  decoded d snapshot l = rw (decode_snapshot, l) refl

  saved_whole :
      (s : OverrideStore env) (disk : fs.Disk) (b : Bytes)
      → let (answer, disk') = (save_snapshot fs env hasher zstd config snapshots s disk).0 in
        encode_snapshot fs env hasher zstd config snapshots (from_store env hasher s).0 ≡ ok b
        → answer ≡ ok tt
        → flushed fs b disk ≡ done tt
        → fs.content snapshot_path disk' ≡ some b
  saved_whole s disk b h a u =
      elim ((save_snapshot-IsReplaced fs env hasher zstd config snapshots s disk b h).0) [
        | inl (same, (x, g)) ↦ let refused : err x ≡ ok tt = sym g ∙ a in absurd (ground arith)
        | inr (front, g, inl e, _) ↦ g ∙ ap some e
        | inr (front, g, inr (part, (x, e)), _) ↦
            let failing : failed x ≡ done (tt {0}) = sym e ∙ u in absurd (ground arith)
      ]

  loaded :
      (disk : fs.Disk) (b d : Bytes) (snapshot : OverrideSnapshot env)
      → fs.read_to_end snapshot_path disk ≡ done (done b)
      → decompress_data zstd config b ≡ ok d
      → snapshots.deserialize d ≡ done snapshot
      → load_snapshot fs env hasher zstd config snapshots disk
        ≡ restore_to_store env hasher snapshot
  unfolding load_snapshot
  loaded disk b d snapshot h k l = rw (load_snapshot, h) (rw k (decoded d snapshot l))

  -- Where the snapshot of a store is serialized, its bytes are deserialized to the same snapshot
  -- and compressed if the configuration says so, `save_snapshot` answers success, a `flush` of its
  -- temporary file would have reported no error, and the file is then read: `load_snapshot`
  -- succeeds, and the store that it answers has the same entries with the same access times, up to
  -- the numbers of their allocations.
  pub load_snapshot-save_snapshot :
      (s : OverrideStore env) (disk : fs.Disk) (d b c : Bytes)
      → let snapshot = (from_store env hasher s).0 in
        let (answer, disk') = (save_snapshot fs env hasher zstd config snapshots s disk).0 in
        snapshots.serialize snapshot ≡ done d
        → snapshots.deserialize d ≡ done snapshot
        → compress_data zstd config d ≡ ok b
        → answer ≡ ok tt
        → flushed fs b disk ≡ done tt
        → fs.read_to_end snapshot_path disk' ≡ done (done c)
        → (t : OverrideStore env) × (load_snapshot fs env hasher zstd config snapshots disk' ≡ ok t)
          × ((p : ShadowPath) → view env p t ≡ view env p s)
  load_snapshot-save_snapshot s disk d b c h k f a u r =
      let encoded = encoded-serialized (from_store env hasher s).0 d h in
      let whole = saved_whole s disk b (encoded ∙ f) a u in
      let read : some b ≡ some c = sym whole ∙ fs.read-content snapshot_path _ c r in
      let b_c : b ≡ c = cc in
      let (t, accepted, views, _, _) = restore_to_store-from_store env hasher s in
      (
        t,
        loaded _ c d (from_store env hasher s).0 r
              (decompress_data-compress_data zstd config d c (f ∙ ap ok b_c)) k
            ∙ accepted,
        λ p. (views p).0,
      )
