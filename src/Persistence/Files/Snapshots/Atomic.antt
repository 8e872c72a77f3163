-- ===== src/Persistence/Files/Snapshots/Atomic.antt =====
-- What `save_snapshot` and `compact` of override_store/persistence.rs leave of the files, wherever they
-- fail. The temporary file is not flushed before it takes the name of the snapshot, so an error of a write
-- that was still under way is not reported.
use shadowfs.Base.{ℕ, ◌≡◌, refl, sym, ◌++◌, ◌∙◌, ◌⊎◌, inl, inr, [], Option, some, arith}
use mathlib.Core.List.{append-nil}
use shadowfs.Crates.Codec.{Bytes}
use shadowfs.Crates.Crc.{Crc}
use shadowfs.Crates.Fs.{Fs}
use shadowfs.Crates.Hasher.{Hasher}
use shadowfs.Crates.Serde.{Serde, Bincode}
use shadowfs.Crates.Zstd.{Zstd}
use shadowfs.Error.{
  IoResult-cases, IoResult, IoError, done, failed, ShadowError, io_error, Result, ok, err,
}
use shadowfs.Persistence.{PersistenceOp, PersistenceConfig}
use shadowfs.Persistence
use shadowfs.Persistence.Files.{
  LogFile-discrete, wal_path, snapshot_path, temp_path, then_on, finish, append_entry,
  append_operation,
}
use shadowfs.Persistence.Files.Snapshots.{
  replace_snapshot, save_bytes, encode_snapshot, save_snapshot, truncate_after, mark_and_truncate,
  compact_after, compact,
}
use shadowfs.Persistence.Frame.{frame}
use shadowfs.Persistence.Snapshot.{SavedEntry, OverrideSnapshot, from_store}
use shadowfs.Store.{Env, OverrideStore, OverrideStoreConfig, now_secs}

module _ (fs : Fs LogFile-discrete) where
  open fs use {Disk, content}

  -- What a `flush` after the write of the temporary file would answer.
  abbrev pub flushed : Bytes → Disk → IoResult (Unit {0})
  flushed b disk = fs.flush temp_path (fs.write_all temp_path b (fs.create temp_path disk).1).1

  -- The bytes in whole, or a beginning of them where a `flush` would have reported an error.
  abbrev pub IsSaved : Bytes → Disk → Bytes → Type 0
  IsSaved b disk front =
      (front ≡ b)
      ⊎ (((back : Bytes) × (b ≡ front ++ back)) × ((x : IoError) × (flushed b disk ≡ failed x)))

  -- Nothing is changed and the answer is an error, or the new bytes have taken the place.
  abbrev pub IsReplaced : Bytes → Disk → Result (Unit {0}) × Disk → Type 0
  IsReplaced b disk r =
      ((content snapshot_path r.1 ≡ content snapshot_path disk)
        × ((e : ShadowError) × (r.0 ≡ err e)))
      ⊎ ((front : Bytes) × (content snapshot_path r.1 ≡ some front)
          × IsSaved b disk front
          × (r.0 ≡ ok tt))

  -- The files but the temporary one.
  abbrev SameOther : Disk → Disk → Type 0
  SameOther disk disk' =
      (content snapshot_path disk' ≡ content snapshot_path disk)
      × (content wal_path disk' ≡ content wal_path disk)

  abbrev IsKept : Bytes → Disk → Result (Unit {0}) × Disk → Type 0
  IsKept b disk r = IsReplaced b disk r × (content wal_path r.1 ≡ content wal_path disk)

  -- A call that fails ends the sequence before the snapshot is touched.
  then_on-IsKept :
      (b : Bytes) (disk : Disk) (c : IoResult (Unit {0}) × Disk)
      (next : Disk → Result (Unit {0}) × Disk)
      → SameOther disk c.1
      → (c.0 ≡ done tt → IsKept b disk (next c.1))
      → IsKept b disk (then_on fs c next)
  then_on-IsKept b disk (done tt, d) next h k = k refl
  then_on-IsKept b disk (failed e, d) next h k = (inl (h.0, (io_error e, refl)), h.1)

  -- The rename itself.
  renamed-IsKept :
      (b front : Bytes) (disk d : Disk) (r : IoResult (Unit {0}))
      → SameOther disk d
      → IsSaved b disk front
      → content temp_path d ≡ some front
      → (fs.rename temp_path snapshot_path d).0 ≡ r
      → IsKept b disk (then_on fs (fs.rename temp_path snapshot_path d) (finish fs))
  renamed-IsKept b front disk d (done tt) h v k e = (
    inr (
      front,
      ground (arith, fs.rename-content temp_path snapshot_path snapshot_path d),
      v,
      ground arith,
    ),
    ground (arith, fs.rename-content temp_path snapshot_path wal_path d),
  )
  renamed-IsKept b front disk d (failed x) h v k e = (
    inl (
      ground (arith, fs.rename-failed temp_path snapshot_path snapshot_path d x),
      (io_error x, ground arith),
    ),
    ground (arith, fs.rename-failed temp_path snapshot_path wal_path d x),
  )

  written_front :
      (b : Bytes) (disk : Disk)
      → (fs.create temp_path disk).0 ≡ done tt
      → let opened = (fs.create temp_path disk).1 in
        content temp_path (fs.write_all temp_path b opened).1 ≡ some (fs.written temp_path b opened)
  written_front b disk e =
      let opened = (fs.create temp_path disk).1 in
      ground (
        arith,
        fs.create-content temp_path temp_path disk,
        fs.write_all-content temp_path temp_path b opened,
      )

  written-IsSaved :
      (b : Bytes) (disk : Disk)
      → let opened = (fs.create temp_path disk).1 in
        (fs.write_all temp_path b opened).0 ≡ done tt
        → IsSaved b disk (fs.written temp_path b opened)
  written-IsSaved b disk e =
      let opened = (fs.create temp_path disk).1 in
      let parts = fs.written-unwritten temp_path b opened in
      elim (IoResult-cases (flushed b disk)) [
        | inr (x, f) ↦ inr ((fs.unwritten temp_path b opened, sym parts), (x, f))
        | inl (u, f) ↦ inl (
            ground (
              arith,
              parts,
              fs.written-flush temp_path b opened e f,
              append-nil (fs.written temp_path b opened),
            ))
      ]

  replace_snapshot-IsKept : (b : Bytes) (disk : Disk) → IsKept b disk (replace_snapshot fs b disk)
  unfolding replace_snapshot
  replace_snapshot-IsKept b disk =
      let opened = (fs.create temp_path disk).1 in
      let filled = (fs.write_all temp_path b opened).1 in
      let synced = (fs.sync_all temp_path filled).1 in
      let o : SameOther disk opened = (
        ground (arith, fs.create-other temp_path snapshot_path disk),
        ground (arith, fs.create-other temp_path wal_path disk),
      ) in
      let f : SameOther disk filled = (
        ground (arith, o, fs.write_all-content temp_path snapshot_path b opened),
        ground (arith, o, fs.write_all-content temp_path wal_path b opened),
      ) in
      let y : SameOther disk synced = (
        fs.sync_all-content temp_path snapshot_path filled ∙ f.0,
        fs.sync_all-content temp_path wal_path filled ∙ f.1,
      ) in
      then_on-IsKept b disk (fs.create temp_path disk) _ o λ created.
        then_on-IsKept b disk (fs.write_all temp_path b opened) _ f λ wrote.
          then_on-IsKept b disk (fs.sync_all temp_path filled) _ y λ flushed.
            renamed-IsKept b _ disk synced _ y (written-IsSaved b disk wrote)
              (fs.sync_all-content temp_path temp_path filled ∙ written_front b disk created) refl

  then_on-snapshot :
      (o : Option Bytes) (c : IoResult (Unit {0}) × Disk) (next : Disk → Result (Unit {0}) × Disk)
      → content snapshot_path c.1 ≡ o
      → (c.0 ≡ done tt → content snapshot_path (next c.1).1 ≡ o)
      → content snapshot_path (then_on fs c next).1 ≡ o
  then_on-snapshot o (done tt, d) next h k = k refl
  then_on-snapshot o (failed e, d) next h k = h

  opened-snapshot :
      (disk : Disk) (r : IoResult (Unit {0}))
      → (fs.open_append wal_path disk).0 ≡ r
      → content snapshot_path (fs.open_append wal_path disk).1 ≡ content snapshot_path disk
  opened-snapshot disk (done tt) e =
      ground (arith, fs.open_append-content wal_path snapshot_path disk)
  opened-snapshot disk (failed x) e = fs.open_append-failed wal_path snapshot_path disk x e

  append_entry-snapshot :
      (crc : Crc) (ops : Serde PersistenceOp) (b : Bytes) (disk : Disk)
      → content snapshot_path (append_entry fs crc ops b disk).1 ≡ content snapshot_path disk
  unfolding append_entry
  append_entry-snapshot crc ops b disk =
      let opened = (fs.open_append wal_path disk).1 in
      let filled = (fs.write_all wal_path b opened).1 in
      let o = opened-snapshot disk _ refl in
      let f : content snapshot_path filled ≡ content snapshot_path disk =
        ground (arith, o, fs.write_all-content wal_path snapshot_path b opened) in
      let y = fs.sync_all-content wal_path snapshot_path filled ∙ f in
      then_on-snapshot _ (fs.open_append wal_path disk) _ o λ _.
        then_on-snapshot _ (fs.write_all wal_path b opened) _ f
          λ _. then_on-snapshot _ (fs.sync_all wal_path filled) _ y λ _. y

  -- An append touches the log alone.
  append_operation-snapshot :
      (crc : Crc) (ops : Serde PersistenceOp) (op : PersistenceOp) (disk : Disk)
      → content snapshot_path (append_operation fs crc ops op disk).1 ≡ content snapshot_path disk
  unfolding append_operation
  append_operation-snapshot crc ops op disk = elim (IoResult-cases (ops.serialize op)) [
    | inl (d, e) ↦ rw (append_operation, e) (append_entry-snapshot crc ops (frame crc d) disk)
    | inr (x, e) ↦ rw (append_operation, e) refl
  ]

  created-snapshot :
      (d : Disk) (r : IoResult (Unit {0}))
      → (fs.create wal_path d).0 ≡ r
      → let r' = then_on fs (fs.create wal_path d) (finish fs) in
        (content snapshot_path r'.1 ≡ content snapshot_path d)
        × (r'.0 ≡ ok tt → content wal_path r'.1 ≡ some [])
  created-snapshot d (done tt) e = (
    ground (arith, fs.create-other wal_path snapshot_path d),
    λ f. ground (arith, fs.create-content wal_path wal_path d),
  )
  created-snapshot d (failed x) e =
      (ground (arith, fs.create-other wal_path snapshot_path d), λ f. absurd (ground arith))

  truncate_after-content :
      (crc : Crc) (ops : Serde PersistenceOp) (c : Result (Unit {0}) × Disk)
      → let r = truncate_after fs crc ops c in
        (content snapshot_path r.1 ≡ content snapshot_path c.1)
        × (r.0 ≡ ok tt → content wal_path r.1 ≡ some [])
  truncate_after-content crc ops (err e, d) = (refl, λ f. absurd (ground arith))
  truncate_after-content crc ops (ok u, d) = created-snapshot d _ refl

  -- The marker and the truncation leave the snapshot, and where they succeed the log is empty.
  mark_and_truncate-content :
      (crc : Crc) (ops : Serde PersistenceOp) (t : ℕ) (disk : Disk)
      → let r = mark_and_truncate fs crc ops t disk in
        (content snapshot_path r.1 ≡ content snapshot_path disk)
        × (r.0 ≡ ok tt → content wal_path r.1 ≡ some [])
  unfolding mark_and_truncate
  mark_and_truncate-content crc ops t disk =
      let (h, k) =
        truncate_after-content crc ops
          (append_operation fs crc ops (Persistence.snapshot t) disk) in
      (h ∙ append_operation-snapshot crc ops (Persistence.snapshot t) disk, k)

  module _ (env : Env) (hasher : Hasher (OverrideStoreConfig env) SavedEntry) (zstd : Zstd)
      (config : PersistenceConfig) (snapshots : Bincode (OverrideSnapshot env)) where
    -- Saving leaves the log as it is.
    pub save_snapshot-IsReplaced :
        (s : OverrideStore env) (disk : Disk) (b : Bytes)
        → encode_snapshot fs env hasher zstd config snapshots (from_store env hasher s).0 ≡ ok b
        → IsReplaced b disk (save_snapshot fs env hasher zstd config snapshots s disk).0
          × (content wal_path (save_snapshot fs env hasher zstd config snapshots s disk).0.1
              ≡ content wal_path disk)
    unfolding save_snapshot save_bytes
    save_snapshot-IsReplaced s disk b h = rw h (replace_snapshot-IsKept b disk)

    -- What `compact` leaves: the old snapshot and the whole log, or what was saved of the new
    -- snapshot.
    abbrev pub IsCompacted : Bytes → Disk → Result (Unit {0}) × Disk → Type 0
    IsCompacted b disk r =
        ((content snapshot_path r.1 ≡ content snapshot_path disk)
          × (content wal_path r.1 ≡ content wal_path disk)
          × ((e : ShadowError) × (r.0 ≡ err e)))
        ⊎ ((front : Bytes) × (content snapshot_path r.1 ≡ some front)
            × IsSaved b disk front
            × (r.0 ≡ ok tt → content wal_path r.1 ≡ some []))

    compact_after-IsCompacted :
        (crc : Crc) (ops : Serde PersistenceOp) (s : OverrideStore env) (disk : Disk) (b : Bytes)
        (c : Result (Unit {0}) × Disk)
        → IsKept b disk c
        → IsCompacted b disk (compact_after fs env hasher zstd config snapshots crc ops c s).0
    compact_after-IsCompacted crc ops s disk b (err e, d) (inl h, w) = inl (h.0, w, h.1)
    compact_after-IsCompacted crc ops s disk b (err e, d) (inr (front, h, v, k), w) =
        absurd (ground arith)
    compact_after-IsCompacted crc ops s disk b (ok u, d) (inl h, w) =
        let (e, f) = h.1 in absurd (ground arith)
    compact_after-IsCompacted crc ops s disk b (ok u, d) (inr (front, h, v, k), w) =
        let (m, n) = mark_and_truncate-content crc ops (now_secs env 0 s) d in
        inr (front, m ∙ h, v, n)

    -- Where the snapshot of the store is encoded: `compact`, whichever call of the file system
    -- failed, leaves the old snapshot and the whole log and answers an error, or it leaves the new
    -- snapshot, and where it then answers success the log is empty. The new snapshot is there in
    -- whole, or it is a beginning of it and a `flush` of the temporary file, which the code leaves
    -- out, would have reported an error.
    pub compact-IsCompacted :
        (crc : Crc) (ops : Serde PersistenceOp) (s : OverrideStore env) (disk : Disk) (b : Bytes)
        → encode_snapshot fs env hasher zstd config snapshots (from_store env hasher s).0 ≡ ok b
        → IsCompacted b disk (compact fs env hasher zstd config snapshots crc ops s disk).0
    unfolding compact
    compact-IsCompacted crc ops s disk b h =
        compact_after-IsCompacted crc ops _ disk b _ (save_snapshot-IsReplaced s disk b h)
