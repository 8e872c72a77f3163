-- ===== src/Persistence/Files/Append.antt =====
-- What `append_operation` of override_store/persistence.rs leaves of the log. It does not flush the file
-- that it writes, so an error of a write that was still under way is not reported.
use shadowfs.Base.{
  ℕ, ◌^◌, ◌<◌, ◌≡◌, refl, sym, ap, ◌∙◌, ◌⊎◌, inl, inr, List, [], ◌∷◌, ◌++◌, arith, length,
}
use mathlib.Core.List.{append-nil}
use shadowfs.Crates.Codec.{Bytes}
use shadowfs.Crates.Crc.{Crc}
use shadowfs.Crates.Fs.{Fs}
use shadowfs.Crates.Serde.{Serde}
use shadowfs.Error.{
  IoResult-cases, IoResult, IoError, done, failed, ShadowError, Result, ok, err, io_error,
}
use shadowfs.Persistence.{PersistenceOp}
use shadowfs.Persistence.Files.{
  LogFile-discrete, wal_path, wal_bytes, append_entry, append_operation,
}
use shadowfs.Persistence.Frame.{frame}
use shadowfs.Persistence.Log.{finished, replay_operations}
use shadowfs.Persistence.Log.Replay.{Logged, Logged-append, replay_operations_torn, apply_all}
use shadowfs.Store.{Env, OverrideStore}

cons-ne-nil : {x : ℕ} {l : List ℕ} → ¬ (x ∷ l ≡ [])
cons-ne-nil e = cc

module _ (fs : Fs LogFile-discrete) (crc : Crc) (ops : Serde PersistenceOp) where
  -- What a `flush` after the write would answer.
  abbrev pub flushed : Bytes → fs.Disk → IoResult (Unit {0})
  flushed b disk = fs.flush wal_path (fs.write_all wal_path b (fs.open_append wal_path disk).1).1

  -- Why something may be missing: an error is answered, or only a `flush` would have told.
  abbrev pub IsCut : Bytes → fs.Disk → Result (Unit {0}) → Type 0
  IsCut b before answer =
      ((e : ShadowError) × (answer ≡ err e))
      ⊎ ((answer ≡ ok tt) × ((x : IoError) × (flushed b before ≡ failed x)))

  -- What was appended, what was not, and why something may be missing.
  pub record Appended (b : Bytes) (before : fs.Disk) (r : Result (Unit {0}) × fs.Disk)
      : Type 0 where
    pub front : Bytes
    pub back : Bytes
    pub whole : b ≡ front ++ back
    pub grown : wal_bytes fs r.1 ≡ wal_bytes fs before ++ front
    pub reported : (back ≡ []) ⊎ IsCut b before r.0

  pub append_entry-Appended :
      (b : Bytes) (disk : fs.Disk) → Appended b disk (append_entry fs crc ops b disk)
  unfolding append_entry
  append_entry-Appended b disk = elim (IoResult-cases (fs.open_append wal_path disk).0) [
    | inr (x, e) ↦ record {
      front = [];
      back = b;
      whole = refl;
      grown =
          ground (
            arith,
            fs.open_append-failed wal_path wal_path disk x e,
            append-nil (wal_bytes fs disk),
          );
      reported = inr (inl (io_error x, ground arith));
    }
    | inl (u, e) ↦
        let opened = (fs.open_append wal_path disk).1 in
        let same : wal_bytes fs opened ≡ wal_bytes fs disk =
          ground (arith, fs.open_append-content wal_path wal_path disk) in
        let filled = (fs.write_all wal_path b opened).1 in
        let more : wal_bytes fs filled ≡ wal_bytes fs disk ++ fs.written wal_path b opened =
          ground (arith, fs.write_all-content wal_path wal_path b opened, same) in
        elim (IoResult-cases (fs.write_all wal_path b opened).0) [
          | inr (x, f) ↦ record {
            front = fs.written wal_path b opened;
            back = fs.unwritten wal_path b opened;
            whole = sym (fs.written-unwritten wal_path b opened);
            grown = ground (arith, more);
            reported = inr (inl (io_error x, ground arith));
          }
          | inl (v, f) ↦ record {
            front = fs.written wal_path b opened;
            back = fs.unwritten wal_path b opened;
            whole = sym (fs.written-unwritten wal_path b opened);
            grown = elim (IoResult-cases (fs.sync_all wal_path filled).0) [
              | inl (w, g) ↦ ground (arith, more, fs.sync_all-content wal_path wal_path filled)
              | inr (w, g) ↦ ground (arith, more, fs.sync_all-content wal_path wal_path filled)
            ];
            reported = elim (IoResult-cases (flushed b disk)) [
              | inl (w, g) ↦ inl (fs.written-flush wal_path b opened f g)
              | inr (x, g) ↦ elim (IoResult-cases (fs.sync_all wal_path filled).0) [
                | inl (w, k) ↦ inr (inr (ground arith, (x, g)))
                | inr (w, k) ↦ inr (inl (io_error w, ground arith))
              ]
            ];
          }
        ]
  ]

  -- Where every call answers success, so does `append_entry`, whatever was written.
  append_entry-written :
      (b : Bytes) (disk : fs.Disk)
      → let opened = (fs.open_append wal_path disk).1 in
        let filled = (fs.write_all wal_path b opened).1 in
        (fs.open_append wal_path disk).0 ≡ done tt
        → (fs.write_all wal_path b opened).0 ≡ done tt
        → (fs.sync_all wal_path filled).0 ≡ done tt
        → ((append_entry fs crc ops b disk).0 ≡ ok tt)
          × (wal_bytes fs (append_entry fs crc ops b disk).1
              ≡ wal_bytes fs disk ++ fs.written wal_path b opened)
  unfolding append_entry
  append_entry-written b disk o w y =
      let opened = (fs.open_append wal_path disk).1 in
      let filled = (fs.write_all wal_path b opened).1 in
      (
        ground arith,
        ground (
          arith,
          fs.open_append-content wal_path wal_path disk,
          fs.write_all-content wal_path wal_path b opened,
          fs.sync_all-content wal_path wal_path filled,
        ),
      )

  append_operation-serialized :
      (op : PersistenceOp) (d : Bytes) (disk : fs.Disk)
      → ops.serialize op ≡ done d
      → append_operation fs crc ops op disk ≡ append_entry fs crc ops (frame crc d) disk
  unfolding append_operation
  append_operation-serialized op d disk e = rw (e, append_operation) refl

  -- Where the log on the disk is the log of some operations and a further one is serialized to
  -- fewer than 2^32 bytes: after `append_operation`, whichever call of the file system failed or
  -- wrote a part, the log is the log of the operations and the new one; or a replay applies the
  -- earlier operations and succeeds, and either the answer is an error, or it is success and a
  -- `flush` after the write, which the code leaves out, would have reported an error.
  pub replay-append_operation :
      (env : Env) (from_timestamp : ℕ) (s : OverrideStore env) (l : List PersistenceOp)
      (op : PersistenceOp) (d : Bytes) (disk : fs.Disk)
      → Logged crc ops l (wal_bytes fs disk)
      → ops.serialize op ≡ done d
      → length d < 2 ^ 32
      → Logged crc ops (l ++ op ∷ []) (wal_bytes fs (append_operation fs crc ops op disk).1)
        ⊎ (IsCut (frame crc d) disk (append_operation fs crc ops op disk).0
            × (replay_operations env crc ops
                  (done (done (wal_bytes fs (append_operation fs crc ops op disk).1)))
                  from_timestamp
                  s
                ≡ (finished (ok tt), apply_all crc ops env from_timestamp l s)))
  replay-append_operation env from_timestamp s l op d disk h e k =
      rw (append_operation-serialized op d disk e)
        (of_parts a.front a.back a.whole a.grown a.reported)
    where
      after : Result (Unit {0}) × fs.Disk
      after = append_entry fs crc ops (frame crc d) disk

      a : Appended (frame crc d) disk after
      a = append_entry-Appended (frame crc d) disk

      of_parts :
          (p q : Bytes)
          → frame crc d ≡ p ++ q
          → wal_bytes fs after.1 ≡ wal_bytes fs disk ++ p
          → (q ≡ []) ⊎ IsCut (frame crc d) disk after.0
          → Logged crc ops (l ++ op ∷ []) (wal_bytes fs after.1)
            ⊎ (IsCut (frame crc d) disk after.0
                × (replay_operations env crc ops
                      (done (done (wal_bytes fs after.1)))
                      from_timestamp
                      s
                    ≡ (finished (ok tt), apply_all crc ops env from_timestamp l s)))
      of_parts p [] w g r =
          inl
            (rw (g, ← (append-nil p), ← w) (Logged-append crc ops l (wal_bytes fs disk) op d e k h))
      of_parts p (x ∷ q) w g (inl r) = absurd (cons-ne-nil r)
      of_parts p (x ∷ q) w g (inr r) = inr (
        r,
        rw g (
            replay_operations_torn crc ops env from_timestamp l (wal_bytes fs disk) d p x q s h k
              w),
      )

  -- Where the log on the disk is the log of some operations, a further one is serialized to fewer than
  -- 2^32 bytes, the opening, the write and `sync_all` answer success, and the write was then cut
  -- short: `append_operation` answers success, and a replay applies the earlier operations only.
  pub append_operation-torn :
      (env : Env) (from_timestamp : ℕ) (s : OverrideStore env) (l : List PersistenceOp)
      (op : PersistenceOp) (d : Bytes) (disk : fs.Disk) (x : ℕ) (q : Bytes)
      → let opened = (fs.open_append wal_path disk).1 in
        let filled = (fs.write_all wal_path (frame crc d) opened).1 in
        let (answer, after) = append_operation fs crc ops op disk in
        Logged crc ops l (wal_bytes fs disk)
        → ops.serialize op ≡ done d
        → length d < 2 ^ 32
        → (fs.open_append wal_path disk).0 ≡ done tt
        → (fs.write_all wal_path (frame crc d) opened).0 ≡ done tt
        → (fs.sync_all wal_path filled).0 ≡ done tt
        → fs.unwritten wal_path (frame crc d) opened ≡ x ∷ q
        → (answer ≡ ok tt)
          × (replay_operations env crc ops (done (done (wal_bytes fs after))) from_timestamp s
              ≡ (finished (ok tt), apply_all crc ops env from_timestamp l s))
  append_operation-torn env from_timestamp s l op d disk x q h e k o w y u =
      let opened = (fs.open_append wal_path disk).1 in
      let p = fs.written wal_path (frame crc d) opened in
      let (answer, log) = append_entry-written (frame crc d) disk o w y in
      let parts : frame crc d ≡ p ++ x ∷ q =
        sym (fs.written-unwritten wal_path (frame crc d) opened) ∙ ap (λ t. p ++ t) u in
      rw (append_operation-serialized op d disk e) (
        answer,
        rw log (
            replay_operations_torn crc ops env from_timestamp l (wal_bytes fs disk) d p x q s h k
              parts),
      )
