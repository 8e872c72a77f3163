-- ===== src/Persistence/Log/Replay.antt =====
-- The replay of a log of override_store/persistence.rs against the operations that were logged.
use shadowfs.Base.{
  ℕ, zero, suc, ◌+◌, ◌^◌, ◌<◌, ◌≡◌, ◌≢◌, refl, sym, ap, ◌∙◌, List, [], ◌∷◌, ◌++◌, arith, length,
}
use mathlib.Core.List.{append_assoc, append-nil}
use shadowfs.Crates.Codec.{Bytes}
use shadowfs.Crates.Crc.{Crc}
use shadowfs.Crates.Serde.{Serde}
use shadowfs.Error.{done, ok, err}
use shadowfs.Persistence.{PersistenceOp}
use shadowfs.Persistence.Frame.{
  to_le_bytes, frame, read_frame, ended, corrupt, entry, read_frame-frame, read_frame_torn,
  read_frame_short, read_frame_corrupt, read_frame-le,
}
use shadowfs.Persistence.Log.{
  finished, apply_from, replay_from, replay_operations, corruption_detected,
}
use shadowfs.Store.{Env, OverrideStore}

module _ (crc : Crc) (ops : Serde PersistenceOp) where
  -- The bytes of a log with some operations.
  pub data Logged : List PersistenceOp → Bytes → Type 0 where
    nothing : Logged [] []
    logged :
        (op : PersistenceOp) (l : List PersistenceOp) (d rest b : Bytes)
        → ops.serialize op ≡ done d
        → length d < 2 ^ 32
        → Logged l rest
        → b ≡ frame crc d ++ rest
        → Logged (op ∷ l) b

  pub Logged-append :
      (l : List PersistenceOp) (b : Bytes) (op : PersistenceOp) (d : Bytes)
      → ops.serialize op ≡ done d
      → length d < 2 ^ 32
      → Logged l b
      → Logged (l ++ op ∷ []) (b ++ frame crc d)
  Logged-append [] b op d e h nothing =
      logged op [] d [] (frame crc d) e h nothing (sym (append-nil (frame crc d)))
  Logged-append (o ∷ l) b op d e h (logged _ _ c rest _ f k more eq) =
      logged o (l ++ op ∷ []) c (rest ++ frame crc d) (b ++ frame crc d) f k
        (Logged-append l rest op d e h more)
        (ap (λ (t : Bytes). t ++ frame crc d) eq ∙ append_assoc (frame crc c) rest (frame crc d))

  module _ (env : Env) (from_timestamp : ℕ) where
    -- The operations one after the other.
    unfoldable pub apply_all : List PersistenceOp → OverrideStore env → OverrideStore env
    apply_all [] s = s
    apply_all (op ∷ l) s = apply_all l (apply_from env from_timestamp op s)

    replay_from-entry :
        (fuel : ℕ) (b d rest : Bytes) (op : PersistenceOp) (s : OverrideStore env)
        → read_frame crc b ≡ entry d rest
        → ops.deserialize d ≡ done op
        → replay_from env crc ops (suc fuel) from_timestamp b s
          ≡ replay_from env crc ops fuel from_timestamp rest (apply_from env from_timestamp op s)
    unfolding replay_from
    replay_from-entry fuel b d rest op s e f = rw (e, replay_from, f) refl

    -- The loop over a log, up to what stands behind it.
    replay_from-Logged :
        (l : List PersistenceOp) (b tail : Bytes) (fuel : ℕ) (s : OverrideStore env)
        → Logged l b
        → length (b ++ tail) < fuel
        → (left : ℕ) × (length tail < left)
          × (replay_from env crc ops fuel from_timestamp (b ++ tail) s
              ≡ replay_from env crc ops left from_timestamp tail (apply_all l s))
    unfolding apply_all
    replay_from-Logged l b tail zero s h lt = absurd (omega arith)
    replay_from-Logged [] b tail (suc fuel) s nothing lt = (suc fuel, lt, refl)
    replay_from-Logged (op ∷ l) b tail (suc fuel) s (logged _ _ d rest _ e k more eq) lt =
        let whole : b ++ tail ≡ frame crc d ++ (rest ++ tail) =
          ap (λ (t : Bytes). t ++ tail) eq ∙ append_assoc (frame crc d) rest tail in
        let seen : read_frame crc (b ++ tail) ≡ entry d (rest ++ tail) =
          ap (read_frame crc) whole
          ∙ read_frame-frame crc d (rest ++ tail) (ops.serialize-ne-empty op d e) k in
        let (left, room, same) =
          replay_from-Logged l rest tail fuel (apply_from env from_timestamp op s) more
            (omega (arith, read_frame-le crc (b ++ tail) d (rest ++ tail) seen)) in
        (
          left,
          room,
          replay_from-entry fuel (b ++ tail) d (rest ++ tail) op s seen
                (ops.deserialize-serialize op d e)
              ∙ same,
        )

    replay_from-ended :
        (left : ℕ) (b : Bytes) (s : OverrideStore env)
        → length b < left
        → read_frame crc b ≡ ended
        → replay_from env crc ops left from_timestamp b s ≡ (finished (ok tt), s)
    unfolding replay_from
    replay_from-ended zero b s h e = absurd (omega arith)
    replay_from-ended (suc left) b s h e = rw (e, replay_from) refl

    replay_from-corrupt :
        (left : ℕ) (b : Bytes) (s : OverrideStore env)
        → length b < left
        → read_frame crc b ≡ corrupt
        → replay_from env crc ops left from_timestamp b s ≡ (finished (err corruption_detected), s)
    unfolding replay_from
    replay_from-corrupt zero b s h e = absurd (omega arith)
    replay_from-corrupt (suc left) b s h e = rw (e, replay_from) refl

    -- The replay of the log of some operations, behind which an entry of fewer than 2^32 bytes was
    -- begun and not written to its end, succeeds and does what applying these operations one after
    -- the other does, without those from before the given time.
    pub replay_operations_torn :
        (l : List PersistenceOp) (b d p : Bytes) (x : ℕ) (q : Bytes) (s : OverrideStore env)
        → Logged l b
        → length d < 2 ^ 32
        → frame crc d ≡ p ++ x ∷ q
        → replay_operations env crc ops (done (done (b ++ p))) from_timestamp s
          ≡ (finished (ok tt), apply_all l s)
    unfolding replay_operations
    replay_operations_torn l b d p x q s h k e =
        let (left, room, same) =
          replay_from-Logged l b p (suc (length (b ++ p))) s h (omega arith) in
        same ∙ replay_from-ended left p (apply_all l s) room (read_frame_torn crc d p x q k e)

    -- Where the log of some operations is followed by the four bytes of a length below 2^32, and by
    -- fewer bytes than this length and four: the replay succeeds and applies the operations before,
    -- whatever those bytes are, entries that were appended later included.
    pub replay_operations_lost :
        (l : List PersistenceOp) (b : Bytes) (n : ℕ) (r : Bytes) (s : OverrideStore env)
        → Logged l b
        → n < 2 ^ 32
        → length r < n + 4
        → replay_operations env crc ops (done (done (b ++ (to_le_bytes n ++ r)))) from_timestamp s
          ≡ (finished (ok tt), apply_all l s)
    unfolding replay_operations
    replay_operations_lost l b n r s h k short =
        let (left, room, same) =
          replay_from-Logged l b (to_le_bytes n ++ r) (suc (length (b ++ (to_le_bytes n ++ r)))) s h
            (omega arith) in
        same
        ∙ replay_from-ended left (to_le_bytes n ++ r) (apply_all l s) room
            (read_frame_short crc n r k short)

    -- Where an entry of 1 to 2^32 - 1 bytes with a wrong checksum stands behind the log of some
    -- operations: these operations are applied, and the answer is the corruption error, whatever
    -- stands behind the entry.
    pub replay_operations_corrupt :
        (l : List PersistenceOp) (b d rest : Bytes) (sum : ℕ) (s : OverrideStore env)
        → Logged l b
        → 0 < length d
        → length d < 2 ^ 32
        → sum < 2 ^ 32
        → sum ≢ crc.hash d
        → replay_operations env crc ops
            (done (done (b ++ (to_le_bytes (length d) ++ (d ++ (to_le_bytes sum ++ rest))))))
            from_timestamp
            s
          ≡ (finished (err corruption_detected), apply_all l s)
    unfolding replay_operations
    replay_operations_corrupt l b d rest sum s h k m n ne =
        let tail = to_le_bytes (length d) ++ (d ++ (to_le_bytes sum ++ rest)) in
        let (left, room, same) =
          replay_from-Logged l b tail (suc (length (b ++ tail))) s h (omega arith) in
        same
        ∙ replay_from-corrupt left tail (apply_all l s) room
            (read_frame_corrupt crc d rest sum k m n ne)
