-- ===== src/Persistence/Frame.antt =====
-- One entry of the write-ahead log of override_store/persistence.rs: the length of the operation in
-- four bytes, its bytes, and their checksum in four bytes. A buffer from an offset on is a list.
use shadowfs.Base.{
  ℕ, ◌+◌, ◌*◌, ◌/◌, ◌%◌, ◌^◌, ◌<◌, ◌≤◌, ◌≡◌, ◌≢◌, refl, ap, ◌∙◌, [], ◌∷◌, ◌++◌, arith, length, take,
  drop, length-append, take-append, drop-append, length-drop, ltb, ◌==◌, if◌then◌else◌,
}
use mathlib.Core.List.{append_assoc}
use shadowfs.Crates.Codec.{Bytes}
use shadowfs.Crates.Crc.{Crc}

-- `(n as u32).to_le_bytes()` and `u32::from_le_bytes`.
abbrev pub to_le_bytes : ℕ → Bytes
to_le_bytes n = (n % 256) ∷ (n / 256 % 256) ∷ (n / 65536 % 256) ∷ (n / 16777216 % 256) ∷ []

abbrev pub from_le_bytes : Bytes → ℕ
from_le_bytes (a ∷ b ∷ c ∷ d ∷ rest) = a + 256 * b + 65536 * c + 16777216 * d
from_le_bytes _ = 0

pub from_le_bytes-to_le_bytes :
    (n : ℕ) (rest : Bytes) → n < 2 ^ 32 → from_le_bytes (to_le_bytes n ++ rest) ≡ n
from_le_bytes-to_le_bytes n rest h = omega arith

module _ (crc : Crc) where
  -- What `append_operation` writes for the bytes of an operation.
  unfoldable pub frame : Bytes → Bytes
  frame serialized =
      to_le_bytes (length serialized) ++ (serialized ++ to_le_bytes (crc.hash serialized))

  -- What a round of `replay_operations` reads: nothing more, a checksum that does not fit, or the
  -- bytes of an operation and the rest of the buffer.
  pub data Frame : Type 0 where
    ended corrupt : Frame
    entry : Bytes → Bytes → Frame

  abbrev check_frame : Bytes → Bytes → Frame
  check_frame op_data rest =
      if from_le_bytes (take 4 rest) == crc.hash op_data
      then entry op_data (drop 4 rest)
      else corrupt

  abbrev read_body : ℕ → Bytes → Frame
  read_body op_len rest =
      if ltb (length rest) (op_len + 4)
      then ended
      else check_frame (take op_len rest) (drop op_len rest)

  unfoldable pub read_frame : Bytes → Frame
  read_frame buffer =
      if ltb 8 (length buffer)
      then read_body (from_le_bytes (take 4 buffer)) (drop 4 buffer)
      else ended

  -- A body of the length that its front names, with any checksum behind it.
  read_body-append :
      (d s rest : Bytes)
      → length s ≡ 4
      → read_body (length d) (d ++ (s ++ rest)) ≡ (
          if from_le_bytes (take 4 (s ++ rest)) == crc.hash d
          then entry d (drop 4 (s ++ rest))
          else corrupt)
  read_body-append d s rest h =
      rw (take-append d (s ++ rest), drop-append d (s ++ rest))
        (ground (arith, length-append d (s ++ rest), length-append s rest))

  read_frame-append :
      (n : ℕ) (body : Bytes)
      → n < 2 ^ 32
      → 4 < length body
      → read_frame (to_le_bytes n ++ body) ≡ read_body n body
  unfolding read_frame
  read_frame-append n body h k = ground (arith, from_le_bytes-to_le_bytes n [] h)

  -- What was written as one entry is read as this entry, whatever follows it.
  pub read_frame-frame :
      (d rest : Bytes)
      → 0 < length d
      → length d < 2 ^ 32
      → read_frame (frame d ++ rest) ≡ entry d rest
  unfolding frame
  read_frame-frame d rest h k =
      let sum = to_le_bytes (crc.hash d) in
      rw (append_assoc d sum rest) (
        read_frame-append (length d) (d ++ (sum ++ rest)) k
          (omega (arith, length-append d (sum ++ rest)))
        ∙ read_body-append d sum rest refl
        ∙ ground (arith, from_le_bytes-to_le_bytes (crc.hash d) [] (crc.hash-lt d)))

  short_body : (n : ℕ) (r : Bytes) → length r < n + 4 → read_body n r ≡ ended
  short_body n r h = ground arith

  -- Where the body of an entry is cut, nothing is read, whatever stands behind its length.
  pub read_frame_short :
      (n : ℕ) (r : Bytes) → n < 2 ^ 32 → length r < n + 4 → read_frame (to_le_bytes n ++ r) ≡ ended
  unfolding read_frame
  read_frame_short n r h k = ground (arith, from_le_bytes-to_le_bytes n [] h, short_body n r k)

  -- An entry that was not written to its end is not read.
  pub read_frame_torn :
      (d p : Bytes) (x : ℕ) (q : Bytes)
      → length d < 2 ^ 32
      → frame d ≡ p ++ x ∷ q
      → read_frame p ≡ ended
  unfolding frame read_frame
  read_frame_torn d [] x q h e = refl
  read_frame_torn d (a ∷ []) x q h e = refl
  read_frame_torn d (a ∷ b ∷ []) x q h e = refl
  read_frame_torn d (a ∷ b ∷ c ∷ []) x q h e = refl
  read_frame_torn d (a ∷ b ∷ c ∷ y ∷ r) x q h e =
      let n : from_le_bytes (a ∷ b ∷ c ∷ y ∷ []) ≡ length d =
        ground (arith, from_le_bytes-to_le_bytes (length d) [] h) in
      let back : d ++ to_le_bytes (crc.hash d) ≡ r ++ x ∷ q = cc in
      let short : length r < length d + 4 = omega (
        arith,
        ap length back,
        length-append d (to_le_bytes (crc.hash d)),
        length-append r (x ∷ q),
      ) in
      ground (arith, short_body (from_le_bytes (a ∷ b ∷ c ∷ y ∷ [])) r (rw n short))

  pub read_frame_corrupt :
      (d rest : Bytes) (sum : ℕ)
      → 0 < length d
      → length d < 2 ^ 32
      → sum < 2 ^ 32
      → sum ≢ crc.hash d
      → read_frame (to_le_bytes (length d) ++ (d ++ (to_le_bytes sum ++ rest))) ≡ corrupt
  read_frame_corrupt d rest sum h k l ne =
      read_frame-append (length d) (d ++ (to_le_bytes sum ++ rest)) k
        (omega (arith, length-append d (to_le_bytes sum ++ rest)))
      ∙ read_body-append d (to_le_bytes sum) rest refl
      ∙ ground (arith, from_le_bytes-to_le_bytes sum [] l)

  -- An entry that is read takes eight bytes at least.
  pub read_frame-le : (b d rest : Bytes) → read_frame b ≡ entry d rest → length rest + 8 ≤ length b
  unfolding read_frame
  read_frame-le b d rest e =
      let n = from_le_bytes (take 4 b) in
      ground (arith, length-drop 4 b, length-drop n (drop 4 b), length-drop 4 (drop n (drop 4 b)))

  pub length-frame : (d : Bytes) → length (frame d) ≡ length d + 8
  unfolding frame
  length-frame d = omega (arith, length-append d (to_le_bytes (crc.hash d)))
