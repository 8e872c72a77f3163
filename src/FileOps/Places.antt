-- ===== src/FileOps/Places.antt =====
-- What a write to the bytes of a file in shadowfs-macos, fskit/file_ops.rs, leaves, byte by byte.
use shadowfs.Base.{
  sym, ℕ, zero, suc, ◌+◌, ◌-◌, ◌≤◌, ◌<◌, ◌≡◌, min, max, refl, ◌∙◌, ap, List, [], ◌∷◌, ◌++◌, some,
  none, ltb, if◌then◌else◌, length, length-append, take, drop, length-drop, get_elem?, arith,
  take-append, drop-append, List-cases, dec_lt, inl, inr,
}
use shadowfs.Crates.Codec.{Bytes}
use shadowfs.FileOps.Content.{zeros, resize, write_at, read_from_buffer}

module _ {ℓ} {A : Type ℓ} where
  pub get_elem?-append :
      (xs ys : List A) (i : ℕ)
      → get_elem? (xs ++ ys) i
        ≡ (if ltb i (length xs) then get_elem? xs i else get_elem? ys (i - length xs))
  get_elem?-append [] ys i = ground arith
  get_elem?-append (x ∷ xs) ys zero = ground arith
  get_elem?-append (x ∷ xs) ys (suc i) = ground (arith, get_elem?-append xs ys i)

  get_elem?-take :
      (n : ℕ) (xs : List A) (i : ℕ)
      → get_elem? (take n xs) i ≡ (if ltb i n then get_elem? xs i else none)
  get_elem?-take zero xs i = ground arith
  get_elem?-take (suc n) [] i = ground arith
  get_elem?-take (suc n) (x ∷ xs) zero = ground arith
  get_elem?-take (suc n) (x ∷ xs) (suc i) = ground (arith, get_elem?-take n xs i)

  get_elem?-drop : (n : ℕ) (xs : List A) (i : ℕ) → get_elem? (drop n xs) i ≡ get_elem? xs (n + i)
  get_elem?-drop zero xs i = ap (get_elem? xs) (omega arith)
  get_elem?-drop (suc n) [] i = ground arith
  get_elem?-drop (suc n) (x ∷ xs) i = ground (arith, get_elem?-drop n xs i)

  pub get_elem?_end : (xs : List A) (i : ℕ) → length xs ≤ i → get_elem? xs i ≡ none
  get_elem?_end [] i h = refl
  get_elem?_end (x ∷ xs) zero h = absurd (omega (arith, h))
  get_elem?_end (x ∷ xs) (suc i) h = get_elem?_end xs i (omega (arith, h))

  length-take : (n : ℕ) (xs : List A) → length (take n xs) ≡ min n (length xs)
  length-take zero xs = omega arith
  length-take (suc n) [] = omega arith
  length-take (suc n) (x ∷ xs) = omega (arith, length-take n xs)

pub length-zeros : (n : ℕ) → length (zeros n) ≡ n
unfolding zeros
length-zeros zero = refl
length-zeros (suc n) = omega (arith, length-zeros n)

get_elem?-zeros : (n i : ℕ) → get_elem? (zeros n) i ≡ (if ltb i n then some 0 else none)
unfolding zeros
get_elem?-zeros zero i = ground arith
get_elem?-zeros (suc n) zero = ground arith
get_elem?-zeros (suc n) (suc i) = ground (arith, get_elem?-zeros n i)

length-resize : (n : ℕ) (b : Bytes) → length (resize n b) ≡ max n (length b)
unfolding resize
length-resize n b =
    omega (arith, length-append b (zeros (n - length b)), length-zeros (n - length b))

get_elem?-resize :
    (n : ℕ) (b : Bytes) (i : ℕ)
    → get_elem? (resize n b) i
      ≡ (if ltb i (length b) then get_elem? b i else if ltb i n then some 0 else none)
unfolding resize
get_elem?-resize n b i = ground (
  arith,
  get_elem?-append b (zeros (n - length b)) i,
  get_elem?-zeros (n - length b) (i - length b),
)

take_none : (b : Bytes) → take 0 b ≡ []
take_none b = refl

module _ (offset : ℕ) (new old : Bytes) where
  abbrev grown : Bytes
  grown = resize (offset + length new) (resize offset old)

  length-grown : length grown ≡ max (offset + length new) (length old)
  length-grown =
      omega
        (arith, length-resize (offset + length new) (resize offset old), length-resize offset old)

  length-front : length (take offset grown) ≡ offset
  length-front = omega (arith, length-take offset grown, length-grown)

  parts : write_at offset new old ≡ take offset grown ++ (new ++ drop (offset + length new) grown)
  unfolding write_at
  parts = refl

  pub length-write_at : length (write_at offset new old) ≡ max (offset + length new) (length old)
  unfolding write_at
  length-write_at = omega (
    arith,
    length-append (take offset grown) (new ++ drop (offset + length new) grown),
    length-append new (drop (offset + length new) grown),
    length-drop (offset + length new) grown,
    length-front,
    length-grown,
  )

  get_elem?-grown :
      (i : ℕ)
      → get_elem? grown i ≡ (
          if ltb i (length old)
          then get_elem? old i
          else if ltb i (offset + length new)
          then some 0
          else none)
  get_elem?-grown i = ground (
    arith,
    get_elem?-resize (offset + length new) (resize offset old) i,
    length-resize offset old,
    get_elem?-resize offset old i,
  )

  -- From the place of the write on.
  get_elem?-back :
      (i : ℕ)
      → offset ≤ i
      → get_elem? (new ++ drop (offset + length new) grown) (i - offset)
        ≡ (if ltb i (offset + length new) then get_elem? new (i - offset) else get_elem? old i)
  get_elem?-back i h =
      let end_position = offset + length new in
      let split = get_elem?-append new (drop end_position grown) (i - offset) in
      elim (dec_lt i end_position) [
        | yes l ↦ ground (arith, split, l, h)
        | no g ↦
            let there : end_position + (i - offset - length new) ≡ i = omega (arith, g, h) in
            ground (
              arith,
              split,
              get_elem?-drop end_position grown (i - offset - length new),
              ap (get_elem? grown) there,
              get_elem?-grown i,
              get_elem?_end old i,
              g,
              h,
            )
      ]

  -- Byte by byte, for any offset, new bytes and old file: a write leaves the new bytes at their
  -- place and the old ones elsewhere, with zeros between the old end and the offset.
  pub get_elem?-write_at :
      (i : ℕ)
      → get_elem? (write_at offset new old) i ≡ (
          if ltb i offset
          then (if ltb i (length old) then get_elem? old i else some 0)
          else if ltb i (offset + length new)
          then get_elem? new (i - offset)
          else get_elem? old i)
  get_elem?-write_at i =
      let end_position = offset + length new in
      let back = new ++ drop end_position grown in
      let whole = ap (λ b. get_elem? b i) parts ∙ get_elem?-append (take offset grown) back i in
      elim (dec_lt i offset) [
        | yes l ↦
            ground (arith, whole, length-front, get_elem?-take offset grown i, get_elem?-grown i, l)
        | no g ↦
            let here : i - length (take offset grown) ≡ i - offset = omega (arith, length-front) in
            ground (arith, whole, length-front, ap (get_elem? back) here, get_elem?-back i, g)
      ]

  drop-write_at : drop offset (write_at offset new old) ≡ new ++ drop (offset + length new) grown
  drop-write_at =
      ap (drop offset) parts
      ∙ (ap (λ n. drop n (take offset grown ++ (new ++ drop (offset + length new) grown)))
            (sym length-front)
          ∙ drop-append (take offset grown) (new ++ drop (offset + length new) grown))

  pub read_from_buffer-write_at :
      read_from_buffer (write_at offset new old) offset (length new) ≡ new
  unfolding read_from_buffer
  read_from_buffer-write_at =
      let all = write_at offset new old in
      elim (List-cases new) [
        | inl e ↦ rw e (ground (arith, take_none (drop offset (write_at offset [] old))))
        | inr (x, r, e) ↦
            let more : offset < length all = omega (arith, length-write_at, ap length e) in
            let count : min (length new) (length all - offset) ≡ length new =
              omega (arith, length-write_at) in
            ground (
              arith,
              more,
              ap (λ n. take n (drop offset all)) count,
              ap (take (length new)) drop-write_at,
              take-append new (drop (offset + length new) grown),
            )
      ]
