-- ===== src/Locks/Bytes.antt =====
-- `ByteRange` of shadowfs-macos, fskit/file_locking.rs, against the bytes that a range stands for.
use shadowfs.Base.{ℕ, ◌+◌, ◌-◌, ◌^◌, ◌≤◌, ◌<◌, ◌≡◌, ◌↔◌, some, true, arith, max}
use shadowfs.Locks.{ByteRange, end, overlaps, contains, ranges_overlap, exclusive, locks_compatible}

-- The bytes of a range, whose end is not cut to 64 bits.
abbrev pub Covers : ByteRange → ℕ → Type 0
Covers r x = (r.start ≤ x) × (x < r.start + r.length)

-- At least one byte, and an end that is a 64-bit number.
abbrev pub IsProper : ByteRange → Type 0
IsProper r = (0 < r.length) × (r.start + r.length < 2 ^ 64)

-- For two ranges that are not empty and end below 2^64: they overlap exactly where a byte is in
-- both. This includes two ranges that touch, such as [0, 100) and [100, 150), which have no common
-- byte and do not overlap; the test `test_byte_range_overlap` asserts that these two overlap.
pub overlaps-Covers :
    (a b : ByteRange)
    → IsProper a
    → IsProper b
    → (overlaps a b ≡ true) ↔ ((x : ℕ) × Covers a x × Covers b x)
unfolding overlaps end
overlaps-Covers a b h k = (
  λ e. (max a.start b.start, (omega arith, ground arith), (omega arith, ground arith)),
  λ w. let (x, p, q) = w in ground arith,
)

-- One range contains another where it has each of its bytes.
pub contains-Covers :
    (a b : ByteRange)
    → IsProper a
    → IsProper b
    → (contains a b ≡ true) ↔ ((x : ℕ) → Covers b x → Covers a x)
unfolding contains end
contains-Covers a b h k = (
  λ e x p. (ground arith, ground arith),
  λ f.
      let first = f b.start (omega arith, omega arith) in
      let last = f (b.start + b.length - 1) (omega arith, omega arith) in ground arith,
)

pub overlaps_comm : (a b : ByteRange) → overlaps a b ≡ overlaps b a
unfolding overlaps
overlaps_comm a b = ground arith

-- For a range of 64-bit numbers whose end is 2^64 or more: two exclusive locks on this same range
-- are found compatible.
pub locks_compatible_wrapped :
    (r : ByteRange)
    → r.start < 2 ^ 64
    → r.length < 2 ^ 64
    → 2 ^ 64 ≤ r.start + r.length
    → locks_compatible exclusive exclusive (some r) (some r) ≡ true
unfolding locks_compatible ranges_overlap overlaps end
locks_compatible_wrapped r h k l = ground arith
