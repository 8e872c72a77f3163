-- ===== src/Crates/Concrete/Disks.antt =====
-- A disk with room for some more bytes, whose writes answer before they are over, and the simplest values of the other interfaces that
-- override_store/persistence.rs uses.
use shadowfs.Base.{
  ℕ, zero, suc, ◌+◌, ◌-◌, ◌%◌, ◌^◌, ◌≤◌, ◌≡◌, refl, sym, ap, Option, none, some, [], ◌∷◌, ◌++◌, ite,
  unwrap_or, length, take, drop, leb, if◌then◌else◌, arith, Bool, not,
}
use shadowfs.Crates.Codec.{Bytes}
use shadowfs.Crates.Crc.{Crc}
use shadowfs.Crates.Fs.{Fs}
use shadowfs.Crates.Hasher.{Hasher}
use shadowfs.Crates.Zstd.{Zstd}
use shadowfs.Error.{IoResult, done, failed, IoError, other}

abbrev pub disk_full : IoError
disk_full = record { kind = other 28; message = [] }

pub take-drop : (n : ℕ) (b : Bytes) → take n b ++ drop n b ≡ b
take-drop zero b = refl
take-drop (suc n) [] = refl
take-drop (suc n) (x ∷ b) = ap (λ (t : Bytes). x ∷ t) (take-drop n b)

drop_all : (n : ℕ) (b : Bytes) → length b ≤ n → drop n b ≡ []
drop_all zero [] h = refl
drop_all zero (x ∷ b) h = absurd (omega arith)
drop_all (suc n) [] h = refl
drop_all (suc n) (x ∷ b) h = drop_all n b (omega arith)

module _ {K : Type 0} (dec : Discrete K) where
  -- The files, how many more bytes can be written, and whether the last write was cut short.
  abbrev pub SmallDisk : Type 0
  SmallDisk = (K → Option Bytes) × ℕ × Bool

  abbrev pub file_at : K → SmallDisk → Option Bytes
  file_at k s = s.0 k

  abbrev pub set_file : K → Option Bytes → SmallDisk → SmallDisk
  set_file k o s = (λ j. ite (dec j k) o (s.0 j), s.1, s.2)

  abbrev pub write_some : K → Bytes → SmallDisk → IoResult (Unit {0}) × SmallDisk
  write_some k b s = (
    done tt,
    (
      λ j. ite (dec j k) (some (unwrap_or (s.0 k) [] ++ take s.1 b)) (s.0 j),
      s.1 - length b,
      not (leb (length b) s.1),
    ),
  )

  pub whole_write :
      (b : Bytes) (n : ℕ)
      → (if not (leb (length b) n) then failed disk_full else done (tt {0})) ≡ done tt
      → drop n b ≡ []
  whole_write b n h = drop_all n b (ground arith)

  abbrev pub read_file : Option Bytes → IoResult (IoResult Bytes)
  read_file none = failed disk_full
  read_file (some b) = done (done b)

  abbrev pub file_length : Option Bytes → IoResult ℕ
  file_length none = failed disk_full
  file_length (some b) = done (length b)

  pub file_length-length :
      (o : Option Bytes) (n : ℕ)
      → file_length o ≡ done n
      → (b : Bytes) × (o ≡ some b) × (length b ≡ n)
  file_length-length none n h = absurd (ground arith)
  file_length-length (some b) n h = (b, refl, ground arith)

  pub read_file-some : (o : Option Bytes) (b : Bytes) → read_file o ≡ done (done b) → o ≡ some b
  read_file-some none b h = absurd (ground arith)
  read_file-some (some c) b h = cc

  abbrev pub small_disk : Fs dec
  small_disk = record {
    Disk = SmallDisk;
    content = file_at;
    metadata = λ k s. file_length (s.0 k);
    read_to_end = λ k s. read_file (s.0 k);
    open_append = λ k s. (done tt, set_file k (some (unwrap_or (s.0 k) [])) s);
    create = λ k s. (done tt, set_file k (some []) s);
    write_all = write_some;
    sync_all = λ k s. (done tt, s);
    rename =
        λ k l s. (done tt, (λ j. ite (dec j l) (s.0 k) (ite (dec j k) none (s.0 j)), s.1, s.2));
    metadata-length = λ k s n h. file_length-length (s.0 k) n h;
    read-content = λ k s b h. read_file-some (s.0 k) b h;
    open_append-content = λ k j s h. refl;
    open_append-failed = λ k j s e h. absurd (ground arith);
    create-content = λ k j s h. refl;
    create-other = λ k j s. ground arith;
    written = λ k b s. take s.1 b;
    unwritten = λ k b s. drop s.1 b;
    written-unwritten = λ k b s. take-drop s.1 b;
    flush = λ k s. if s.2 then failed disk_full else done tt;
    written-flush = λ k b s h f. whole_write b s.1 f;
    write_all-content = λ k j b s. refl;
    sync_all-content = λ k j s. refl;
    rename-content = λ k l j s h. refl;
    rename-failed = λ k l j s e h. absurd (ground arith);
  }

abbrev pub length_crc : Crc
length_crc = record { hash = λ d. length d % 2 ^ 32; hash-lt = λ d. omega arith }

abbrev pub stored_as_is : Zstd
stored_as_is = record {
  encode_all = λ d level. done d;
  decode_all = done;
  decode_all-encode_all = λ d c level h. sym h;
}

abbrev pub counting_hasher : {C E : Type 0} → Hasher C E
counting_hasher = record {
  State = ℕ;
  new = 0;
  hash_text = λ t h. h + length t;
  hash_texts = λ l h. h + length l;
  hash_u64 = λ n h. h + n;
  finish = λ h. h;
  debug_config = λ c. [];
  debug_entry = λ e. [];
}
