-- ===== src/Entry.antt =====
-- override_store/{entry, size}.rs: what the store holds for a path, and how many bytes that counts.
use shadowfs.Base.{
  ℕ, ◌+◌, ◌*◌, List, map, length, sum, Option, none, some, Bool, true, false, if◌then◌else◌,
  is_some,
}
use shadowfs.Crates.Codec.{Codec, Bytes, ContentHash}
use shadowfs.Error.{IoResult, done, failed, Result, ok, err, io_error}
use shadowfs.Metadata.{FileMetadata}
use shadowfs.Path.{ShadowPath, to_string}
use shadowfs.Path.Chars.{Text, str_len}

pub data OverrideContent : Type 0 where
  file : Bytes → ContentHash → Bool → OverrideContent
  directory : List Text → OverrideContent
  deleted : OverrideContent

-- `arc` names the shared allocation that an `Arc<OverrideEntry>` points to. The atomic field
-- `last_accessed` is written through every pointer to it: the store keeps it by this name.
pub record OverrideEntry : Type 0 where
  pub path : ShadowPath
  pub content : OverrideContent
  pub original_metadata : Option FileMetadata
  pub override_metadata : FileMetadata
  pub created_at : ℕ
  pub arc : ℕ

abbrev pub is_file_content : OverrideContent → Bool
is_file_content (file d h z) = true
is_file_content _ = false

abbrev pub is_directory_content : OverrideContent → Bool
is_directory_content (directory l) = true
is_directory_content _ = false

abbrev pub is_deleted_content : OverrideContent → Bool
is_deleted_content deleted = true
is_deleted_content _ = false

-- `is_file`, `is_directory` and `is_deleted` of an entry.
abbrev pub is_file : OverrideEntry → Bool
is_file e = is_file_content e.content

abbrev pub is_directory : OverrideEntry → Bool
is_directory e = is_directory_content e.content

abbrev pub is_deleted : OverrideEntry → Bool
is_deleted e = is_deleted_content e.content

module _ (codec : Codec) where
  abbrev pub some_or_error : IoResult Bytes → Result (Option Bytes)
  some_or_error (done d) = ok (some d)
  some_or_error (failed e) = err (io_error e)

  abbrev pub content_data : OverrideContent → Result (Option Bytes)
  content_data (file d h true) = some_or_error (codec.decompress d)
  content_data (file d h false) = ok (some d)
  content_data (directory l) = ok none
  content_data deleted = ok none

  unfoldable pub get_file_data : OverrideEntry → Result (Option Bytes)
  get_file_data e = content_data e.content

abbrev pub content_size : OverrideContent → ℕ → ℕ
content_size (file d h true) recorded = recorded
content_size (file d h false) recorded = length d
content_size (directory l) recorded = recorded
content_size deleted recorded = recorded

unfoldable pub uncompressed_size : OverrideEntry → ℕ
uncompressed_size e = content_size e.content e.override_metadata.size

-- The sizes that the compiler gives the types.
pub record Layout : Type 0 where
  pub override_entry : ℕ
  pub file_metadata : ℕ
  pub string : ℕ
  pub vec : ℕ

unfoldable pub calculate_bytes_size : Bytes → ℕ
calculate_bytes_size d = length d + 32

module _ (layout : Layout) where
  unfoldable pub calculate_content_size : OverrideContent → ℕ
  unfolding calculate_bytes_size
  calculate_content_size (file d h z) = calculate_bytes_size d + 32
  calculate_content_size (directory l) = layout.vec + layout.string * length l + sum (map str_len l)
  calculate_content_size deleted = 0

  unfoldable pub calculate_entry_size : OverrideEntry → ℕ
  unfolding calculate_content_size
  calculate_entry_size e =
      layout.override_entry
      + str_len (to_string e.path)
      + calculate_content_size e.content
      + (if is_some e.original_metadata then layout.file_metadata else 0)
      + layout.file_metadata
      + 64
