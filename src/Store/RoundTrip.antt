-- ===== src/Store/RoundTrip.antt =====
-- A file from `insert_file` to `get` of override_store/mod.rs: through compression, deduplication
-- and the two levels of the store.
use shadowfs.Base.{
  ◌≡◌, refl, Option, none, some, Bool, length, arith, Option-cases, Bool-cases, inl, inr, ◌&&◌,
}
use shadowfs.Crates.Codec.{Bytes, ContentHash}
use shadowfs.Entry.{
  OverrideEntry, file, content_data, get_file_data, content_size, uncompressed_size,
}
use shadowfs.Error.{IoResult, done, failed, ok}
use shadowfs.Metadata.{FileMetadata}
use shadowfs.Optimization.{ContentDeduplication, store_content, should_compress}
use shadowfs.Path.{ShadowPath}
use shadowfs.Store.{Env, OverrideStore}
use shadowfs.Store.Access.{get}
use shadowfs.Store.Coherence.{cached, IsCoherent}
use shadowfs.Store.Insertion.{compressed, compress_result, insert_file}
use shadowfs.Store.Writes.{get-insert_entry}

module _ (env : Env) where
  open env use {codec, contents}

  -- What is stored under the hash of some bytes is these bytes.
  abbrev pub IsUnambiguous : Bytes → ContentDeduplication codec contents → Type 0
  IsUnambiguous x d = (y : Bytes) → contents.get (codec.hash x) d.content_hashes ≡ some y → y ≡ x

  store_content-same :
      (x : Bytes) (d : ContentDeduplication codec contents)
      → IsUnambiguous x d
      → (store_content codec contents x d).2 ≡ x
  unfolding store_content
  store_content-same x d h = elim (Option-cases (contents.get (codec.hash x) d.content_hashes)) [
    | inl m ↦ ground arith
    | inr (y, m) ↦ ground (arith, h y)
  ]

  compress_result-data :
      (content : Bytes) (r : IoResult Bytes) (h : ContentHash)
      → codec.compress content ≡ r
      → (content_data codec
            (file (compress_result env content r).0 h (compress_result env content r).1)
          ≡ ok (some content))
        × (content_size
              (file (compress_result env content r).0 h (compress_result env content r).1)
              (length content)
            ≡ length content)
  compress_result-data content (done c) h e =
      (rw (codec.decompress-compress content c e) refl, refl)
  compress_result-data content (failed x) h e = (refl, refl)

  compressed-data :
      (enabled : Bool) (content : Bytes) (h : ContentHash)
      → (content_data codec
            (file (compressed env enabled content).0 h (compressed env enabled content).1)
          ≡ ok (some content))
        × (content_size
              (file (compressed env enabled content).0 h (compressed env enabled content).1)
              (length content)
            ≡ length content)
  unfolding compressed
  compressed-data enabled content h = elim (Bool-cases (enabled && should_compress content)) [
    | inl b ↦ rw b (compress_result-data content (codec.compress content) h refl)
    | inr b ↦ rw b (refl, refl)
  ]

  -- In a coherent state where the path is not cached, and where the hash of the bytes to store
  -- leads to no other bytes: after `insert_file`, whatever it answers, a read of the path finds an
  -- entry with that path whose file data, decompressed where it was compressed, is the content, and
  -- whose uncompressed size is the content's length.
  pub get-insert_file :
      (p : ShadowPath) (content : Bytes) (original : Option FileMetadata) (s : OverrideStore env)
      → IsCoherent env s
      → cached env p s ≡ none
      → IsUnambiguous (compressed env s.config.enable_compression content).0 s.content_dedup
      → (e : OverrideEntry) × ((get env p (insert_file env p content original s).1).0 ≡ some e)
        × (get_file_data codec e ≡ ok (some content))
        × (uncompressed_size e ≡ length content)
        × (e.path ≡ p)
  unfolding insert_file get_file_data uncompressed_size
  get-insert_file p content original s h m u =
      let z = compressed env s.config.enable_compression content in
      let same = store_content-same z.0 s.content_dedup u in
      let sizes =
        compressed-data s.config.enable_compression content
          (store_content codec contents z.0 s.content_dedup).1 in
      (
        _,
        (get-insert_entry env p _ original _ _ (record { at = h.at }) m).1,
        rw same sizes.0,
        rw same sizes.1,
        refl,
      )
