-- ===== src/Optimization/Dedup.antt =====
-- `ContentDeduplication` of override_store/optimization.rs: what is stored, and how often.
use shadowfs.Base.{◌+◌, ◌≡◌, some, arith, Option-cases, inl, inr, is_some, if◌then◌else◌}
use shadowfs.Crates.Codec.{Codec, Bytes}
use shadowfs.Crates.DashMap.Totals.{len-insert}
use shadowfs.Optimization.{Contents, ContentDeduplication, store_content, get_content, dedup_stats}
use shadowfs.Path.Buf.{Text-discrete}

module _ (codec : Codec) (contents : Contents) where
  -- After `store_content` the hash that it answers leads to the bytes that it answers, and the
  -- number of contents grows by one exactly where the hash was new.
  pub get_content-store_content :
      (x : Bytes) (d : ContentDeduplication codec contents)
      → (get_content codec contents
            (store_content codec contents x d).1
            (store_content codec contents x d).0
          ≡ some (store_content codec contents x d).2)
        × ((dedup_stats codec contents (store_content codec contents x d).0).0 ≡ (
            if is_some (get_content codec contents (codec.hash x) d)
            then (dedup_stats codec contents d).0
            else (dedup_stats codec contents d).0 + 1))
  unfolding get_content store_content dedup_stats
  get_content-store_content x d =
      elim (Option-cases (contents.get (codec.hash x) d.content_hashes)) [
        | inl m ↦ (
          ground (arith, contents.get-insert (codec.hash x) (codec.hash x) x d.content_hashes),
          ground (arith, len-insert Text-discrete contents (codec.hash x) x d.content_hashes),
        )
        | inr (y, m) ↦ (ground arith, ground arith)
      ]
