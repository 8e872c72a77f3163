-- ===== src/Optimization.antt =====
-- override_store/optimization.rs: content deduplication, the read-through cache, the prefetcher, the
-- sharded map (`Optimization/Sharded.antt`) and the compression threshold.
pub mod Sharded
pub mod Prefetch
pub mod Dedup
use shadowfs.Base.{
  ℕ, zero, suc, ◌*◌, leb, List, [], map, length, sum, Option, none, some, Bool, is_some,
}
use shadowfs.Crates.DashMap.{DashMap}
use shadowfs.Crates.LruCache.{LruCache}
use shadowfs.Crates.Codec.{Codec, Bytes, ContentHash}
use shadowfs.Path.{ShadowPath, ShadowPath-discrete}
use shadowfs.Path.Buf.{Text-discrete}

abbrev pub Contents : Type 1
Contents = DashMap Text-discrete Bytes

module _ (codec : Codec) (contents : Contents) where
  pub record ContentDeduplication : Type 0 where
    pub content_hashes : contents.Map

  abbrev pub new_dedup : ContentDeduplication
  new_dedup = record { content_hashes = contents.new }

  unfoldable pub store_content :
      Bytes → ContentDeduplication → ContentDeduplication × ContentHash × Bytes
  store_content content d =
      let hash = codec.hash content in
      elim (contents.get hash d.content_hashes) [
        | some existing ↦ (d, hash, existing)
        | none ↦ (
          record { content_hashes = (contents.insert hash content d.content_hashes).0 },
          hash,
          content,
        )
      ]

  unfoldable pub get_content : ContentHash → ContentDeduplication → Option Bytes
  get_content hash d = contents.get hash d.content_hashes

  unfoldable pub remove_content : ContentHash → ContentDeduplication → ContentDeduplication × Bool
  remove_content hash d =
      let (map', removed) = contents.remove hash d.content_hashes in
      (record { content_hashes = map' }, is_some removed)

  -- The number of different contents, and their bytes.
  unfoldable pub dedup_stats : ContentDeduplication → ℕ × ℕ
  dedup_stats d =
      (contents.len d.content_hashes, sum (map (λ e. length e.1) (contents.iter d.content_hashes)))

-- `ReadThroughCache`: a capacity of zero stands for 1000.
module _ {T : Type 0} (caches : LruCache ShadowPath-discrete T) where
  pub record ReadThroughCache : Type 0 where
    pub hot_entries : caches.Cache

  abbrev pub cache_size : ℕ → ℕ
  cache_size zero = 1000
  cache_size (suc n) = suc n

  unfoldable pub new_cache : ℕ → ReadThroughCache
  new_cache capacity = record { hot_entries = caches.new (cache_size capacity) }

  unfoldable pub cache_get : ShadowPath → ReadThroughCache → ReadThroughCache × Option T
  cache_get path c =
      let (c', found) = caches.get path c.hot_entries in (record { hot_entries = c' }, found)

  unfoldable pub cache_put : ShadowPath → T → ReadThroughCache → ReadThroughCache
  cache_put path entry c = record { hot_entries = caches.put path entry c.hot_entries }

  unfoldable pub cache_remove : ShadowPath → ReadThroughCache → ReadThroughCache × Option T
  cache_remove path c =
      let (c', found) = caches.pop path c.hot_entries in (record { hot_entries = c' }, found)

  unfoldable pub cache_clear : ReadThroughCache → ReadThroughCache
  cache_clear c = record { hot_entries = caches.clear c.hot_entries }

  unfoldable pub cache_stats : ReadThroughCache → ℕ × ℕ
  cache_stats c = (caches.len c.hot_entries, caches.cap c.hot_entries)

abbrev pub compression_threshold : ℕ
compression_threshold = 1024 * 1024

abbrev pub should_compress : Bytes → Bool
should_compress content = leb compression_threshold (length content)
