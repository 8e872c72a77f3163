-- ===== src/Store/Insertion.antt =====
-- `insert_entry`, `insert_file`, `insert_directory`, `mark_deleted` and `insert_batch` of
-- override_store/mod.rs.
use shadowfs.Base.{
  ℕ, zero, ◌+◌, ◌*◌, ◌/◌, max, length, List, [], ◌∷◌, Option, none, some, Bool, true, false,
  if◌then◌else◌, ◌&&◌,
}
use shadowfs.Crates.Codec.{Bytes}
use shadowfs.Directory.{DirectoryCache, add_child}
use shadowfs.Directory.Traversal.{get_filename}
use shadowfs.Entry.{OverrideContent, OverrideEntry, file, directory, deleted, calculate_entry_size}
use shadowfs.Error.{IoResult, done, failed, Result, ok, err, override_store_full, io_error}
use shadowfs.Lru.{record_access}
use shadowfs.Memory.{Allocation, granted, store_full, unfinished, try_allocate, get_pressure_ratio}
use shadowfs.Metadata.{FileMetadata, FileType, PlatformMetadata, default_platform}
use shadowfs.Metadata.Permissions.{FilePermissions, default_file, default_directory}
use shadowfs.Optimization.{store_content, should_compress}
use shadowfs.Path.{ShadowPath, parent}
use shadowfs.Stats.{update_on_insert, update_on_remove}
use shadowfs.Store.{Env, OverrideStore, Action, ◌>>=◌, now, now_secs, tick, touch}
use shadowfs.Store.Removal.{compression_saved, evict_entries, unless_empty}

module _ (env : Env) where
  open env use {entry_map, orders, counts, names, dirs, codec, contents, float, layout}

  unfoldable pub note_child :
      Option ShadowPath → ShadowPath → DirectoryCache names dirs → DirectoryCache names dirs
  note_child none path d = d
  note_child (some p) path d =
      unless_empty env (get_filename path) d (add_child names dirs p (get_filename path) d)

  abbrev pub is_pressed : OverrideStore env → Bool
  is_pressed s = float.gt (get_pressure_ratio float s.memory_tracker) s.config.eviction_threshold

  -- Eviction under pressure, before the entry is written.
  unfoldable pub make_room : ℕ → OverrideStore env → OverrideStore env
  make_room entry_size s =
      if is_pressed s
      then (evict_entries env s.config.eviction_policy
          (max (entry_size * 2) (s.memory_tracker.current_usage / 4)) s).1
      else s

  -- The access record, and the directory cache for a new entry.
  unfoldable pub finish_insert :
      Bool → ShadowPath → OverrideStore env → Result (Unit {0}) × OverrideStore env
  finish_insert is_new path s = (
    ok tt,
    tick env 2 (record s {
      lru_tracker = record_access orders counts (now env 1 s) path s.lru_tracker;
      directory_cache =
          if is_new then note_child (parent path) path s.directory_cache else s.directory_cache;
    }),
  )

  unfoldable pub write_stats : OverrideEntry → ℕ → OverrideStore env → OverrideStore env
  write_stats e entry_size s = record s {
    stats =
        update_on_insert (now env 0 s) e entry_size (compression_saved e.content entry_size) 0
          s.stats;
  }

  abbrev pub settle_new : Allocation → OverrideEntry → ℕ → Action env (Unit {0})
  settle_new (granted t) e entry_size s =
      finish_insert true e.path (write_stats e entry_size (record s { memory_tracker = t }))
  settle_new (store_full current_size max_size) e entry_size s =
      (err (override_store_full current_size max_size), s)
  settle_new unfinished e entry_size s = (err (override_store_full 0 0), s)

  -- After the write: a new entry is paid for, and the error leaves it written. A replaced one is
  -- paid for by the old one, whatever their sizes.
  unfoldable pub settle : Option OverrideEntry → OverrideEntry → ℕ → Action env (Unit {0})
  settle none e entry_size s =
      settle_new (try_allocate zero entry_size s.memory_tracker) e entry_size s
  settle (some old) e entry_size s =
      let old_size = calculate_entry_size layout old in
      finish_insert false e.path (
        write_stats e entry_size (record s {
          stats = update_on_remove old old_size (compression_saved old.content old_size) 0 s.stats;
        }))

  -- The new allocation.
  abbrev pub make_entry :
      ShadowPath
      → OverrideContent
      → Option FileMetadata
      → FileMetadata
      → OverrideStore env
      → OverrideEntry
  make_entry path content original_metadata override_metadata s = record {
    path = path;
    content = content;
    original_metadata = original_metadata;
    override_metadata = override_metadata;
    created_at = now env 0 s;
    arc = s.next_arc;
  }

  abbrev pub allocated : OverrideStore env → OverrideStore env
  allocated s =
      tick env 2 (touch env s.next_arc (now_secs env 1 s) (record s { next_arc = s.next_arc + 1 }))

  -- The hot cache is not told.
  unfoldable pub write_entry : OverrideEntry → OverrideStore env → OverrideStore env
  write_entry e s = record s { entries = (entry_map.insert e.path e s.entries).0 }

  unfoldable pub insert_entry :
      ShadowPath → OverrideContent → Option FileMetadata → FileMetadata → Action env (Unit {0})
  insert_entry path content original_metadata override_metadata s =
      let e = make_entry path content original_metadata override_metadata s in
      let entry_size = calculate_entry_size layout e in
      let s' = make_room entry_size (allocated s) in
      settle (entry_map.insert path e s'.entries).1 e entry_size (write_entry e s')

  abbrev pub permissions_or : Option FileMetadata → FilePermissions → FilePermissions
  permissions_or none d = d
  permissions_or (some m) d = m.permissions

  abbrev pub platform_or_default : Option FileMetadata → PlatformMetadata
  platform_or_default none = default_platform
  platform_or_default (some m) = m.platform_specific

  abbrev pub compress_result : Bytes → IoResult Bytes → Bytes × Bool
  compress_result content (done c) = (c, true)
  compress_result content (failed e) = (content, false)

  -- The bytes to store, and whether they are compressed. A failure falls back to the content.
  unfoldable pub compressed : Bool → Bytes → Bytes × Bool
  compressed enabled content =
      if enabled && should_compress content
      then compress_result content (codec.compress content)
      else (content, false)

  unfoldable pub insert_file : ShadowPath → Bytes → Option FileMetadata → Action env (Unit {0})
  insert_file path content original_metadata s =
      let (stored, is_compressed) = compressed s.config.enable_compression content in
      let (dedup, content_hash, dedup_data) = store_content codec contents stored s.content_dedup in
      let override_metadata : FileMetadata = record {
        size = length content;
        created = now env 0 s;
        modified = now env 1 s;
        accessed = now env 2 s;
        permissions = permissions_or original_metadata default_file;
        file_type = FileType.file;
        platform_specific = platform_or_default original_metadata;
      } in
      insert_entry path (file dedup_data content_hash is_compressed) original_metadata
        override_metadata (tick env 3 (record s { content_dedup = dedup }))

  unfoldable pub insert_directory : ShadowPath → Option FileMetadata → Action env (Unit {0})
  insert_directory path original_metadata s =
      let override_metadata : FileMetadata = record {
        size = 0;
        created = now env 0 s;
        modified = now env 1 s;
        accessed = now env 2 s;
        permissions = permissions_or original_metadata default_directory;
        file_type = FileType.directory;
        platform_specific = platform_or_default original_metadata;
      } in
      insert_entry path (directory []) original_metadata override_metadata (tick env 3 s)

  unfoldable pub mark_deleted : ShadowPath → Action env (Unit {0})
  mark_deleted path s =
      let override_metadata : FileMetadata = record {
        size = 0;
        created = now env 0 s;
        modified = now env 1 s;
        accessed = now env 2 s;
        permissions = default_file;
        file_type = FileType.file;
        platform_specific = default_platform;
      } in
      insert_entry path deleted none override_metadata (tick env 3 s)

  abbrev original_data : Bytes → Bool → Result Bytes
  original_data content false = ok content
  original_data content true = elim (codec.decompress content) [
    | done d ↦ ok d
    | failed e ↦ err (io_error e)
  ]

  unfoldable pub insert_one : ShadowPath → OverrideContent → Action env (Unit {0})
  insert_one path (file content h is_compressed) s =
      ◌>>=◌ env (λ t. (original_data content is_compressed, t)) (λ d. insert_file path d none) s
  insert_one path (directory l) s = insert_directory path none s
  insert_one path deleted s = mark_deleted path s

  -- The first error ends the batch; what was inserted before it stays.
  unfoldable pub insert_batch : List (ShadowPath × OverrideContent) → Action env (Unit {0})
  insert_batch [] s = (ok tt, s)
  insert_batch ((path, content) ∷ l) s = ◌>>=◌ env (insert_one path content) (λ _. insert_batch l) s
