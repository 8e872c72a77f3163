-- ===== src/Store/Tree.antt =====
-- The directory operations of override_store/mod.rs.
use shadowfs.Base.{
  ℕ, List, [], ◌∷◌, ◌++◌, reverse, keys, Option, none, some, Bool, true, false, if◌then◌else◌,
}
use shadowfs.Directory.{get_children, directory_count, total_child_count}
use shadowfs.Directory.Traversal.{get_parent_chain, find_affected_children}
use shadowfs.Entry.{
  OverrideContent, OverrideEntry, file, directory, deleted, is_deleted, is_directory,
}
use shadowfs.Error.{ok, err, not_found, not_a_directory}
use shadowfs.Memory.{get_pressure_ratio}
use shadowfs.Metadata.{FileMetadata}
use shadowfs.Optimization.Prefetch.{get_prefetch_paths}
use shadowfs.Path.{ShadowPath, join}
use shadowfs.Path.Chars.{Text}
use shadowfs.Path.Buf.{components}
use shadowfs.Store.{Env, OverrideStore, Action, ◌>>=◌}
use shadowfs.Store.Access.{get, exists}
use shadowfs.Store.Insertion.{insert_directory, mark_deleted}
use shadowfs.Store.Removal.{remove}

pub record DirectoryEntry : Type 0 where
  pub name : Text
  pub metadata : FileMetadata

module _ (env : Env) where
  open env use {entry_map, names, dirs, float}

  unfoldable pub ensure_directory : ShadowPath → Action env (Unit {0})
  ensure_directory path s =
      if exists env path s then (ok tt, s) else insert_directory env path none s

  unfoldable pub ensure_directories : List ShadowPath → Action env (Unit {0})
  ensure_directories [] s = (ok tt, s)
  ensure_directories (path ∷ l) s = ◌>>=◌ env (ensure_directory path) (λ _. ensure_directories l) s

  unfoldable pub create_directory_hierarchy : ShadowPath → Action env (Unit {0})
  create_directory_hierarchy path =
      ◌>>=◌ env (ensure_directories (reverse (get_parent_chain path))) (λ _. ensure_directory path)

  -- Each prefetch is a read whose answer is dropped.
  unfoldable pub prefetch : List ShadowPath → OverrideStore env → OverrideStore env
  prefetch [] s = s
  prefetch (path ∷ l) s = prefetch l (get env path s).1

  abbrev cons_live : Text → Option OverrideEntry → List DirectoryEntry → List DirectoryEntry
  cons_live name none rest = rest
  cons_live name (some e) rest =
      if is_deleted e then rest else record { name = name; metadata = e.override_metadata } ∷ rest

  unfoldable pub list_children :
      ShadowPath → List Text → OverrideStore env → List DirectoryEntry × OverrideStore env
  list_children path [] s = ([], s)
  list_children path (name ∷ l) s =
      let (found, s') = get env (join path (components name)) s in
      let (rest, s'') = list_children path l s' in (cons_live name found rest, s'')

  abbrev list_content : OverrideContent → ShadowPath → Action env (List DirectoryEntry)
  list_content (directory l) path s =
      let names' = get_children names dirs path s.directory_cache in
      let s' = prefetch (get_prefetch_paths s.prefetcher path names') s in
      let (entries, s'') = list_children path names' s' in (ok entries, s'')
  list_content deleted path s = (err (not_found path), s)
  list_content (file d h z) path s = (err (not_a_directory path), s)

  unfoldable pub list_found : Option OverrideEntry → ShadowPath → Action env (List DirectoryEntry)
  list_found none path s = (ok [], s)
  list_found (some e) path s = list_content e.content path s

  -- No override at the path is an empty listing.
  unfoldable pub list_directory : ShadowPath → Action env (List DirectoryEntry)
  list_directory path s = let (found, s') = get env path s in list_found found path s'

  abbrev pub is_live : Option OverrideEntry → Bool
  is_live none = false
  is_live (some e) = if is_deleted e then false else true

  -- The loop stops at the first child that is not deleted.
  unfoldable pub no_live_child :
      ShadowPath → List Text → OverrideStore env → Bool × OverrideStore env
  no_live_child path [] s = (true, s)
  no_live_child path (name ∷ l) s =
      let (found, s') = get env (join path (components name)) s in
      let rest = no_live_child path l s' in if is_live found then (false, s') else rest

  abbrev is_empty_content :
      OverrideContent → ShadowPath → OverrideStore env → Bool × OverrideStore env
  is_empty_content (directory l) path s =
      no_live_child path (get_children names dirs path s.directory_cache) s
  is_empty_content deleted path s = (false, s)
  is_empty_content (file d h z) path s = (false, s)

  unfoldable pub is_empty_found :
      Option OverrideEntry → ShadowPath → OverrideStore env → Bool × OverrideStore env
  is_empty_found none path s = (false, s)
  is_empty_found (some e) path s = is_empty_content e.content path s

  unfoldable pub is_empty_directory : ShadowPath → OverrideStore env → Bool × OverrideStore env
  is_empty_directory path s = let (found, s') = get env path s in is_empty_found found path s'

  -- The paths that were there, and the store without them.
  unfoldable pub remove_all :
      List ShadowPath → OverrideStore env → List ShadowPath × OverrideStore env
  remove_all [] s = ([], s)
  remove_all (path ∷ l) s =
      let (removed, s') = remove env path s in
      let (rest, s'') = remove_all l s' in
      (elim removed [ none ↦ rest | some e ↦ path ∷ rest ], s'')

  unfoldable pub delete_directory_recursive : ShadowPath → Action env (List ShadowPath)
  delete_directory_recursive path s =
      let affected = find_affected_children path (keys (entry_map.iter s.entries)) in
      let (removed, s') = remove_all affected s in
      ◌>>=◌ env (mark_deleted env path) (λ _ t. (ok (removed ++ path ∷ []), t)) s'

  abbrev pub remove_directory :
      ShadowPath → Option OverrideEntry → OverrideStore env → OverrideStore env
  remove_directory path none s = s
  remove_directory path (some e) s = if is_directory e then (remove env path s).1 else s

  -- Up the chain, until a parent that is not an empty directory.
  unfoldable pub cleanup_from : List ShadowPath → OverrideStore env → OverrideStore env
  cleanup_from [] s = s
  cleanup_from (path ∷ l) s =
      let (empty, s') = is_empty_directory path s in
      let (found, s'') = get env path s' in
      let rest = cleanup_from l (remove_directory path found s'') in if empty then rest else s'

  unfoldable pub cleanup_empty_parents : ShadowPath → OverrideStore env → OverrideStore env
  cleanup_empty_parents path s = cleanup_from (get_parent_chain path) s

  unfoldable pub get_children_recursive : ShadowPath → OverrideStore env → List ShadowPath
  get_children_recursive path s = find_affected_children path (keys (entry_map.iter s.entries))

  unfoldable pub directory_stats : OverrideStore env → ℕ × ℕ
  directory_stats s =
      (directory_count names dirs s.directory_cache, total_child_count names dirs s.directory_cache)

  -- The usage, the limit of the configuration, and the pressure.
  unfoldable pub memory_stats : OverrideStore env → ℕ × ℕ × float.F64
  memory_stats s = (
    s.memory_tracker.current_usage,
    s.config.max_memory,
    get_pressure_ratio float s.memory_tracker,
  )
