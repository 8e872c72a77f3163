-- ===== src/Store/Kept.antt =====
-- The rule of `Store/Calls` for the methods that are made of primitive steps, and for sequences of
-- calls, of override_store/mod.rs.
use shadowfs.Base.{List, [], ◌∷◌, reverse, Option, none, some, Bool-cases, inl, inr, keys}
use shadowfs.Directory.{get_children}
use shadowfs.Directory.Traversal.{get_parent_chain, find_affected_children}
use shadowfs.Entry.{OverrideContent, OverrideEntry, file, directory, deleted, is_directory}
use shadowfs.Lru.{get_least_recently_used}
use shadowfs.Optimization.Prefetch.{get_prefetch_paths}
use shadowfs.Path.{ShadowPath, join}
use shadowfs.Path.Chars.{Text}
use shadowfs.Path.Buf.{components}
use shadowfs.Store.{Env, OverrideStore}
use shadowfs.Store.Access.{
  get, update_config, exists, clear_cache, reset_stats, set_prefetch_strategy,
}
use shadowfs.Store.Calls.{
  Call, gets, removes, creates, lists, checks, deletes, cleans, inserts_file, inserts_directory,
  marks_deleted, inserts_batch, removes_batch, evicts, configures, clears_cache, resets_stats,
  sets_prefetch, after, run, Keeps, bind-keeps, insert_file-keeps, insert_directory-keeps,
  mark_deleted-keeps, insert_batch-keeps,
}
use shadowfs.Store.Insertion.{mark_deleted}
use shadowfs.Store.Removal.{evict_lru, evict_first}
use shadowfs.Store.Eviction.{remove_batch_induction, remove_all_induction}
use shadowfs.Store.Tree.{
  ensure_directory, ensure_directories, create_directory_hierarchy, prefetch, list_children,
  list_found, list_directory, no_live_child, is_empty_found, is_empty_directory,
  delete_directory_recursive, cleanup_from, cleanup_empty_parents, is_live, remove_directory,
}

module _ (env : Env) (P : OverrideStore env → Type 0) (k : Keeps env P) where
  open env use {orders, counts, names, dirs, entry_map}

  ensure_directory-keeps :
      (p : ShadowPath) (s : OverrideStore env) → P s → P (ensure_directory env p s).1
  unfolding ensure_directory
  ensure_directory-keeps p s h = elim (Bool-cases (exists env p s)) [
    | inl b ↦ rw b h
    | inr b ↦ rw b (insert_directory-keeps env P k p none s h)
  ]

  ensure_directories-keeps :
      (l : List ShadowPath) (s : OverrideStore env) → P s → P (ensure_directories env l s).1
  unfolding ensure_directories
  ensure_directories-keeps [] s h = h
  ensure_directories-keeps (p ∷ l) s h =
      bind-keeps env P k (ensure_directory env p) (λ _. ensure_directories env l)
        (ensure_directory-keeps p) (λ _ t u. ensure_directories-keeps l t u) s h

  create-keeps :
      (p : ShadowPath) (s : OverrideStore env) → P s → P (create_directory_hierarchy env p s).1
  unfolding create_directory_hierarchy
  create-keeps p s h =
      bind-keeps env P k (ensure_directories env (reverse (get_parent_chain p)))
        (λ _. ensure_directory env p) (ensure_directories-keeps (reverse (get_parent_chain p)))
        (λ _ t u. ensure_directory-keeps p t u) s h

  prefetch-keeps : (l : List ShadowPath) (s : OverrideStore env) → P s → P (prefetch env l s)
  unfolding prefetch
  prefetch-keeps [] s h = h
  prefetch-keeps (p ∷ l) s h = prefetch-keeps l (get env p s).1 (k.by_get p s h)

  list_children-keeps :
      (p : ShadowPath) (l : List Text) (s : OverrideStore env) → P s → P (list_children env p l s).1
  unfolding list_children
  list_children-keeps p [] s h = h
  list_children-keeps p (n ∷ l) s h =
      let q = join p (components n) in list_children-keeps p l (get env q s).1 (k.by_get q s h)

  list_found-keeps :
      (found : Option OverrideEntry) (p : ShadowPath) (s : OverrideStore env)
      → P s
      → P (list_found env found p s).1
  unfolding list_found
  list_found-keeps none p s h = h
  list_found-keeps (some e) p s h = of_content e.content
    where
      of_content :
          (c : OverrideContent) → P (list_found env (some (record e { content = c })) p s).1
      of_content (directory l) =
          list_children-keeps p (get_children names dirs p s.directory_cache) _ (
            prefetch-keeps
              (get_prefetch_paths s.prefetcher p (get_children names dirs p s.directory_cache)) s h)
      of_content deleted = h
      of_content (file d x z) = h

  list_directory-keeps :
      (p : ShadowPath) (s : OverrideStore env) → P s → P (list_directory env p s).1
  unfolding list_directory
  list_directory-keeps p s h = list_found-keeps (get env p s).0 p (get env p s).1 (k.by_get p s h)

  no_live_child-keeps :
      (p : ShadowPath) (l : List Text) (s : OverrideStore env) → P s → P (no_live_child env p l s).1
  unfolding no_live_child
  no_live_child-keeps p [] s h = h
  no_live_child-keeps p (n ∷ l) s h =
      let q = join p (components n) in
      let h' = k.by_get q s h in
      elim (Bool-cases (is_live env (get env q s).0)) [
        | inl b ↦ rw b h'
        | inr b ↦ rw b (no_live_child-keeps p l (get env q s).1 h')
      ]

  is_empty_found-keeps :
      (found : Option OverrideEntry) (p : ShadowPath) (s : OverrideStore env)
      → P s
      → P (is_empty_found env found p s).1
  unfolding is_empty_found
  is_empty_found-keeps none p s h = h
  is_empty_found-keeps (some e) p s h = of_content e.content
    where
      of_content :
          (c : OverrideContent) → P (is_empty_found env (some (record e { content = c })) p s).1
      of_content (directory l) =
          no_live_child-keeps p (get_children names dirs p s.directory_cache) s h
      of_content deleted = h
      of_content (file d x z) = h

  is_empty_directory-keeps :
      (p : ShadowPath) (s : OverrideStore env) → P s → P (is_empty_directory env p s).1
  unfolding is_empty_directory
  is_empty_directory-keeps p s h =
      is_empty_found-keeps (get env p s).0 p (get env p s).1 (k.by_get p s h)

  delete-keeps :
      (p : ShadowPath) (s : OverrideStore env) → P s → P (delete_directory_recursive env p s).1
  unfolding delete_directory_recursive
  delete-keeps p s h =
      bind-keeps env P k (mark_deleted env p) _ (mark_deleted-keeps env P k p) (λ _ t u. u) _
        (remove_all_induction env P k.by_remove
          (find_affected_children p (keys (entry_map.iter s.entries))) s h)

  remove_directory-keeps :
      (p : ShadowPath) (found : Option OverrideEntry) (s : OverrideStore env)
      → P s
      → P (remove_directory env p found s)
  remove_directory-keeps p none s h = h
  remove_directory-keeps p (some e) s h = elim (Bool-cases (is_directory e)) [
    | inl b ↦ rw b (k.by_remove p s h)
    | inr b ↦ rw b h
  ]

  cleanup_from-keeps :
      (l : List ShadowPath) (s : OverrideStore env) → P s → P (cleanup_from env l s)
  unfolding cleanup_from
  cleanup_from-keeps [] s h = h
  cleanup_from-keeps (p ∷ l) s h =
      let s1 = (is_empty_directory env p s).1 in
      let h1 = is_empty_directory-keeps p s h in
      let s2 = (get env p s1).1 in
      let h2 = k.by_get p s1 h1 in
      elim (Bool-cases (is_empty_directory env p s).0) [
        | inl b ↦ rw b (
            cleanup_from-keeps l (remove_directory env p (get env p s1).0 s2)
              (remove_directory-keeps p (get env p s1).0 s2 h2))
        | inr b ↦ rw b h1
      ]

  evict_first-keeps :
      (l : List ShadowPath) (s : OverrideStore env) → P s → P (evict_first env l s).1
  evict_first-keeps [] s h = h
  evict_first-keeps (p ∷ l) s h = k.by_remove p s h

  evict_lru-keeps : (s : OverrideStore env) → P s → P (evict_lru env s).1
  unfolding evict_lru
  evict_lru-keeps s h =
      evict_first-keeps (get_least_recently_used orders counts 1 s.lru_tracker) s h

  after-keeps : (c : Call env) (s : OverrideStore env) → P s → P (after env c s)
  unfolding after cleanup_empty_parents update_config clear_cache reset_stats set_prefetch_strategy
  after-keeps (gets p) s h = k.by_get p s h
  after-keeps (removes p) s h = k.by_remove p s h
  after-keeps (creates p) s h = create-keeps p s h
  after-keeps (lists p) s h = list_directory-keeps p s h
  after-keeps (checks p) s h = is_empty_directory-keeps p s h
  after-keeps (deletes p) s h = delete-keeps p s h
  after-keeps (cleans p) s h = cleanup_from-keeps (get_parent_chain p) s h
  after-keeps (inserts_file p d m) s h = insert_file-keeps env P k p d m s h
  after-keeps (inserts_directory p m) s h = insert_directory-keeps env P k p m s h
  after-keeps (marks_deleted p) s h = mark_deleted-keeps env P k p s h
  after-keeps (inserts_batch l) s h = insert_batch-keeps env P k l s h
  after-keeps (removes_batch l) s h = remove_batch_induction env P k.by_remove l s h
  after-keeps evicts s h = evict_lru-keeps s h
  after-keeps (configures c) s h = k.by_config c s h
  after-keeps clears_cache s h = k.by_clear s h
  after-keeps resets_stats s h = k.by_stats _ s h
  after-keeps (sets_prefetch x) s h = k.by_strategy x s h

  pub run-keeps : (l : List (Call env)) (s : OverrideStore env) → P s → P (run env l s)
  unfolding run
  run-keeps [] s h = h
  run-keeps (c ∷ l) s h = run-keeps l (after env c s) (after-keeps c s h)
