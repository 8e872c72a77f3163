-- ===== src/Store/Calls.antt =====
-- Sequences of calls of the public methods of `OverrideStore` in override_store/mod.rs that change its
-- state, and the record of what a property has to be kept by.
use shadowfs.Base.{ℕ, ◌+◌, List, [], ◌∷◌, Option, none}
use shadowfs.Crates.Codec.{Bytes}
use shadowfs.Entry.{OverrideContent, file, directory, deleted}
use shadowfs.Error.{Result, ok, err}
use shadowfs.Metadata.{FileMetadata}
use shadowfs.Optimization.{store_content, cache_clear}
use shadowfs.Optimization.Prefetch.{PrefetchStrategy}
use shadowfs.Stats.{OverrideStoreStats}
use shadowfs.Path.{ShadowPath}
use shadowfs.Store.{Env, OverrideStore, OverrideStoreConfig, Action, ◌>>=◌}
use shadowfs.Store.Access.{get, update_config, clear_cache, reset_stats, set_prefetch_strategy}
use shadowfs.Store.Insertion.{
  insert_entry, insert_file, insert_directory, mark_deleted, insert_one, insert_batch,
}
use shadowfs.Store.Removal.{remove, evict_lru, remove_batch}
use shadowfs.Store.Tree.{
  create_directory_hierarchy, list_directory, is_empty_directory, delete_directory_recursive,
  cleanup_empty_parents,
}

module _ (env : Env) where
  open env use {orders, counts, codec, contents, caches}

  pub data Call : Type 0 where
    gets removes creates lists checks deletes cleans : ShadowPath → Call
    inserts_file : ShadowPath → Bytes → Option FileMetadata → Call
    inserts_directory : ShadowPath → Option FileMetadata → Call
    marks_deleted : ShadowPath → Call
    inserts_batch : List (ShadowPath × OverrideContent) → Call
    removes_batch : List ShadowPath → Call
    evicts clears_cache resets_stats : Call
    sets_prefetch : PrefetchStrategy → Call
    configures : OverrideStoreConfig env → Call

  -- What a call leaves; its answer, an error included, is dropped.
  unfoldable pub after : Call → OverrideStore env → OverrideStore env
  after (gets p) s = (get env p s).1
  after (removes p) s = (remove env p s).1
  after (creates p) s = (create_directory_hierarchy env p s).1
  after (lists p) s = (list_directory env p s).1
  after (checks p) s = (is_empty_directory env p s).1
  after (deletes p) s = (delete_directory_recursive env p s).1
  after (cleans p) s = cleanup_empty_parents env p s
  after (inserts_file p d m) s = (insert_file env p d m s).1
  after (inserts_directory p m) s = (insert_directory env p m s).1
  after (marks_deleted p) s = (mark_deleted env p s).1
  after (inserts_batch l) s = (insert_batch env l s).1
  after (removes_batch l) s = (remove_batch env l s).1
  after evicts s = (evict_lru env s).1
  after (configures c) s = update_config env c s
  after clears_cache s = clear_cache env s
  after resets_stats s = reset_stats env s
  after (sets_prefetch x) s = set_prefetch_strategy env x s

  unfoldable pub run : List Call → OverrideStore env → OverrideStore env
  run [] s = s
  run (c ∷ l) s = run l (after c s)

  -- The primitive steps: a read, a removal, an insertion, the deduplication of a content, the passing
  -- of time, and new values of the configuration, the statistics, the prefetcher and the hot cache.
  pub record Keeps (P : OverrideStore env → Type 0) : Type 0 where
    pub by_get : (p : ShadowPath) (s : OverrideStore env) → P s → P (get env p s).1
    pub by_remove : (p : ShadowPath) (s : OverrideStore env) → P s → P (remove env p s).1
    pub by_insert :
        (p : ShadowPath) (c : OverrideContent) (o : Option FileMetadata) (m : FileMetadata)
        (s : OverrideStore env)
        → P s
        → P (insert_entry env p c o m s).1
    pub by_dedup :
        (d : Bytes) (s : OverrideStore env)
        → P s
        → P (record s { content_dedup = (store_content codec contents d s.content_dedup).0 })
    pub by_tick : (n : ℕ) (s : OverrideStore env) → P s → P (record s { clock = s.clock + n })
    pub by_config :
        (c : OverrideStoreConfig env) (s : OverrideStore env) → P s → P (record s { config = c })
    pub by_clear :
        (s : OverrideStore env) → P s → P (record s { hot_cache = cache_clear caches s.hot_cache })
    pub by_stats :
        (x : OverrideStoreStats) (s : OverrideStore env) → P s → P (record s { stats = x })
    pub by_strategy :
        (x : PrefetchStrategy) (s : OverrideStore env) → P s → P (record s { prefetcher = x })

  module _ (P : OverrideStore env → Type 0) (k : Keeps P) where
    -- A block of actions keeps what its actions keep.
    pub bind-keeps :
        {A B : Type 0} (m : Action env A) (f : A → Action env B)
        → ((s : OverrideStore env) → P s → P (m s).1)
        → ((a : A) (s : OverrideStore env) → P s → P (f a s).1)
        → (s : OverrideStore env) → P s
        → P (◌>>=◌ env m f s).1
    unfolding ◌>>=◌
    bind-keeps {A} m f hm hf s h = continue_keeps (m s).0 (m s).1 (hm s h)
      where
        continue_keeps :
            (r : Result A) (t : OverrideStore env) → P t → P (◌>>=◌ env (λ u. (r, u)) f t).1
        continue_keeps (ok a) t u = hf a t u
        continue_keeps (err e) t u = u

    pub insert_file-keeps :
        (p : ShadowPath) (d : Bytes) (o : Option FileMetadata) (s : OverrideStore env)
        → P s
        → P (insert_file env p d o s).1
    unfolding insert_file
    insert_file-keeps p d o s h = k.by_insert p _ o _ _ (k.by_tick 3 _ (k.by_dedup _ s h))

    pub insert_directory-keeps :
        (p : ShadowPath) (o : Option FileMetadata) (s : OverrideStore env)
        → P s
        → P (insert_directory env p o s).1
    unfolding insert_directory
    insert_directory-keeps p o s h = k.by_insert p _ o _ _ (k.by_tick 3 s h)

    pub mark_deleted-keeps :
        (p : ShadowPath) (s : OverrideStore env) → P s → P (mark_deleted env p s).1
    unfolding mark_deleted
    mark_deleted-keeps p s h = k.by_insert p _ none _ _ (k.by_tick 3 s h)

    pub insert_one-keeps :
        (p : ShadowPath) (c : OverrideContent) (s : OverrideStore env)
        → P s
        → P (insert_one env p c s).1
    unfolding insert_one
    insert_one-keeps p (file d x z) s h =
        bind-keeps _ (λ b. insert_file env p b none) (λ t u. u)
          (λ b t u. insert_file-keeps p b none t u) s h
    insert_one-keeps p (directory l) s h = insert_directory-keeps p none s h
    insert_one-keeps p deleted s h = mark_deleted-keeps p s h

    pub insert_batch-keeps :
        (l : List (ShadowPath × OverrideContent)) (s : OverrideStore env)
        → P s
        → P (insert_batch env l s).1
    unfolding insert_batch
    insert_batch-keeps [] s h = h
    insert_batch-keeps ((p, c) ∷ l) s h =
        bind-keeps (insert_one env p c) (λ _. insert_batch env l) (insert_one-keeps p c)
          (λ _ t u. insert_batch-keeps l t u) s h
