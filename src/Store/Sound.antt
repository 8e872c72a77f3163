-- ===== src/Store/Sound.antt =====
-- The parts of the store of override_store/mod.rs beside its entries: the access tracker, the
-- directory cache and the deduplicated contents.
use shadowfs.Base.{
  ℕ, ◌≡◌, List, [], ◌∷◌, Option, none, some, Bool, true, false, arith, Option-cases, Bool-cases,
  inl, inr,
}
use shadowfs.Crates.Codec.{Bytes, ContentHash}
use shadowfs.Directory.{DirectoryCache}
use shadowfs.Directory.Children.{NoEmptySet, add_child-NoEmptySet, remove_child-NoEmptySet}
use shadowfs.Directory.Traversal.{get_filename}
use shadowfs.Entry.{OverrideContent, OverrideEntry}
use shadowfs.Lru.Order.{IsTracked, new-IsTracked, record_access-IsTracked, remove_entry-IsTracked}
use shadowfs.Memory.{Allocation, granted, store_full, unfinished, try_allocate}
use shadowfs.Metadata.{FileMetadata}
use shadowfs.Optimization.{ContentDeduplication, store_content, cache_get}
use shadowfs.Path.{ShadowPath, parent}
use shadowfs.Path.Chars.{Text}
use shadowfs.Store.{Env, OverrideStore, OverrideStoreConfig, new}
use shadowfs.Store.Access.{get, get_from_cache, get_from_entries, note_access}
use shadowfs.Store.Calls.{Call, Keeps, run}
use shadowfs.Store.Coherence.{stored, remove_absent, remove_present}
use shadowfs.Store.Eviction.{make_room_induction}
use shadowfs.Store.Insertion.{
  note_child, settle_new, settle, finish_insert, write_stats, write_entry, insert_entry,
}
use shadowfs.Store.Kept.{run-keeps}
use shadowfs.Store.Removal.{remove, after_removal, forget_child, unless_empty}
use shadowfs.Store.Writes.{size_inserted}

module _ (env : Env) where
  open env use {entry_map, orders, counts, names, dirs, codec, contents}

  -- Each content is stored under its hash.
  pub record IsHashed (d : ContentDeduplication codec contents) : Type 0 where
    pub at :
        (h : ContentHash) (x : Bytes) → contents.get h d.content_hashes ≡ some x → codec.hash x ≡ h

  pub store_content-IsHashed :
      (x : Bytes) (d : ContentDeduplication codec contents)
      → IsHashed d
      → IsHashed (store_content codec contents x d).0
  unfolding store_content
  store_content-IsHashed x d h = record {
    at = λ k y e. elim (Option-cases (contents.get (codec.hash x) d.content_hashes)) [
      | inl m ↦ ground (arith, contents.get-insert (codec.hash x) k x d.content_hashes, h.at k y)
      | inr (z, m) ↦ ground (arith, h.at k y)
    ];
  }

  pub record IsSound (s : OverrideStore env) : Type 0 where
    pub tracked : IsTracked orders counts s.lru_tracker
    pub filled : NoEmptySet names dirs s.directory_cache
    pub hashed : IsHashed s.content_dedup

  unless_empty-NoEmptySet :
      (n : Text) (c d : DirectoryCache names dirs)
      → NoEmptySet names dirs c
      → NoEmptySet names dirs d
      → NoEmptySet names dirs (unless_empty env n c d)
  unless_empty-NoEmptySet [] c d h k = h
  unless_empty-NoEmptySet (x ∷ n) c d h k = k

  forget_child-NoEmptySet :
      (q : Option ShadowPath) (p : ShadowPath) (c : DirectoryCache names dirs)
      → NoEmptySet names dirs c
      → NoEmptySet names dirs (forget_child env q p c)
  unfolding forget_child
  forget_child-NoEmptySet none p c h = h
  forget_child-NoEmptySet (some q) p c h =
      unless_empty-NoEmptySet (get_filename p) c _ h
        (remove_child-NoEmptySet names dirs q (get_filename p) c h)

  note_child-NoEmptySet :
      (q : Option ShadowPath) (p : ShadowPath) (c : DirectoryCache names dirs)
      → NoEmptySet names dirs c
      → NoEmptySet names dirs (note_child env q p c)
  unfolding note_child
  note_child-NoEmptySet none p c h = h
  note_child-NoEmptySet (some q) p c h =
      unless_empty-NoEmptySet (get_filename p) c _ h
        (add_child-NoEmptySet names dirs q (get_filename p) c h)

  get_from_entries-IsSound :
      (f : Option OverrideEntry) (p : ShadowPath) (s : OverrideStore env)
      → IsSound s
      → IsSound (get_from_entries env f p s).1
  unfolding get_from_entries note_access
  get_from_entries-IsSound none p s h = record {
    tracked = h.tracked;
    filled = h.filled;
    hashed = h.hashed;
  }
  get_from_entries-IsSound (some e) p s h = record {
    tracked = record_access-IsTracked orders counts _ p s.lru_tracker h.tracked;
    filled = h.filled;
    hashed = h.hashed;
  }

  get_from_cache-IsSound :
      (f : Option OverrideEntry) (p : ShadowPath) (s : OverrideStore env)
      → IsSound s
      → IsSound (get_from_cache env f p s).1
  unfolding get_from_cache note_access
  get_from_cache-IsSound none p s h = get_from_entries-IsSound (entry_map.get p s.entries) p s h
  get_from_cache-IsSound (some e) p s h = record {
    tracked = record_access-IsTracked orders counts _ p s.lru_tracker h.tracked;
    filled = h.filled;
    hashed = h.hashed;
  }

  get-IsSound : (p : ShadowPath) (s : OverrideStore env) → IsSound s → IsSound (get env p s).1
  unfolding get
  get-IsSound p s h =
      let r = cache_get env.caches p s.hot_cache in
      get_from_cache-IsSound r.1 p (record s { hot_cache = r.0 })
        (record { tracked = h.tracked; filled = h.filled; hashed = h.hashed })

  remove-IsSound : (p : ShadowPath) (s : OverrideStore env) → IsSound s → IsSound (remove env p s).1
  remove-IsSound p s h = elim (Option-cases (stored env p s)) [
    | inl m ↦ rw (remove_absent env p s m) h
    | inr (e, m) ↦ rw (remove_present env p e s m) (
        unfold after_removal in
        record {
          tracked = remove_entry-IsTracked orders counts p s.lru_tracker h.tracked;
          filled = forget_child-NoEmptySet (parent p) p s.directory_cache h.filled;
          hashed = h.hashed;
        })
  ]

  finish-IsSound :
      (is_new : Bool) (p : ShadowPath) (s : OverrideStore env)
      → IsSound s
      → IsSound (finish_insert env is_new p s).1
  unfolding finish_insert
  finish-IsSound is_new p s h = record {
    tracked = record_access-IsTracked orders counts _ p s.lru_tracker h.tracked;
    filled = elim (Bool-cases is_new) [
      | inl b ↦ rw b (note_child-NoEmptySet (parent p) p s.directory_cache h.filled)
      | inr b ↦ rw b h.filled
    ];
    hashed = h.hashed;
  }

  stats-IsSound :
      (e : OverrideEntry) (n : ℕ) (s : OverrideStore env)
      → IsSound s
      → IsSound (write_stats env e n s)
  unfolding write_stats
  stats-IsSound e n s h = record { tracked = h.tracked; filled = h.filled; hashed = h.hashed }

  settle_new-IsSound :
      (a : Allocation) (e : OverrideEntry) (n : ℕ) (s : OverrideStore env)
      → IsSound s
      → IsSound (settle_new env a e n s).1
  settle_new-IsSound (granted t) e n s h =
      finish-IsSound true e.path _
        (stats-IsSound e n _ (record { tracked = h.tracked; filled = h.filled; hashed = h.hashed }))
  settle_new-IsSound (store_full c m) e n s h = h
  settle_new-IsSound unfinished e n s h = h

  settle-IsSound :
      (old : Option OverrideEntry) (e : OverrideEntry) (n : ℕ) (s : OverrideStore env)
      → IsSound s
      → IsSound (settle env old e n s).1
  unfolding settle
  settle-IsSound none e n s h = settle_new-IsSound (try_allocate 0 n s.memory_tracker) e n s h
  settle-IsSound (some old) e n s h =
      finish-IsSound false e.path _
        (stats-IsSound e n _ (record { tracked = h.tracked; filled = h.filled; hashed = h.hashed }))

  insert_entry-IsSound :
      (p : ShadowPath) (c : OverrideContent) (o : Option FileMetadata) (m : FileMetadata)
      (s : OverrideStore env)
      → IsSound s
      → IsSound (insert_entry env p c o m s).1
  unfolding insert_entry write_entry
  insert_entry-IsSound p c o m s h =
      let roomy =
        make_room_induction env IsSound remove-IsSound
          (λ st t u. record { tracked = u.tracked; filled = u.filled; hashed = u.hashed })
          (size_inserted env p c o m s) _
          (record { tracked = h.tracked; filled = h.filled; hashed = h.hashed }) in
      settle-IsSound _ _ _ _
        (record { tracked = roomy.tracked; filled = roomy.filled; hashed = roomy.hashed })

  IsSound-kept : Keeps env IsSound
  IsSound-kept = record {
    by_get = get-IsSound;
    by_remove = remove-IsSound;
    by_insert = insert_entry-IsSound;
    by_dedup = λ d s h. record {
      tracked = h.tracked;
      filled = h.filled;
      hashed = store_content-IsHashed d s.content_dedup h.hashed;
    };
    by_tick = λ n s h. record { tracked = h.tracked; filled = h.filled; hashed = h.hashed };
    by_config = λ c s h. record { tracked = h.tracked; filled = h.filled; hashed = h.hashed };
    by_clear = λ s h. record { tracked = h.tracked; filled = h.filled; hashed = h.hashed };
    by_stats = λ x s h. record { tracked = h.tracked; filled = h.filled; hashed = h.hashed };
    by_strategy = λ x s h. record { tracked = h.tracked; filled = h.filled; hashed = h.hashed };
  }

  new-IsSound : (c : OverrideStoreConfig env) → IsSound (new env c)
  unfolding new
  new-IsSound c = record {
    tracked = new-IsTracked orders counts;
    filled = record { child = λ p s e. ground (arith, dirs.get-new p) };
    hashed = record { at = λ h x e. ground (arith, contents.get-new h) };
  }

  -- From a new store, after any sequence of calls: no path stands twice in the access order and the
  -- paths with a count are those of the order; no directory has an empty set of children in the
  -- directory cache; and each deduplicated content is stored under its hash.
  pub run-IsSound :
      (l : List (Call env)) (c : OverrideStoreConfig env) → IsSound (run env l (new env c))
  run-IsSound l c = run-keeps env IsSound IsSound-kept l (new env c) (new-IsSound c)
