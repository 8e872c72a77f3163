-- ===== src/Store/Keyed.antt =====
-- The paths of the entries in the two levels of the store of override_store/mod.rs.
use shadowfs.Base.{◌≡◌, List, Option, some, Option-cases, inl, inr, arith}
use shadowfs.Crates.LruCache.Reads.{lookup-get, lookup-put}
use shadowfs.Entry.{OverrideContent, OverrideEntry}
use shadowfs.Metadata.{FileMetadata}
use shadowfs.Optimization.{cache_clear, cache_size}
use shadowfs.Path.{ShadowPath, ShadowPath-discrete}
use shadowfs.Store.{Env, OverrideStore, OverrideStoreConfig, new}
use shadowfs.Store.Access.{get, get_from_cache, get_from_entries, note_access}
use shadowfs.Store.Calls.{Call, Keeps, run}
use shadowfs.Store.Coherence.{
  cached, stored, stored-get, stored-remove, cached-remove, remove_absent, lookup-none,
}
use shadowfs.Store.Eviction.{make_room_induction}
use shadowfs.Store.Insertion.{allocated, insert_entry}
use shadowfs.Store.Kept.{run-keeps}
use shadowfs.Store.Removal.{remove}
use shadowfs.Store.Writes.{size_inserted, stored-insert_entry, cached-insert_entry}

module _ (env : Env) where
  open env use {entry_map, caches}

  pub record IsKeyed (s : OverrideStore env) : Type 0 where
    pub main : (p : ShadowPath) (e : OverrideEntry) → stored env p s ≡ some e → e.path ≡ p
    pub hot : (p : ShadowPath) (e : OverrideEntry) → cached env p s ≡ some e → e.path ≡ p

  get-IsKeyed : (p : ShadowPath) (s : OverrideStore env) → IsKeyed s → IsKeyed (get env p s).1
  unfolding get get_from_cache get_from_entries note_access
  get-IsKeyed p s h = record {
    main = λ q e k. ground (arith, stored-get env p q s, h.main q e);
    hot = λ q e k.
        let c = s.hot_cache.hot_entries in
        elim (Option-cases (cached env p s)) [
          | inl m ↦ elim (Option-cases (stored env p s)) [
            | inl n ↦ ground (
              arith,
              caches.get_value p c,
              lookup-get ShadowPath-discrete caches p q c,
              h.hot q e,
            )
            | inr (x, n) ↦ ground (
              arith,
              caches.get_value p c,
              lookup-get ShadowPath-discrete caches p q c,
              lookup-put ShadowPath-discrete caches p q x e (caches.get p c).0,
              h.hot q e,
              h.main p x,
            )
          ]
          | inr (x, m) ↦
              ground (
                arith,
                caches.get_value p c,
                lookup-get ShadowPath-discrete caches p q c,
                h.hot q e,
              )
        ];
  }

  remove-IsKeyed : (p : ShadowPath) (s : OverrideStore env) → IsKeyed s → IsKeyed (remove env p s).1
  remove-IsKeyed p s h = elim (Option-cases (stored env p s)) [
    | inl m ↦ rw (remove_absent env p s m) h
    | inr (x, m) ↦ record {
      main = λ q e k. ground (arith, stored-remove env p q s, h.main q e);
      hot = λ q e k. ground (arith, cached-remove env p q x s m, h.hot q e);
    }
  ]

  insert_entry-IsKeyed :
      (p : ShadowPath) (c : OverrideContent) (o : Option FileMetadata) (m : FileMetadata)
      (s : OverrideStore env)
      → IsKeyed s
      → IsKeyed (insert_entry env p c o m s).1
  insert_entry-IsKeyed p c o m s h =
      let roomy =
        make_room_induction env IsKeyed remove-IsKeyed
          (λ st t u. record { main = u.main; hot = u.hot }) (size_inserted env p c o m s)
          (allocated env s) (record { main = h.main; hot = h.hot }) in
      record {
        main = λ q e k. ground (arith, stored-insert_entry env p c o m s q, roomy.main q e);
        hot = λ q e k. ground (arith, cached-insert_entry env p c o m s q, roomy.hot q e);
      }

  clear-IsKeyed :
      (s : OverrideStore env)
      → IsKeyed s
      → IsKeyed (record s { hot_cache = cache_clear caches s.hot_cache })
  unfolding cache_clear
  clear-IsKeyed s h = record {
    main = h.main;
    hot = λ q e k. ground (arith, caches.order-clear s.hot_cache.hot_entries, lookup-none env q);
  }

  IsKeyed-kept : Keeps env IsKeyed
  IsKeyed-kept = record {
    by_get = get-IsKeyed;
    by_remove = remove-IsKeyed;
    by_insert = insert_entry-IsKeyed;
    by_dedup = λ d s h. record { main = h.main; hot = h.hot };
    by_tick = λ n s h. record { main = h.main; hot = h.hot };
    by_config = λ c s h. record { main = h.main; hot = h.hot };
    by_clear = clear-IsKeyed;
    by_stats = λ x s h. record { main = h.main; hot = h.hot };
    by_strategy = λ x s h. record { main = h.main; hot = h.hot };
  }

  new-IsKeyed : (c : OverrideStoreConfig env) → IsKeyed (new env c)
  unfolding new
  new-IsKeyed c = record {
    main = λ p e k. ground (arith, entry_map.get-new p);
    hot = λ p e k.
        ground (arith, caches.order-new (cache_size caches c.cache_size), lookup-none env p);
  }

  -- From a new store, after any sequence of calls: every entry of the main store and every entry of
  -- the hot cache stands under its own path.
  pub run-IsKeyed :
      (l : List (Call env)) (c : OverrideStoreConfig env) → IsKeyed (run env l (new env c))
  run-IsKeyed l c = run-keeps env IsKeyed IsKeyed-kept l (new env c) (new-IsKeyed c)
