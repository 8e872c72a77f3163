-- ===== src/Store/Coherence.antt =====
-- The hot cache of the store of override_store/mod.rs against its main store.
use shadowfs.Base.{
  refl, ◌≡◌, sym, ◌∙◌, [], Option, none, some, ite, lookup, Option-cases, inl, inr, arith,
}
use shadowfs.Crates.LruCache.Reads.{lookup-get, lookup-put, lookup-pop}
use shadowfs.Entry.{OverrideEntry}
use shadowfs.Optimization.{cache_size, cache_remove, cache_clear}
use shadowfs.Path.{ShadowPath, ShadowPath-discrete}
use shadowfs.Store.{Env, OverrideStore, OverrideStoreConfig, new}
use shadowfs.Store.Access.{get, get_from_cache, get_from_entries, note_access, clear_cache}
use shadowfs.Store.Removal.{remove, after_removal, remove_found}

module _ (env : Env) where
  open env use {entry_map, caches}

  -- What the hot cache holds for a path.
  abbrev pub cached : ShadowPath → OverrideStore env → Option OverrideEntry
  cached p s = lookup ShadowPath-discrete p (caches.order s.hot_cache.hot_entries)

  abbrev pub stored : ShadowPath → OverrideStore env → Option OverrideEntry
  stored p s = entry_map.get p s.entries

  -- Whatever is cached is what is stored.
  pub record IsCoherent (s : OverrideStore env) : Type 0 where
    pub at : (p : ShadowPath) (e : OverrideEntry) → cached p s ≡ some e → stored p s ≡ some e

  pub lookup-none : (p : ShadowPath) → lookup {V = OverrideEntry} ShadowPath-discrete p [] ≡ none
  unfolding lookup
  lookup-none p = refl

  -- In any state: a read returns what is cached, and where nothing is, what is stored.
  pub get_value :
      (p : ShadowPath) (s : OverrideStore env)
      → (get env p s).0 ≡ elim (cached p s) [ none ↦ stored p s | some e ↦ some e ]
  unfolding get get_from_cache get_from_entries
  get_value p s = ground (arith, caches.get_value p s.hot_cache.hot_entries)

  -- In a coherent state a read returns what is stored.
  pub get-stored :
      (p : ShadowPath) (s : OverrideStore env) → IsCoherent s → (get env p s).0 ≡ stored p s
  get-stored p s h = elim (Option-cases (cached p s)) [
    | inl e ↦ ground (arith, get_value p s)
    | inr (x, e) ↦ ground (arith, get_value p s, h.at p x)
  ]

  -- A read changes what is stored nowhere, and keeps the cache coherent.
  pub stored-get :
      (p q : ShadowPath) (s : OverrideStore env) → stored q (get env p s).1 ≡ stored q s
  unfolding get get_from_cache get_from_entries note_access
  stored-get p q s = ground arith

  -- A read keeps a state coherent: what it caches is what is stored.
  pub get-IsCoherent :
      (p : ShadowPath) (s : OverrideStore env) → IsCoherent s → IsCoherent (get env p s).1
  unfolding get get_from_cache get_from_entries note_access
  get-IsCoherent p s h = record {
    at = λ q e k.
        let c = s.hot_cache.hot_entries in
        let c' = (caches.get p c).0 in
        elim (Option-cases (cached p s)) [
          | inl m ↦ elim (Option-cases (stored p s)) [
            | inl n ↦
                ground (
                  arith,
                  caches.get_value p c,
                  lookup-get ShadowPath-discrete caches p q c,
                  h.at q e,
                )
            | inr (x, n) ↦ ground (
              arith,
              caches.get_value p c,
              lookup-get ShadowPath-discrete caches p q c,
              lookup-put ShadowPath-discrete caches p q x e c',
              h.at q e,
            )
          ]
          | inr (x, m) ↦
              ground
                (arith, caches.get_value p c, lookup-get ShadowPath-discrete caches p q c, h.at q e)
        ];
  }

  -- The two outcomes of a removal.
  pub remove_absent :
      (p : ShadowPath) (s : OverrideStore env) → stored p s ≡ none → remove env p s ≡ (none, s)
  unfolding remove
  remove_absent p s m = ground (arith, entry_map.remove_old p s.entries)

  pub remove_present :
      (p : ShadowPath) (e : OverrideEntry) (s : OverrideStore env)
      → stored p s ≡ some e
      → remove env p s ≡ (some e, after_removal env p e (entry_map.remove p s.entries).0 s)
  remove_present p e s m = remove_found env p e s (entry_map.remove_old p s.entries ∙ m)

  pub removed_value : (p : ShadowPath) (s : OverrideStore env) → (remove env p s).0 ≡ stored p s
  removed_value p s = elim (Option-cases (stored p s)) [
    | inl m ↦ rw (remove_absent p s m) (sym m)
    | inr (e, m) ↦ rw (remove_present p e s m) (sym m)
  ]

  -- A removal takes the path out of the main store and leaves every other path.
  pub stored-remove :
      (p q : ShadowPath) (s : OverrideStore env)
      → stored q (remove env p s).1 ≡ ite (ShadowPath-discrete q p) none (stored q s)
  stored-remove p q s = elim (Option-cases (stored p s)) [
    | inl m ↦ rw (remove_absent p s m) (ground arith)
    | inr (e, m) ↦
        rw (remove_present p e s m) (unfold after_removal in entry_map.get-remove p q s.entries)
  ]

  -- Nothing is cached at a path after its removal, and the cache is as it was elsewhere.
  pub cached-remove :
      (p q : ShadowPath) (e : OverrideEntry) (s : OverrideStore env)
      → stored p s ≡ some e
      → cached q (remove env p s).1 ≡ ite (ShadowPath-discrete q p) none (cached q s)
  cached-remove p q e s m = rw (remove_present p e s m) (
      unfold after_removal cache_remove in
      lookup-pop ShadowPath-discrete caches p q s.hot_cache.hot_entries)

  -- A removal keeps a state coherent: the path leaves the cache with the main store.
  pub remove-IsCoherent :
      (p : ShadowPath) (s : OverrideStore env) → IsCoherent s → IsCoherent (remove env p s).1
  remove-IsCoherent p s h = elim (Option-cases (stored p s)) [
    | inl m ↦ rw (remove_absent p s m) h
    | inr (e, m) ↦ record {
      at = λ q x k. ground (arith, cached-remove p q e s m, stored-remove p q s, h.at q x);
    }
  ]

  -- In a coherent state, what a read finds at any path after a removal: nothing at the removed
  -- path, and what it found before at every other one. The removal answers what a read of the path
  -- would have found.
  pub get-remove :
      (p q : ShadowPath) (s : OverrideStore env)
      → IsCoherent s
      → ((get env q (remove env p s).1).0 ≡ ite (ShadowPath-discrete q p) none (get env q s).0)
        × ((remove env p s).0 ≡ (get env p s).0)
  get-remove p q s h =
      let h' = remove-IsCoherent p s h in
      (
        ground (arith, get-stored q (remove env p s).1 h', get-stored q s h, stored-remove p q s),
        removed_value p s ∙ sym (get-stored p s h),
      )

  pub new-IsCoherent : (c : OverrideStoreConfig env) → IsCoherent (new env c)
  unfolding new
  new-IsCoherent c = record {
    at = λ p e k. ground (arith, caches.order-new (cache_size caches c.cache_size), lookup-none p);
  }

  -- In any state, also one where the cache holds what is not stored: clearing the cache leaves a
  -- coherent state, and the next read of any path returns what is stored there.
  pub clear_cache-IsCoherent :
      (p : ShadowPath) (s : OverrideStore env)
      → IsCoherent (clear_cache env s)
        × ((get env p (clear_cache env s)).0 ≡ entry_map.get p s.entries)
  unfolding clear_cache cache_clear
  clear_cache-IsCoherent p s =
      let h : IsCoherent (clear_cache env s) = record {
        at = λ q e k. ground (arith, caches.order-clear s.hot_cache.hot_entries, lookup-none q);
      } in
      (h, get-stored p (clear_cache env s) h)
