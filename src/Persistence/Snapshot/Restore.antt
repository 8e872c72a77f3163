-- ===== src/Persistence/Snapshot/Restore.antt =====
-- `OverrideSnapshot::restore_to_store` of override_store/persistence.rs on a snapshot of a store.
pub mod Dirs
use shadowfs.Base.{
  ℕ, ◌+◌, ◌<◌, ◌≡◌, ◌≢◌, refl, sym, ap, subst, ◌==◌, ◌∙◌, List, [], ◌∷◌, map, Option, none, some,
  true, ite, arith, lookup, ℕ_discrete, IsDistinct, Option-cases, inl, inr,
}
use shadowfs.Crates.Hasher.{Hasher}
use shadowfs.Entry.{OverrideEntry}
use shadowfs.Error.{ok}
use shadowfs.Directory
use shadowfs.Directory.{has_child}
use shadowfs.Memory
use shadowfs.Stats
use shadowfs.Optimization.{cache_size}
use shadowfs.Path.Chars.{Text}
use shadowfs.Path.{ShadowPath, ShadowPath-discrete}
use shadowfs.Persistence.Snapshot.{
  SavedEntry, save_entry, unchecked, restore_entry, restore_entries, restored, restore_dirs,
  calculate_checksum, verify_integrity, from_store, restore_to_store,
}
use shadowfs.Persistence.Snapshot.Restore.Dirs.{has_child-restored}
use shadowfs.Store
use shadowfs.Store.{Env, OverrideStore, OverrideStoreConfig}
use shadowfs.Store.Coherence.{stored, cached, lookup-none}

==_refl : (n : ℕ) → (n == n) ≡ true
==_refl n = ground arith

-- An entry with its access time, and without the number of its allocation.
abbrev pub seen : Option OverrideEntry → (ℕ → ℕ) → Option SavedEntry
seen none times = none
seen (some e) times = some (record { entry = record e { arc = 0 }; last_accessed = times e.arc })

abbrev pub as_saved : Option SavedEntry → Option SavedEntry
as_saved none = none
as_saved (some e) = some (record e { entry = record e.entry { arc = 0 } })

module _ (env : Env) where
  open env use {entry_map, names, dirs, caches}

  abbrev pub view : ShadowPath → OverrideStore env → Option SavedEntry
  view p s = seen (stored env p s) s.last_accessed

  -- No entry stands in an allocation that is still to come.
  abbrev IsAllocated : OverrideStore env → Type 0
  IsAllocated s =
      (p : ShadowPath) (e : OverrideEntry) → stored env p s ≡ some e → e.arc < s.next_arc

  restore_entry-IsAllocated :
      (p : ShadowPath) (e : SavedEntry) (s : OverrideStore env)
      → IsAllocated s
      → IsAllocated (restore_entry env p e s)
  unfolding restore_entry
  restore_entry-IsAllocated p e s h q x k =
      ground
        (arith, entry_map.get-insert p q (record e.entry { arc = s.next_arc }) s.entries, h q x)

  view-restore_entry :
      (p q : ShadowPath) (e : SavedEntry) (s : OverrideStore env)
      → IsAllocated s
      → view q (restore_entry env p e s)
        ≡ ite (ShadowPath-discrete q p) (as_saved (some e)) (view q s)
  unfolding restore_entry
  view-restore_entry p q e s h = elim (Option-cases (stored env q s)) [
    | inl f ↦
        ground (arith, entry_map.get-insert p q (record e.entry { arc = s.next_arc }) s.entries)
    | inr (x, f) ↦
        ground
          (arith, entry_map.get-insert p q (record e.entry { arc = s.next_arc }) s.entries, h q x)
  ]

  restore_entries-view :
      (l : List (ShadowPath × SavedEntry)) (q : ShadowPath) (s : OverrideStore env)
      → IsAllocated s
      → IsDistinct ShadowPath-discrete l
      → view q (restore_entries env l s)
        ≡ elim (lookup ShadowPath-discrete q l) [ none ↦ view q s | some e ↦ as_saved (some e) ]
  unfolding restore_entries lookup
  restore_entries-view [] q s h d = refl
  restore_entries-view ((p, e) ∷ l) q s h d =
      let rest =
        restore_entries-view l q (restore_entry env p e s) (restore_entry-IsAllocated p e s h)
          d.1 in
      ground (arith, rest, view-restore_entry p q e s h)

  lookup-save_entry :
      (l : List (ShadowPath × OverrideEntry)) (q : ShadowPath) (s : OverrideStore env)
      → elim (lookup ShadowPath-discrete q (map (save_entry env s) l)) [
        | none ↦ none
        | some e ↦ as_saved (some e)
      ]
        ≡ seen (lookup ShadowPath-discrete q l) s.last_accessed
  unfolding lookup
  lookup-save_entry [] q s = refl
  lookup-save_entry ((p, e) ∷ l) q s = ground (arith, lookup-save_entry l q s)

  save_entry_absent :
      (l : List (ShadowPath × OverrideEntry)) (q : ShadowPath) (s : OverrideStore env)
      → lookup ShadowPath-discrete q l ≡ none
      → lookup ShadowPath-discrete q (map (save_entry env s) l) ≡ none
  unfolding lookup
  save_entry_absent [] q s h = refl
  save_entry_absent ((p, e) ∷ l) q s h = ground (arith, save_entry_absent l q s)

  save_entry-IsDistinct :
      (l : List (ShadowPath × OverrideEntry)) (s : OverrideStore env)
      → IsDistinct ShadowPath-discrete l
      → IsDistinct ShadowPath-discrete (map (save_entry env s) l)
  save_entry-IsDistinct [] s h = tt
  save_entry-IsDistinct ((p, e) ∷ l) s h =
      (save_entry_absent l p s h.0, save_entry-IsDistinct l s h.1)

  -- Everything but the entries and the access tracker stays as it is built.
  restore_entries-rest :
      (l : List (ShadowPath × SavedEntry)) (s : OverrideStore env)
      → let t = restore_entries env l s in
        (t.directory_cache ≡ s.directory_cache)
        × (t.hot_cache ≡ s.hot_cache)
        × (t.memory_tracker ≡ s.memory_tracker)
        × (t.stats ≡ s.stats)
        × (t.config ≡ s.config)
  unfolding restore_entries restore_entry
  restore_entries-rest [] s = (refl, refl, refl, refl, refl)
  restore_entries-rest ((p, e) ∷ l) s = restore_entries-rest l (restore_entry env p e s)

  new-IsAllocated : (c : OverrideStoreConfig env) → IsAllocated (Store.new env c)
  unfolding Store.new
  new-IsAllocated c p e h = ground (arith, entry_map.get-new p)

  -- What is built from the entries of a store.
  pub view-restored :
      (s : OverrideStore env) (q : ShadowPath) → view q (restored env (unchecked env s)) ≡ view q s
  unfolding Store.new
  view-restored s q =
      let l = entry_map.iter s.entries in
      restore_entries-view (map (save_entry env s) l) q (Store.new env s.config)
        (new-IsAllocated s.config) (save_entry-IsDistinct l s (entry_map.iter-IsDistinct s.entries))
      ∙ ground
          (arith, lookup-save_entry l q s, entry_map.lookup-iter q s.entries, entry_map.get-new q)

  fresh_dirs :
      (s : OverrideStore env)
      → (restore_entries env (unchecked env s).entries (Store.new env s.config)).directory_cache
        ≡ Directory.new names dirs
  unfolding Store.new
  fresh_dirs s = (restore_entries-rest (unchecked env s).entries (Store.new env s.config)).0

  not_cached_new :
      (c : OverrideStoreConfig env) (p : ShadowPath) → cached env p (Store.new env c) ≡ none
  unfolding Store.new
  not_cached_new c p =
      ground (arith, caches.order-new (cache_size caches c.cache_size), lookup-none env p)

  not_cached :
      (s : OverrideStore env) (p : ShadowPath)
      → cached env p (restored env (unchecked env s)) ≡ none
  not_cached s p =
      let (_, h, _, _, _) =
        restore_entries-rest (unchecked env s).entries (Store.new env s.config) in
      ap (λ c. lookup ShadowPath-discrete p (caches.order c.hot_entries)) h
      ∙ not_cached_new s.config p

  fresh_accounts :
      (s : OverrideStore env)
      → let t = restored env (unchecked env s) in
        (t.memory_tracker ≡ Memory.new s.config.max_memory) × (t.stats ≡ Stats.new)
  unfolding Store.new
  fresh_accounts s =
      let (_, _, m, n, _) =
        restore_entries-rest (unchecked env s).entries (Store.new env s.config) in
      (m, n)

  fresh_config : (s : OverrideStore env) → (restored env (unchecked env s)).config ≡ s.config
  unfolding Store.new
  fresh_config s =
      let (_, _, _, _, c) =
        restore_entries-rest (unchecked env s).entries (Store.new env s.config) in
      c

  module _ (hasher : Hasher (OverrideStoreConfig env) SavedEntry) where
    verify_integrity-from_store :
        (s : OverrideStore env) → verify_integrity env hasher (from_store env hasher s).0 ≡ true
    unfolding verify_integrity from_store calculate_checksum
    verify_integrity-from_store s = ==_refl _

    accepted :
        (s : OverrideStore env)
        → restore_to_store env hasher (from_store env hasher s).0
          ≡ ok (restored env (unchecked env s))
    unfolding restore_to_store from_store
    accepted s = rw (restore_to_store, verify_integrity-from_store s) refl

    -- A snapshot of any store is restored to a store with the same configuration, the same entries
    -- with the same access times, up to the numbers of their allocations, the same names in every
    -- directory, and an empty hot cache.
    pub restore_to_store-from_store :
        (s : OverrideStore env)
        → (t : OverrideStore env) × (restore_to_store env hasher (from_store env hasher s).0 ≡ ok t)
          × ((p : ShadowPath) → (view p t ≡ view p s) × (cached env p t ≡ none))
          × ((p : ShadowPath) (n : Text)
              → has_child names dirs p n t.directory_cache
                ≡ has_child names dirs p n s.directory_cache)
          × (t.config ≡ s.config)
    restore_to_store-from_store s = (
      restored env (unchecked env s),
      accepted s,
      λ p. (view-restored s p, not_cached s p),
      λ p n.
          ap
            (λ d.
              has_child names dirs p n (restore_dirs env (unchecked env s).directory_children d))
            (fresh_dirs s)
          ∙ has_child-restored env p n s.directory_cache,
      fresh_config s,
    )

    -- A store that is restored from a snapshot of any store has the memory tracker and the
    -- statistics of an empty store.
    pub restore_to_store_uncharged :
        (s t : OverrideStore env)
        → restore_to_store env hasher (from_store env hasher s).0 ≡ ok t
        → (t.memory_tracker ≡ Memory.new s.config.max_memory) × (t.stats ≡ Stats.new)
    restore_to_store_uncharged s t e =
        let answers : ok (restored env (unchecked env s)) ≡ ok t = sym (accepted s) ∙ e in
        let same : restored env (unchecked env s) ≡ t = cc in
        subst
          (λ (u : OverrideStore env).
            (u.memory_tracker ≡ Memory.new s.config.max_memory) × (u.stats ≡ Stats.new))
          same (fresh_accounts s)
