-- ===== src/Store/Eviction.antt =====
-- Evictions, batches and recursive removals of override_store/mod.rs as removals one after the
-- other.
use shadowfs.Base.{
  ℕ, ◌+◌, ◌≡◌, List, [], ◌∷◌, none, some, true, false, Bool-cases, Option-cases, inl, inr, arith,
  leb, ltb,
}
use shadowfs.Entry.{OverrideEntry, calculate_entry_size}
use shadowfs.Lru.{EvictionPolicy, get_least_recently_used}
use shadowfs.Path.{ShadowPath}
use shadowfs.Stats.{OverrideStoreStats}
use shadowfs.Store.{Env, OverrideStore}
use shadowfs.Store.Removal.{remove, evict_from, evict_entries, remove_batch}
use shadowfs.Store.Insertion.{is_pressed, make_room}
use shadowfs.Store.Tree.{remove_all}

module _ (env : Env) where
  open env use {orders, counts, layout}

  module _ (target : ℕ) (path : ShadowPath) (victims : List ShadowPath) (freed count : ℕ)
      (s : OverrideStore env) where
    abbrev pub freed_after : OverrideEntry → ℕ
    freed_after e = freed + calculate_entry_size layout e

    -- The three ways on from a candidate.
    pub evict_skip :
        (remove env path s).0 ≡ none
        → evict_from env target (path ∷ victims) freed count s
          ≡ evict_from env target victims freed count (remove env path s).1
    unfolding evict_from
    evict_skip m = ground arith

    pub evict_last :
        (e : OverrideEntry)
        → (remove env path s).0 ≡ some e
        → leb target (freed_after e) ≡ true
        → evict_from env target (path ∷ victims) freed count s
          ≡ (freed_after e, count + 1, (remove env path s).1)
    unfolding evict_from
    evict_last e m b = ground arith

    pub evict_next :
        (e : OverrideEntry)
        → (remove env path s).0 ≡ some e
        → leb target (freed_after e) ≡ false
        → evict_from env target (path ∷ victims) freed count s
          ≡ evict_from env target victims (freed_after e) (count + 1) (remove env path s).1
    unfolding evict_from
    evict_next e m b = ground arith

  module _ (P : OverrideStore env → Type 0)
      (keep : (p : ShadowPath) (s : OverrideStore env) → P s → P (remove env p s).1) where
    pub evict_from_induction :
        (target : ℕ) (l : List ShadowPath) (freed count : ℕ) (s : OverrideStore env)
        → P s
        → P (evict_from env target l freed count s).2
    evict_from_induction target [] freed count s h = unfold evict_from in h
    evict_from_induction target (p ∷ l) freed count s h =
        let h' = keep p s h in
        elim (Option-cases (remove env p s).0) [
          | inl m ↦
              rw (evict_skip target p l freed count s m)
                (evict_from_induction target l freed count (remove env p s).1 h')
          | inr (e, m) ↦
              let freed' = freed + calculate_entry_size layout e in
              elim (Bool-cases (leb target freed')) [
                | inl b ↦ rw (evict_last target p l freed count s e m b) h'
                | inr b ↦
                    rw (evict_next target p l freed count s e m b)
                      (evict_from_induction target l freed' (count + 1) (remove env p s).1 h')
              ]
        ]

    pub remove_batch_induction :
        (l : List ShadowPath) (s : OverrideStore env) → P s → P (remove_batch env l s).1
    unfolding remove_batch
    remove_batch_induction [] s h = h
    remove_batch_induction (p ∷ l) s h = remove_batch_induction l (remove env p s).1 (keep p s h)

    pub remove_all_induction :
        (l : List ShadowPath) (s : OverrideStore env) → P s → P (remove_all env l s).1
    unfolding remove_all
    remove_all_induction [] s h = h
    remove_all_induction (p ∷ l) s h = remove_all_induction l (remove env p s).1 (keep p s h)

    module _
        (keep_stats : (st : OverrideStoreStats) (s : OverrideStore env)
          → P s
          → P (record s { stats = st })) where
      pub evict_entries_induction :
          (policy : EvictionPolicy) (target : ℕ) (s : OverrideStore env)
          → P s
          → P (evict_entries env policy target s).1
      unfolding evict_entries
      evict_entries_induction policy target s h =
          let victims = get_least_recently_used orders counts 10 s.lru_tracker in
          let h' = evict_from_induction target victims 0 0 s h in
          elim (Bool-cases (ltb 0 (evict_from env target victims 0 0 s).1)) [
            | inl b ↦ rw b (keep_stats _ _ h')
            | inr b ↦ rw b h'
          ]

      pub make_room_induction :
          (entry_size : ℕ) (s : OverrideStore env) → P s → P (make_room env entry_size s)
      unfolding make_room
      make_room_induction entry_size s h = elim (Bool-cases (is_pressed env s)) [
        | inl b ↦ rw b (evict_entries_induction _ _ s h)
        | inr b ↦ rw b h
      ]
