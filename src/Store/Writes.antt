-- ===== src/Store/Writes.antt =====
-- What `insert_entry` of override_store/mod.rs leaves to be read in the main store and through the
-- hot cache.
use shadowfs.Base.{
  ℕ, ◌≡◌, refl, ◌∙◌, ap, Option, none, some, false, ite, arith, lookup, Option-cases, inl, inr,
}
use shadowfs.Entry.{OverrideContent, OverrideEntry, calculate_entry_size}
use shadowfs.Metadata.{FileMetadata}
use shadowfs.Path.{ShadowPath, ShadowPath-discrete}
use shadowfs.Optimization.{ReadThroughCache}
use shadowfs.Store.{Env, OverrideStore}
use shadowfs.Store.Access.{get}
use shadowfs.Store.Coherence.{
  cached, stored, IsCoherent, get_value, get-stored, cached-remove, remove-IsCoherent,
  remove_absent,
}
use shadowfs.Store.Eviction.{make_room_induction}
use shadowfs.Store.Removal.{remove}
use shadowfs.Store.Insertion.{
  is_pressed, make_room, finish_insert, write_stats, settle, make_entry, allocated, write_entry,
  insert_entry,
}

module _ (env : Env) where
  open env use {entry_map, layout}

  -- Settling the account writes neither to the main store nor to the hot cache.
  settle-entries :
      (old : Option OverrideEntry) (e : OverrideEntry) (n : ℕ) (s : OverrideStore env)
      → ((settle env old e n s).1.entries ≡ s.entries)
        × ((settle env old e n s).1.hot_cache ≡ s.hot_cache)
  unfolding settle finish_insert write_stats
  settle-entries none e n s = (ground arith, ground arith)
  settle-entries (some old) e n s = (refl, refl)

  module _ (p : ShadowPath) (content : OverrideContent) (original : Option FileMetadata)
      (metadata : FileMetadata) (s : OverrideStore env) where
    -- The entry that the call makes, its size, the store that it is written to, and the store after.
    abbrev pub inserted : OverrideEntry
    inserted = make_entry env p content original metadata s

    abbrev pub size_inserted : ℕ
    size_inserted = calculate_entry_size layout inserted

    abbrev pub with_room : OverrideStore env
    with_room = make_room env size_inserted (allocated env s)

    abbrev pub after_insert : OverrideStore env
    after_insert = (insert_entry env p content original metadata s).1

    -- In any state: after `insert_entry`, whatever it answers, the main store has the new entry at
    -- the path, and at every other path what making room left there.
    pub stored-insert_entry :
        (q : ShadowPath)
        → stored env q after_insert
          ≡ ite (ShadowPath-discrete q p) (some inserted) (stored env q with_room)
    unfolding insert_entry write_entry
    stored-insert_entry q =
        ap (entry_map.get q)
          (settle-entries (entry_map.insert p inserted with_room.entries).1 inserted size_inserted
            (write_entry env inserted with_room)).0
        ∙ entry_map.get-insert p q inserted with_room.entries

    pub cached-insert_entry : (q : ShadowPath) → cached env q after_insert ≡ cached env q with_room
    unfolding insert_entry write_entry
    cached-insert_entry q =
        ap
          (λ (c : ReadThroughCache env.caches).
            lookup ShadowPath-discrete q (env.caches.order c.hot_entries))
          (settle-entries (entry_map.insert p inserted with_room.entries).1 inserted size_inserted
            (write_entry env inserted with_room)).1

    -- Room is made by removals: what is cached stays coherent, and no path comes to be cached.
    abbrev Uncached : OverrideStore env → Type 0
    Uncached t = IsCoherent env t × (cached env p t ≡ none)

    Uncached-remove :
        (q : ShadowPath) (t : OverrideStore env) → Uncached t → Uncached (remove env q t).1
    Uncached-remove q t h = (
      remove-IsCoherent env q t h.0,
      elim (Option-cases (stored env q t)) [
        | inl m ↦ rw (remove_absent env q t m) h.1
        | inr (e, m) ↦ ground (arith, cached-remove env q p e t m)
      ],
    )

    Uncached-with_room : IsCoherent env s → cached env p s ≡ none → Uncached with_room
    Uncached-with_room h m =
        make_room_induction env Uncached Uncached-remove (λ st t u. (record { at = u.0.at }, u.1))
          size_inserted (allocated env s) (record { at = h.at }, m)

    -- In a coherent state where the path is not cached: after `insert_entry`, whatever it answers,
    -- the state is coherent and a read of the path finds the new entry.
    pub get-insert_entry :
        IsCoherent env s
        → cached env p s ≡ none
        → IsCoherent env after_insert × ((get env p after_insert).0 ≡ some inserted)
    get-insert_entry h m =
        let u = Uncached-with_room h m in
        let coherent : IsCoherent env after_insert = record {
          at = λ q e k. ground (arith, cached-insert_entry q, stored-insert_entry q, u.0.at q e);
        } in
        (coherent, ground (arith, get-stored env p after_insert coherent, stored-insert_entry p))

    -- Where the path is cached and the memory is not under pressure: after `insert_entry`, whatever
    -- was written, a read of the path still finds the entry that was cached.
    pub get-insert_entry_stale :
        (old : OverrideEntry)
        → cached env p s ≡ some old
        → is_pressed env s ≡ false
        → (get env p after_insert).0 ≡ some old
    unfolding make_room
    get-insert_entry_stale old m calm =
        ground (arith, get_value env p after_insert, cached-insert_entry p)
