-- ===== src/Store/Usage.antt =====
-- What the methods of override_store/mod.rs do to the memory account.
use shadowfs.Base.{
  ℕ, ◌+◌, ◌%◌, ◌≤◌, ◌<◌, ◌≡◌, refl, ◌∙◌, List, Option, none, some, arith, ltb, Option-cases, inl,
  inr, if◌then◌else◌,
}
use shadowfs.Entry.{OverrideContent, OverrideEntry}
use shadowfs.Error.{Result, ok, err, override_store_full}
use shadowfs.Memory.{MemoryTracker, usize_mod, usize_max, available_space}
use shadowfs.Memory.Alone.{try_allocate_lem}
use shadowfs.Metadata.{FileMetadata}
use shadowfs.Path.{ShadowPath}
use shadowfs.Store.{Env, OverrideStore}
use shadowfs.Store.Access.{get, get_from_cache, get_from_entries, note_access}
use shadowfs.Store.Calls.{Call, Keeps, run}
use shadowfs.Store.Coherence.{stored, remove_absent, remove_present}
use shadowfs.Store.Eviction.{make_room_induction}
use shadowfs.Store.Insertion.{settle, finish_insert, write_stats, write_entry, insert_entry}
use shadowfs.Store.Kept.{run-keeps}
use shadowfs.Store.Removal.{remove, after_removal}
use shadowfs.Store.Writes.{inserted, size_inserted, with_room}

-- The usage is at least `low` and at most the limit.
pub record IsHeld (low limit : ℕ) (t : MemoryTracker) : Type 0 where
  pub not_less : low ≤ t.current_usage
  pub within : t.current_usage ≤ limit
  pub limited : t.max_allowed ≡ limit

module _ (env : Env) where
  open env use {entry_map}

  get-memory :
      (p : ShadowPath) (s : OverrideStore env) → (get env p s).1.memory_tracker ≡ s.memory_tracker
  unfolding get get_from_cache get_from_entries note_access
  get-memory p s = ground arith

  remove-memory :
      (p : ShadowPath) (s : OverrideStore env)
      → (remove env p s).1.memory_tracker ≡ s.memory_tracker
  remove-memory p s = elim (Option-cases (stored env p s)) [
    | inl m ↦ rw (remove_absent env p s m) refl
    | inr (e, m) ↦ rw (remove_present env p e s m) (unfold after_removal in refl)
  ]

  -- What a tracker becomes, and what is answered, when `size` bytes are paid for.
  unfoldable pub pay : ℕ → MemoryTracker → Result (Unit {0}) × MemoryTracker
  pay size t =
      if ltb (available_space t) size
      then (err (override_store_full t.current_usage t.max_allowed), t)
      else (
        ok tt,
        record t {
          current_usage = t.current_usage + size;
          allocation_count = (t.allocation_count + 1) % usize_mod;
        },
      )

  -- The answer and the memory account.
  abbrev pub outcome : Result (Unit {0}) × OverrideStore env → Result (Unit {0}) × MemoryTracker
  outcome r = (r.0, r.1.memory_tracker)

  settle-pay :
      (e : OverrideEntry) (size : ℕ) (s : OverrideStore env)
      → s.memory_tracker.current_usage ≤ s.memory_tracker.max_allowed
      → s.memory_tracker.max_allowed < usize_max
      → outcome (settle env none e size s) ≡ pay size s.memory_tracker
  unfolding settle finish_insert write_stats pay
  settle-pay e size s h k = ground (arith, try_allocate_lem 0 size s.memory_tracker h k)

  settle-old :
      (old e : OverrideEntry) (size : ℕ) (s : OverrideStore env)
      → outcome (settle env (some old) e size s) ≡ (ok tt, s.memory_tracker)
  unfolding settle finish_insert write_stats
  settle-old old e size s = refl

  module _ (p : ShadowPath) (content : OverrideContent) (original : Option FileMetadata)
      (metadata : FileMetadata) (s : OverrideStore env) where
    with_room-memory :
        (with_room env p content original metadata s).memory_tracker ≡ s.memory_tracker
    with_room-memory =
        make_room_induction env (λ u. u.memory_tracker ≡ s.memory_tracker)
          (λ q u h. remove-memory q u ∙ h) (λ st u h. h)
          (size_inserted env p content original metadata s) _ refl

    -- Where the usage is within a limit below the largest `usize`: what `insert_entry` answers and
    -- what it leaves of the memory account. A path that has no entry once room is made is charged
    -- the entry's size if that is free; otherwise nothing is charged and the answer is the error
    -- with the usage and the limit. A path that has an entry is accepted and charged nothing.
    pub insert_entry-pay :
        s.memory_tracker.current_usage ≤ s.memory_tracker.max_allowed
        → s.memory_tracker.max_allowed < usize_max
        → outcome (insert_entry env p content original metadata s)
          ≡ elim (stored env p (with_room env p content original metadata s)) [
            | none ↦ pay (size_inserted env p content original metadata s) s.memory_tracker
            | some old ↦ (ok tt, s.memory_tracker)
          ]
    unfolding insert_entry write_entry
    insert_entry-pay h k =
        let e = inserted env p content original metadata s in
        let n = size_inserted env p content original metadata s in
        let u = with_room env p content original metadata s in
        let w = write_entry env e u in
        let same : u.memory_tracker ≡ s.memory_tracker = with_room-memory in
        elim (Option-cases (stored env p u)) [
          | inl m ↦ ground (arith, env.entry_map.insert_old p e u.entries, settle-pay e n w)
          | inr (old, m) ↦
              ground (arith, env.entry_map.insert_old p e u.entries, settle-old old e n w)
        ]

  insert_entry-IsHeld :
      (low limit : ℕ)
      → limit < usize_max
      → (p : ShadowPath) (c : OverrideContent) (o : Option FileMetadata) (m : FileMetadata)
        (s : OverrideStore env)
      → IsHeld low limit s.memory_tracker
      → IsHeld low limit (insert_entry env p c o m s).1.memory_tracker
  unfolding pay available_space
  insert_entry-IsHeld low limit k p c o m s h =
      let u = with_room env p c o m s in
      let r =
        insert_entry-pay p c o m s (omega (arith, h.within, h.limited))
          (omega (arith, h.limited)) in
      elim (Option-cases (stored env p u)) [
        | inl e ↦ ground (arith, r)
        | inr (old, e) ↦ ground (arith, r)
      ]

  IsHeld-kept :
      (low limit : ℕ) → limit < usize_max → Keeps env (λ s. IsHeld low limit s.memory_tracker)
  IsHeld-kept low limit k = record {
    by_get = λ p s h. rw (get-memory p s) h;
    by_remove = λ p s h. rw (remove-memory p s) h;
    by_insert = insert_entry-IsHeld low limit k;
    by_dedup = λ d s h. h;
    by_tick = λ n s h. h;
    by_config = λ c s h. h;
    by_clear = λ s h. h;
    by_stats = λ x s h. h;
    by_strategy = λ x s h. h;
  }

  -- From a usage within a limit below the largest `usize`, over any sequence of calls, removals,
  -- evictions and new configurations among them: the usage never falls below what it was, it stays
  -- within the limit, and the limit of the tracker stays.
  pub run-usage :
      (l : List (Call env)) (s : OverrideStore env)
      → s.memory_tracker.current_usage ≤ s.memory_tracker.max_allowed
      → s.memory_tracker.max_allowed < usize_max
      → IsHeld s.memory_tracker.current_usage s.memory_tracker.max_allowed
          (run env l s).memory_tracker
  run-usage l s h k =
      run-keeps env
        (λ t. IsHeld s.memory_tracker.current_usage s.memory_tracker.max_allowed t.memory_tracker)
        (IsHeld-kept s.memory_tracker.current_usage s.memory_tracker.max_allowed k) l s
        (record { not_less = omega arith; within = h; limited = refl })
