-- ===== src/XattrCache/Runs.antt =====
-- What any sequence of calls leaves of the cache of shadowfs-macos, fskit/xattr_cache.rs.
use shadowfs.Base.{
  ℕ, ◌+◌, ◌≤◌, ◌<◌, ◌≡◌, ◌⊎◌, inl, inr, refl, List, [], ◌∷◌, Option, none, some, not, ◌&&◌, length,
  length-append, length-put, arith, Bool-cases, Option-cases, is_none, All, ap, weigh, lookup,
  filter, keys,
}
use shadowfs.Path.Buf.{components}
use shadowfs.Path.Chars.{Text}
use shadowfs.XattrCache.{CacheKey-discrete, CacheConfig, XattrCache, new, key_of, note_totals}
use shadowfs.XattrCache.Invalidation.{
  invalidate, invalidate_batch, invalidate_each, invalidate_path, clear, prune_expired, is_of,
  expired_keys,
}
use shadowfs.XattrCache.Put.{put_attr, new_entry, store, note_peak}
use shadowfs.XattrCache.Calls.{
  Call, call_get, call_put, call_invalidate, call_invalidate_attr, call_invalidate_batch,
  call_clear, call_prune, Fits, step, run, then_run, IsNext, noted, same_IsNext, get-IsNext,
  keys-IsNext, each-IsKept, remove_entry-IsNext,
}
use shadowfs.XattrCache.Kept.{half}
use shadowfs.XattrCache.Rounds.{Agree, Agree-some, put_attr-agrees}
use shadowfs.XattrCache.Sound.{IsSound, make_room-ends}
use shadowfs.XattrCache.Stored.{store-IsSound}

module _ (config : CacheConfig) where
  -- A call comes back with a sound state at the given number of rounds, or never.
  abbrev ComesBack : ℕ → Call → XattrCache → Type 0
  ComesBack rounds c s =
      ((t : XattrCache) × (step config rounds c s ≡ some t) × IsNext config s t)
      ⊎ ((n : ℕ) → step config n c s ≡ none)

  emptied : (s : XattrCache) → IsSound config (clear s)
  unfolding weigh lookup
  emptied s = record {
    kept = record {
      distinct = tt;
      exact = refl;
      queued = λ k y. absurd (ground (arith, y));
      small = omega arith;
    };
    within = inr (omega arith);
    current_size = refl;
    current_entries = refl;
  }

  cleared : (s : XattrCache) → IsNext config s (clear s)
  cleared s = record { sound = emptied s; entries = omega arith; queue = omega arith }

  put-ends :
      (rounds now : ℕ) (path attr_name : Text) (value : Option (List ℕ)) (s : XattrCache)
      → IsSound config s
      → config.max_memory ≤ half
      → Fits (call_put now path attr_name value)
      → length s.cache < rounds
      → length s.lru_queue < rounds
      → ComesBack rounds (call_put now path attr_name value) s
  unfolding step put_attr store note_totals note_peak new_entry
  put-ends rounds now path attr_name value s h m f c l =
      let e = new_entry now path attr_name value in
      let k = key_of path attr_name in
      elim (Bool-cases (not config.cache_negatives && is_none value)) [
        | inl y ↦ inl (s, rw (put_attr, y) refl, same_IsNext config s h)
        | inr w ↦ elim (make_room-ends config e.size rounds rounds s h.kept c l) [
          | inl (t, back, r) ↦
              let count = length-put CacheKey-discrete k e t.cache in
              inl (
                store k e t,
                rw (put_attr, w, back) refl,
                record {
                  sound = store-IsSound config k e s t r m f;
                  entries = ground (arith, count, r.fewer);
                  queue = omega (arith, length-append t.lru_queue (k ∷ []), r.shorter);
                },
              )
          | inr never ↦ inr (λ n. rw (put_attr, w, never n n) refl)
        ]
      ]

  step-ends :
      (rounds : ℕ) (c : Call) (s : XattrCache)
      → IsSound config s
      → config.max_memory ≤ half
      → Fits c
      → length s.cache < rounds
      → length s.lru_queue < rounds
      → ComesBack rounds c s
  unfolding step invalidate invalidate_path invalidate_batch prune_expired
  step-ends rounds (call_get now path attr_name) s h m f c l =
      inl (_, refl, get-IsNext config now path attr_name s h)
  step-ends rounds (call_put now path attr_name value) s h m f c l =
      put-ends rounds now path attr_name value s h m f c l
  step-ends rounds (call_invalidate path) s h m f c l =
      inl (_, refl, keys-IsNext config (filter (is_of (components path)) (keys s.cache)) s h)
  step-ends rounds (call_invalidate_attr path attr_name) s h m f c l =
      inl (_, refl, remove_entry-IsNext config (key_of path attr_name) s h)
  step-ends rounds (call_invalidate_batch paths) s h m f c l =
      let each = each-IsKept config paths s h.kept in
      inl (
        _,
        refl,
        noted config s (invalidate_each paths s) h each.0 (omega (arith, ap length each.1)),
      )
  step-ends rounds call_clear s h m f c l = inl (clear s, refl, cleared s)
  step-ends rounds (call_prune now) s h m f c l =
      inl (_, refl, keys-IsNext config (expired_keys config now s.cache) s h)

  step-agrees :
      (n m : ℕ) (c : Call) (s : XattrCache) → Agree (step config n c s) (step config m c s)
  unfolding step
  step-agrees n m (call_put now path attr_name value) s =
      put_attr-agrees config n m now path attr_name value s
  step-agrees n m (call_get now path attr_name) s = inr (inr refl)
  step-agrees n m (call_invalidate path) s = inr (inr refl)
  step-agrees n m (call_invalidate_attr path attr_name) s = inr (inr refl)
  step-agrees n m (call_invalidate_batch paths) s = inr (inr refl)
  step-agrees n m call_clear s = inr (inr refl)
  step-agrees n m (call_prune now) s = inr (inr refl)

  never_after :
      (rounds : ℕ) (c : Call) (l : List Call) (s t : XattrCache)
      → step config rounds c s ≡ some t
      → ((n : ℕ) → run config n l t ≡ none)
      → (n : ℕ) → run config n (c ∷ l) s ≡ none
  unfolding run then_run
  never_after rounds c l s t back h n = elim (Option-cases (step config n c s)) [
    | inl a ↦ rw (run, a) refl
    | inr (u, f) ↦
        let same : t ≡ u =
          Agree-some (step config rounds c s) (step config n c s) t u (step-agrees rounds n c s)
            back f in
        rw (run, f, ← same) (h n)
  ]

  run_from :
      (rounds : ℕ) (l : List Call) (s : XattrCache)
      → IsSound config s
      → config.max_memory ≤ half
      → All Fits l
      → length s.cache + length l < rounds
      → length s.lru_queue + length l < rounds
      → ((t : XattrCache) × (run config rounds l s ≡ some t) × IsSound config t)
        ⊎ ((n : ℕ) → run config n l s ≡ none)
  unfolding run then_run
  run_from rounds [] s h m f c q = inl (s, refl, h)
  run_from rounds (x ∷ l) s h m f c q =
      elim (step-ends rounds x s h m f.0 (omega (arith, c)) (omega (arith, q))) [
        | inr never ↦ inr (λ n. rw (run, never n) refl)
        | inl (t, back, next) ↦
            elim (run_from rounds l t next.sound m f.1 (omega (arith, c, next.entries))
              (omega (arith, q, next.queue))) [
                | inl (u, done, sound) ↦ inl (u, rw (run, back) done, sound)
                | inr never ↦ inr (never_after rounds x l s t back never)
              ]
      ]

  -- For a limit of at most 2^63 bytes, entries below 2^63 bytes, and more rounds than there are
  -- calls: a sequence of calls on a new cache comes back with the account of the memory equal to
  -- the sizes of the entries, every entry's key in the queue, true totals in the statistics, and
  -- both limits kept or at most one entry; or it does not come back for any number of rounds.
  pub run-ends :
      (rounds : ℕ) (l : List Call)
      → config.max_memory ≤ half
      → All Fits l
      → length l < rounds
      → ((s : XattrCache) × (run config rounds l new ≡ some s) × IsSound config s)
        ⊎ ((n : ℕ) → run config n l new ≡ none)
  run-ends rounds l m f c =
      run_from rounds l new (emptied new) m f (omega (arith, c)) (omega (arith, c))
