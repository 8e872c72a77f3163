-- ===== src/XattrCache/Calls.antt =====
-- Sequences of calls of the cache of shadowfs-macos, fskit/xattr_cache.rs.
use shadowfs.Base.{
  ℕ, suc, ◌≤◌, ◌<◌, ◌≡◌, inl, inr, refl, List, [], ◌∷◌, Option, none, some, length, length-append,
  arith, Bool-cases, Option-cases, filter, keys, ap, ◌∙◌, length-put,
}
use shadowfs.Path.Buf.{components}
use shadowfs.Path.Chars.{Text}
use shadowfs.XattrCache.{
  CacheEntry, CacheKey, CacheConfig, XattrCache, find, get, missed, remove_entry, invalidated, hit,
  is_expired, note_totals, key_of, drop_first, update_lru, take_out, touched, CacheKey-discrete,
}
use shadowfs.XattrCache.Invalidation.{
  invalidate, invalidate_attr, invalidate_batch, invalidate_each, invalidate_path, invalidate_keys,
  clear, prune_expired, is_of, invalidate_key,
}
use shadowfs.XattrCache.Put.{put_attr, size_of}
use shadowfs.XattrCache.Kept.{
  IsKept, Shrinks, Shrinks-IsWithin, half, invalidated-IsKept, hit-IsKept, invalidate_keys-IsKept,
}
use shadowfs.XattrCache.Sound.{IsSound}

pub data Call : Type 0 where
  call_get : ℕ → Text → Text → Call
  call_put : ℕ → Text → Text → Option (List ℕ) → Call
  call_invalidate : Text → Call
  call_invalidate_attr : Text → Text → Call
  call_invalidate_batch : List Text → Call
  call_clear : Call
  call_prune : ℕ → Call

-- What is written is smaller than half of what a `usize` holds.
abbrev pub Fits : Call → Type 0
Fits (call_put now path attr_name value) = size_of path attr_name value < half
Fits _ = Unit

module _ (config : CacheConfig) where
  unfoldable pub step : ℕ → Call → XattrCache → Option XattrCache
  step rounds (call_get now path attr_name) s = some (get config now path attr_name s).1
  step rounds (call_put now path attr_name value) s =
      put_attr config rounds now path attr_name value s
  step rounds (call_invalidate path) s = some (invalidate path s)
  step rounds (call_invalidate_attr path attr_name) s = some (invalidate_attr path attr_name s)
  step rounds (call_invalidate_batch paths) s = some (invalidate_batch paths s)
  step rounds call_clear s = some (clear s)
  step rounds (call_prune now) s = some (prune_expired config now s)

  -- The rest of the calls, where the first came back.
  unfoldable pub then_run : (XattrCache → Option XattrCache) → Option XattrCache → Option XattrCache
  then_run rest none = none
  then_run rest (some s) = rest s

  unfoldable pub run : ℕ → List Call → XattrCache → Option XattrCache
  unfolding then_run step
  run rounds [] s = some s
  run rounds (c ∷ l) s = then_run (run rounds l) (step rounds c s)

  -- A sound state, with at most one entry and one queued key more than before.
  pub record IsNext (s t : XattrCache) : Type 0 where
    pub sound : IsSound config t
    pub entries : length t.cache ≤ suc (length s.cache)
    pub queue : length t.lru_queue ≤ suc (length s.lru_queue)

  pub noted :
      (s t : XattrCache)
      → IsSound config s
      → IsKept t × Shrinks s t
      → length t.lru_queue ≤ length s.lru_queue
      → IsNext s (note_totals t)
  unfolding note_totals
  noted s t h k l = record {
    sound = record {
      kept = record {
        distinct = k.0.distinct;
        exact = k.0.exact;
        queued = k.0.queued;
        small = k.0.small;
      };
      within = Shrinks-IsWithin config s t k.1 h.within;
      current_size = refl;
      current_entries = refl;
    };
    entries = omega (arith, k.1.1);
    queue = omega (arith, l);
  }

  pub same_IsNext : (s : XattrCache) → IsSound config s → IsNext s s
  same_IsNext s h = record { sound = h; entries = omega arith; queue = omega arith }

  -- Nothing but the counts of `CacheStats` and the queue differ.
  recounted : (s t : XattrCache) → IsNext s t → IsNext s (missed t)
  unfolding missed
  recounted s t h = record {
    sound = record {
      kept = record {
        distinct = h.sound.kept.distinct;
        exact = h.sound.kept.exact;
        queued = h.sound.kept.queued;
        small = h.sound.kept.small;
      };
      within = h.sound.within;
      current_size = h.sound.current_size;
      current_entries = h.sound.current_entries;
    };
    entries = h.entries;
    queue = h.queue;
  }

  pub remove_entry-IsNext :
      (k : CacheKey) (s : XattrCache) → IsSound config s → IsNext s (remove_entry k s)
  unfolding remove_entry invalidated take_out
  remove_entry-IsNext k s h = elim (Option-cases (find k s)) [
    | inl a ↦ rw (remove_entry, a) (same_IsNext s h)
    | inr (e, m) ↦
        rw (remove_entry, m)
          (noted s (invalidated k e s) h (invalidated-IsKept k e s h.kept m) (omega arith))
  ]

  invalidate_keys-queue :
      (l : List CacheKey) (s : XattrCache) → (invalidate_keys l s).lru_queue ≡ s.lru_queue
  unfolding invalidate_keys invalidate_key invalidated take_out
  invalidate_keys-queue [] s = refl
  invalidate_keys-queue (k ∷ l) s = ground (arith, invalidate_keys-queue l (invalidate_key k s))

  pub keys-IsNext :
      (l : List CacheKey) (s : XattrCache)
      → IsSound config s
      → IsNext s (note_totals (invalidate_keys l s))
  keys-IsNext l s h =
      noted s (invalidate_keys l s) h (invalidate_keys-IsKept l s h.kept)
        (omega (arith, ap length (invalidate_keys-queue l s)))

  pub each-IsKept :
      (paths : List Text) (s : XattrCache)
      → IsKept s
      → (IsKept (invalidate_each paths s) × Shrinks s (invalidate_each paths s))
        × ((invalidate_each paths s).lru_queue ≡ s.lru_queue)
  unfolding invalidate_each invalidate_path
  each-IsKept [] s h = ((h, (omega arith, omega arith)), refl)
  each-IsKept (path ∷ paths) s h =
      let l = filter (is_of (components path)) (keys s.cache) in
      let t = invalidate_keys l s in
      let first = invalidate_keys-IsKept l s h in
      let rest = each-IsKept paths t first.0 in
      (
        (rest.0.0, (omega (arith, first.1.0, rest.0.1.0), omega (arith, first.1.1, rest.0.1.1))),
        rest.1 ∙ invalidate_keys-queue l s,
      )

  drop_first-shorter : (k : CacheKey) (q : List CacheKey) → length (drop_first k q) ≤ length q
  unfolding drop_first
  drop_first-shorter k [] = omega arith
  drop_first-shorter k (j ∷ q) = ground (arith, drop_first-shorter k q)

  pub hit-IsNext :
      (now : ℕ) (k : CacheKey) (e : CacheEntry) (s : XattrCache)
      → IsSound config s
      → find k s ≡ some e
      → IsNext s (hit now k e s)
  unfolding hit update_lru
  hit-IsNext now k e s h m =
      let k' = hit-IsKept now k e s h.kept m in
      let count = length-put CacheKey-discrete k (touched now e) s.cache in
      record {
        sound = record {
          kept = k'.0;
          within = Shrinks-IsWithin config s (hit now k e s) k'.1 h.within;
          current_size = h.current_size;
          current_entries = ground (arith, h.current_entries, count, m);
        };
        entries = omega (arith, k'.1.1);
        queue = omega (
          arith,
          drop_first-shorter k s.lru_queue,
          length-append (drop_first k s.lru_queue) (k ∷ []),
        );
      }

  pub get-IsNext :
      (now : ℕ) (path attr_name : Text) (s : XattrCache)
      → IsSound config s
      → IsNext s (get config now path attr_name s).1
  unfolding get
  get-IsNext now path attr_name s h =
      let k = key_of path attr_name in
      elim (Option-cases (find k s)) [
        | inl a ↦ rw (get, a) (recounted s s (same_IsNext s h))
        | inr (e, m) ↦ elim (Bool-cases (is_expired config now e)) [
          | inl y ↦ rw (get, m, y) (recounted s (remove_entry k s) (remove_entry-IsNext k s h))
          | inr n ↦ rw (get, m, n) (hit-IsNext now k e s h m)
        ]
      ]
