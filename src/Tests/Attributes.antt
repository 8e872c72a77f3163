-- ===== src/Tests/Attributes.antt =====
-- Extended attributes in a small cache.
use shadowfs.Base.{
  IsDistinct, put, List, ap, ℕ, lookup, ◌≡◌, ◌≢◌, ◌⊎◌, [], ◌∷◌, none, some, true, false, arith,
  refl, length,
}
use shadowfs.Path.Buf.{components}
use shadowfs.Path.Chars.{text}
use shadowfs.XattrCache.{
  CacheConfig, CacheKey, CacheKey-discrete, XattrCache, new, get, key_of, find, CacheEntry, hit,
  touched,
}
use shadowfs.XattrCache.Put.{put_attr, new_entry, store, make_room, is_over}
use shadowfs.XattrCache.Answers.{get-put_attr}
use shadowfs.XattrCache.Calls.{Call, call_get, call_put, run}
use shadowfs.XattrCache.Ending.{has_popular, has_victim}
use shadowfs.XattrCache.Returns.{put_attr-returns, put_attr-stuck, IsUnread}
use shadowfs.XattrCache.Runs.{run-ends}
use shadowfs.XattrCache.Sound.{IsSound}

-- Room for one entry.
abbrev narrow : CacheConfig
narrow = record {
  max_memory = 100;
  max_entries = 1;
  ttl = 5;
  cache_negatives = true;
  min_access_count = 2;
}

abbrev first_calls : List Call
first_calls =
    call_put 0 (text "/a") (text "tag") (some (1 ∷ 2 ∷ []))
    ∷ call_get 1 (text "/a") (text "tag")
    ∷ []

abbrev tag : CacheKey
tag = key_of (text "/a") (text "tag")

abbrev read_once : CacheEntry
read_once = record {
  value = some (1 ∷ 2 ∷ []);
  last_access = 1;
  created = 0;
  size = 7;
  access_count = 2;
}

-- What the calls leave.
abbrev seen : XattrCache
seen = record {
  cache = (tag, read_once) ∷ [];
  lru_queue = tag ∷ [];
  stats = record {
    hits = 1;
    misses = 0;
    evictions = 0;
    invalidations = 0;
    current_size = 7;
    current_entries = 1;
    peak_size = 7;
  };
  memory_usage = 7;
}

seen_after : run narrow 3 first_calls new ≡ some seen
unfolding run get put_attr make_room is_over store components CacheKey-discrete new_entry hit
    touched lookup put
seen_after = refl

run-ends_example :
    ((s : XattrCache) × (run narrow 3 first_calls new ≡ some s) × IsSound narrow s)
    ⊎ ((n : ℕ) → run narrow n first_calls new ≡ none)
run-ends_example = run-ends narrow 3 first_calls (omega arith) (omega arith, (tt, tt)) (omega arith)

seen_popular : has_popular narrow seen (tag ∷ []) ≡ true
unfolding has_popular lookup components CacheKey-discrete
seen_popular = refl

seen_no_victim : has_victim narrow seen (tag ∷ []) ≡ false
unfolding has_victim lookup components CacheKey-discrete
seen_no_victim = refl

seen_full : is_over narrow (new_entry 2 (text "/b") (text "tag") (some [])).size seen ≡ true
unfolding is_over new_entry
seen_full = refl

-- A second attribute is never written.
put_attr-stuck_example : put_attr narrow 1000 2 (text "/b") (text "tag") (some []) seen ≡ none
put_attr-stuck_example =
    put_attr-stuck narrow 2 (text "/b") (text "tag") (some []) seen refl seen_full seen_popular
      seen_no_victim 1000

abbrev colour : CacheKey
colour = key_of (text "/a") (text "colour")

colour-tag : colour ≢ tag
colour-tag e = omega (arith, ap (λ (k : CacheKey). length k.attr_name) e)

abbrev written : XattrCache
written = store tag (new_entry 0 (text "/a") (text "tag") (some (1 ∷ 2 ∷ []))) new

written_by_put : put_attr narrow 1 0 (text "/a") (text "tag") (some (1 ∷ 2 ∷ [])) new ≡ some written
unfolding put_attr make_room is_over store components CacheKey-discrete new_entry
written_by_put = refl

get-put_attr_example :
    ((get narrow 3 (text "/a") (text "tag") written).0 ≡ some (some (1 ∷ 2 ∷ [])))
    × ((find colour written ≡ find colour new) ⊎ (find colour written ≡ none))
get-put_attr_example =
    get-put_attr narrow 1 0 3 (text "/a") (text "tag") (some (1 ∷ 2 ∷ [])) new written colour
      written_by_put refl (omega arith) colour-tag

distinct : IsDistinct CacheKey-discrete written.cache
unfolding lookup put store
distinct = (refl, tt)

unread : IsUnread narrow written
unfolding lookup put store new_entry
unread k e m = ground (arith, m)

put_attr-returns_example :
    (s : XattrCache) × (put_attr narrow 2 1 (text "/b") (text "tag") (some []) written ≡ some s)
unfolding store put
put_attr-returns_example =
    put_attr-returns narrow 1 (text "/b") (text "tag") (some []) written 2 distinct unread
      (omega arith) (omega arith)
