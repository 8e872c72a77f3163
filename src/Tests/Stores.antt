-- ===== src/Tests/Stores.antt =====
-- The store at concrete stores.
use shadowfs.Base.{
  ℕ, ◌*◌, ◌^◌, ◌≡◌, refl, List, [], ◌∷◌, none, some, false, ite, arith, length, ℕ_discrete, lookup,
  put, without,
}
use shadowfs.Crates.Codec.{Bytes}
use shadowfs.Crates.Concrete.{
  assoc_dash_map, assoc_index_map, assoc_lru_cache, plain_codec, fractions,
}
use shadowfs.Entry.{
  OverrideContent, OverrideEntry, file, get_file_data, uncompressed_size, calculate_entry_size,
}
use shadowfs.Error.{ok}
use shadowfs.Memory
use shadowfs.Memory.{MemoryTracker, try_allocate, get_pressure_ratio}
use shadowfs.Metadata.{FileMetadata, FileType, default_platform}
use shadowfs.Metadata.Permissions.{default_file}
use shadowfs.Optimization.{cache_get, cache_put, new_cache}
use shadowfs.Optimization.Sharded
use shadowfs.Optimization.Sharded.AsMap.{sharded}
use shadowfs.Path.{ShadowPath-discrete}
use shadowfs.Path.Buf.{Text-discrete, Component-discrete, display}
use shadowfs.Path.Chars.{text, str_len}
use shadowfs.Store
use shadowfs.Store.{Env, OverrideStore, OverrideStoreConfig, default_config}
use shadowfs.Store.Access.{get, note_access, get_from_cache, get_from_entries}
use shadowfs.Store.Calls.{Call, run, inserts_file, gets, deletes, creates, lists, evicts}
use shadowfs.Store.Coherence.{cached, stored, IsCoherent, new-IsCoherent, get-remove}
use shadowfs.Store.Insertion.{
  compressed, insert_entry, insert_file, is_pressed, make_room, settle, finish_insert, write_stats,
  write_entry,
}
use shadowfs.Store.Removal.{remove}
use shadowfs.Store.RoundTrip.{get-insert_file, IsUnambiguous}
use shadowfs.Store.Sound.{IsSound, run-IsSound}
use shadowfs.Store.Usage.{IsHeld, run-usage, insert_entry-pay, pay, outcome}
use shadowfs.Store.Writes.{
  inserted, size_inserted, with_room, after_insert, get-insert_entry, get-insert_entry_stale,
  stored-insert_entry,
}
use shadowfs.Tests.{docs, tmp, top}

abbrev pub env : Env
env = record {
  entry_map =
      sharded ShadowPath-discrete (assoc_dash_map ShadowPath-discrete OverrideEntry)
        (λ p. length p.inner);
  orders = assoc_index_map ShadowPath-discrete ℕ;
  counts = assoc_dash_map ShadowPath-discrete ℕ;
  names = assoc_dash_map Text-discrete Unit;
  dirs = assoc_dash_map ShadowPath-discrete (assoc_dash_map Text-discrete Unit).Map;
  contents = assoc_dash_map Text-discrete Bytes;
  caches = assoc_lru_cache ShadowPath-discrete OverrideEntry;
  codec = plain_codec;
  float = fractions;
  layout = record { override_entry = 320; file_metadata = 120; string = 24; vec = 24 };
  time = λ n. n * 10 ^ 9;
}

abbrev pub fresh : OverrideStore env
fresh = Store.new env (default_config env)

abbrev pub note : Bytes
note = text "hello"

nothing_cached : cached env docs fresh ≡ none
unfolding Store.new lookup
nothing_cached = refl

nothing_stored : IsUnambiguous env note fresh.content_dedup
unfolding Store.new lookup
nothing_stored y h = ground arith

get-insert_file_example :
    (e : OverrideEntry) × ((get env docs (insert_file env docs note none fresh).1).0 ≡ some e)
    × (get_file_data env.codec e ≡ ok (some note))
    × (uncompressed_size e ≡ length note)
    × (e.path ≡ docs)
unfolding compressed Store.new
get-insert_file_example =
    get-insert_file env docs note none fresh (new-IsCoherent env (default_config env))
      nothing_cached nothing_stored

abbrev pub details : FileMetadata
details = record {
  size = 5;
  created = 0;
  modified = 0;
  accessed = 0;
  permissions = default_file;
  file_type = FileType.file;
  platform_specific = default_platform;
}

abbrev pub content : OverrideContent
content = file note note false

abbrev pub written : OverrideStore env
written = after_insert env docs content none details fresh

get-insert_entry_example :
    IsCoherent env written
    × ((get env docs written).0 ≡ some (inserted env docs content none details fresh))
get-insert_entry_example =
    get-insert_entry env docs content none details fresh (new-IsCoherent env (default_config env))
      nothing_cached

stored-insert_entry_example :
    stored env tmp written
    ≡ ite
        (ShadowPath-discrete tmp docs)
        (some (inserted env docs content none details fresh))
        (stored env tmp (with_room env docs content none details fresh))
stored-insert_entry_example = stored-insert_entry env docs content none details fresh tmp

written-IsCoherent : IsCoherent env written
written-IsCoherent =
    (get-insert_entry env docs content none details fresh (new-IsCoherent env (default_config env))
      nothing_cached).0

get-remove_example :
    ((get env docs (remove env docs written).1).0
      ≡ ite (ShadowPath-discrete docs docs) none (get env docs written).0)
    × ((remove env docs written).0 ≡ (get env docs written).0)
get-remove_example = get-remove env docs docs written written-IsCoherent

abbrev pub calls : List (Call env)
calls =
    creates docs ∷ inserts_file docs note none ∷ gets docs ∷ lists docs ∷ deletes top ∷ evicts ∷ []

run-IsSound_example : IsSound env (run env calls fresh)
run-IsSound_example = run-IsSound env calls (default_config env)

run-usage_example : IsHeld 0 (64 * 1024 * 1024) (run env calls fresh).memory_tracker
unfolding Store.new Memory.new
run-usage_example = run-usage env calls fresh (omega arith) (omega arith)

insert_entry-pay_example :
    outcome env (insert_entry env docs content none details fresh)
    ≡ elim (stored env docs (with_room env docs content none details fresh)) [
      | none ↦ pay env (size_inserted env docs content none details fresh) fresh.memory_tracker
      | some old ↦ (ok tt, fresh.memory_tracker)
    ]
unfolding Store.new Memory.new
insert_entry-pay_example =
    insert_entry-pay env docs content none details fresh (omega arith) (omega arith)

abbrev entry : OverrideEntry
entry = inserted env docs content none details fresh

-- The state after the entry is written and read once.
abbrev warm : OverrideStore env
warm = (get env docs written).1

warm-cached : cached env docs warm ≡ some entry
unfolding get cache_get cache_put note_access get_from_cache get_from_entries insert_entry make_room
    settle finish_insert write_stats write_entry try_allocate Store.new Memory.new new_cache
    get_pressure_ratio sharded Sharded.insert Sharded.get Sharded.shard_index lookup put without
    ℕ_discrete Text-discrete Component-discrete ShadowPath-discrete calculate_entry_size str_len
    display
warm-cached = refl

warm_calm : is_pressed env warm ≡ false
unfolding get cache_get cache_put note_access get_from_cache get_from_entries insert_entry make_room
    settle finish_insert write_stats write_entry try_allocate Store.new Memory.new new_cache
    get_pressure_ratio sharded Sharded.insert Sharded.get Sharded.shard_index lookup put without
    ℕ_discrete Text-discrete Component-discrete ShadowPath-discrete calculate_entry_size str_len
    display
warm_calm = refl

get-insert_entry_stale_example :
    (get env docs (after_insert env docs OverrideContent.deleted none details warm)).0 ≡ some entry
get-insert_entry_stale_example =
    get-insert_entry_stale env docs OverrideContent.deleted none details warm entry warm-cached
      warm_calm
