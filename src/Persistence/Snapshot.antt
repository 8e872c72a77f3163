-- ===== src/Persistence/Snapshot.antt =====
-- `OverrideSnapshot` of override_store/persistence.rs. A `HashMap` is the list of its entries in the
-- order of its iteration, which the code does not rely on.
pub mod Restore
use shadowfs.Base.{
  ℕ, ◌+◌, List, [], ◌∷◌, map, Option, none, Bool, true, false, ltb, ◌==◌, if◌then◌else◌, ite,
  ℕ_discrete,
}
use shadowfs.Crates.Hasher.{Hasher}
use shadowfs.Directory.{DirectoryCache, add_child, get_children, get_all_parents}
use shadowfs.Entry.{OverrideEntry}
use shadowfs.Error.{Result, ok, err}
use shadowfs.Lru.{record_access}
use shadowfs.Lru.Sorting.{sort_by}
use shadowfs.Path.{ShadowPath, to_string}
use shadowfs.Path.Chars.{Text, text}
use shadowfs.Persistence.Log.{linux_error}
use shadowfs.Store
use shadowfs.Store.{Env, OverrideStore, OverrideStoreConfig, now, now_secs, tick, touch}

-- `str::cmp`: by the bytes, which is by the characters.
unfoldable pub text_leb : Text → Text → Bool
text_leb [] b = true
text_leb (x ∷ a) [] = false
text_leb (x ∷ a) (y ∷ b) =
    let rest = text_leb a b in if ltb x y then true else if x == y then rest else false

-- A clone of an entry: a value of its own, with the access time that the clone copies. The number of
-- its allocation means nothing here.
pub record SavedEntry : Type 0 where
  pub entry : OverrideEntry
  pub last_accessed : ℕ

module _ (env : Env) where
  open env use {entry_map, orders, counts, names, dirs}

  pub record OverrideSnapshot : Type 0 where
    pub config : OverrideStoreConfig env
    pub entries : List (ShadowPath × SavedEntry)
    pub directory_children : List (ShadowPath × List Text)
    pub timestamp : ℕ
    pub checksum : ℕ

  abbrev pub save_entry : OverrideStore env → ShadowPath × OverrideEntry → ShadowPath × SavedEntry
  save_entry s (path, e) = (path, record { entry = e; last_accessed = s.last_accessed e.arc })

  abbrev pub unchecked : OverrideStore env → OverrideSnapshot
  unchecked s = record {
    config = s.config;
    entries = map (save_entry s) (entry_map.iter s.entries);
    directory_children =
        map (λ parent. (parent, get_children names dirs parent s.directory_cache))
          (get_all_parents names dirs s.directory_cache);
    timestamp = now_secs env 0 s;
    checksum = 0;
  }

  -- One entry, in an allocation of its own. The memory tracker and the statistics are not told.
  unfoldable pub restore_entry : ShadowPath → SavedEntry → OverrideStore env → OverrideStore env
  restore_entry path e s = tick env 1 (
      touch env s.next_arc e.last_accessed (record s {
        entries = (entry_map.insert path (record e.entry { arc = s.next_arc }) s.entries).0;
        lru_tracker = record_access orders counts (now env 0 s) path s.lru_tracker;
        next_arc = s.next_arc + 1;
      }))

  unfoldable pub restore_entries :
      List (ShadowPath × SavedEntry) → OverrideStore env → OverrideStore env
  restore_entries [] s = s
  restore_entries ((path, e) ∷ l) s = restore_entries l (restore_entry path e s)

  unfoldable pub restore_children :
      ShadowPath → List Text → DirectoryCache names dirs → DirectoryCache names dirs
  restore_children parent [] d = d
  restore_children parent (child_name ∷ l) d =
      restore_children parent l (add_child names dirs parent child_name d)

  unfoldable pub restore_dirs :
      List (ShadowPath × List Text) → DirectoryCache names dirs → DirectoryCache names dirs
  restore_dirs [] d = d
  restore_dirs ((parent, children) ∷ l) d = restore_dirs l (restore_children parent children d)

  abbrev pub restored : OverrideSnapshot → OverrideStore env
  restored snapshot =
      let s = restore_entries snapshot.entries (Store.new env snapshot.config) in
      record s { directory_cache = restore_dirs snapshot.directory_children s.directory_cache }

  module _ (hasher : Hasher (OverrideStoreConfig env) SavedEntry) where
    open hasher use {State, hash_text, hash_texts, hash_u64, debug_config, debug_entry}

    abbrev by_text : {V : Type 0} → ShadowPath × V → ShadowPath × V → Bool
    by_text a b = text_leb (to_string a.0) (to_string b.0)

    unfoldable pub hash_entries : List (ShadowPath × SavedEntry) → State → State
    hash_entries [] h = h
    hash_entries ((path, e) ∷ l) h =
        hash_entries l (hash_text (debug_entry e) (hash_text (to_string path) h))

    unfoldable pub hash_dirs : List (ShadowPath × List Text) → State → State
    hash_dirs [] h = h
    hash_dirs ((path, children) ∷ l) h =
        hash_dirs l (hash_texts (sort_by text_leb children) (hash_text (to_string path) h))

    -- The configuration, the entries and the directories by their paths, and the time.
    unfoldable pub calculate_checksum : OverrideSnapshot → ℕ
    calculate_checksum snapshot = hasher.finish (
        hash_u64 snapshot.timestamp (
          hash_dirs (sort_by by_text snapshot.directory_children) (
            hash_entries (sort_by by_text snapshot.entries)
              (hash_text (debug_config snapshot.config) hasher.new))))

    unfoldable pub verify_integrity : OverrideSnapshot → Bool
    verify_integrity snapshot = calculate_checksum snapshot == snapshot.checksum

    unfoldable pub from_store : OverrideStore env → OverrideSnapshot × OverrideStore env
    from_store s =
        (record (unchecked s) { checksum = calculate_checksum (unchecked s) }, tick env 1 s)

    -- The store that is built has readings of the clock and allocations of its own.
    unfoldable pub restore_to_store : OverrideSnapshot → Result (OverrideStore env)
    restore_to_store snapshot =
        if verify_integrity snapshot
        then ok (restored snapshot)
        else err (linux_error (text "Snapshot integrity check failed"))
