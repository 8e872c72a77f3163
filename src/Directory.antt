-- ===== src/Directory.antt =====
-- override_store/directory.rs: the cache of parent-child relationships, and `PathTraversal` in
-- `Directory/Traversal.antt`.
pub mod Traversal
pub mod Children
pub mod Affected
use shadowfs.Base.{
  ℕ, List, [], ◌∷◌, map, sum, Option, none, some, Bool, true, false, not, ◌==◌, if◌then◌else◌,
  is_some, keys,
}
use shadowfs.Crates.DashMap.{DashMap}
use shadowfs.Path.{ShadowPath, ShadowPath-discrete}
use shadowfs.Path.Chars.{Text}
use shadowfs.Path.Buf.{Text-discrete}

-- A `DashSet` is a map to the unit; `SetsOf` are the maps from a directory to a set of names.
abbrev pub NameSets : Type 1
NameSets = DashMap Text-discrete Unit

abbrev pub ChildMaps : NameSets → Type 1
ChildMaps names = DashMap ShadowPath-discrete names.Map

module _ (names : NameSets) (dirs : ChildMaps names) where
  pub record DirectoryCache : Type 0 where
    pub children : dirs.Map

  abbrev pub new : DirectoryCache
  new = record { children = dirs.new }

  unfoldable pub entry_or_new : Option names.Map → names.Map
  entry_or_new none = names.new
  entry_or_new (some s) = s

  unfoldable pub add_child : ShadowPath → Text → DirectoryCache → DirectoryCache
  unfolding entry_or_new
  add_child parent child_name c =
      let s = entry_or_new (dirs.get parent c.children) in
      record { children = (dirs.insert parent (names.insert child_name tt s).0 c.children).0 }

  -- The set after the removal is written back, or its entry is dropped if it is empty.
  unfoldable pub remove_child : ShadowPath → Text → DirectoryCache → DirectoryCache × Bool
  remove_child parent child_name c = elim (dirs.get parent c.children) [
    | none ↦ (c, false)
    | some s ↦
        let (s', removed) = names.remove child_name s in
        let map' =
          if names.len s' == 0
          then (dirs.remove parent c.children).0
          else (dirs.insert parent s' c.children).0 in
        (record { children = map' }, is_some removed)
  ]

  unfoldable pub get_children : ShadowPath → DirectoryCache → List Text
  get_children parent c = elim (dirs.get parent c.children) [
    | none ↦ []
    | some s ↦ keys (names.iter s)
  ]

  unfoldable pub has_children : ShadowPath → DirectoryCache → Bool
  has_children parent c = elim (dirs.get parent c.children) [
    | none ↦ false
    | some s ↦ not (names.len s == 0)
  ]

  unfoldable pub has_child : ShadowPath → Text → DirectoryCache → Bool
  has_child parent child_name c = elim (dirs.get parent c.children) [
    | none ↦ false
    | some s ↦ is_some (names.get child_name s)
  ]

  unfoldable pub clear_children : ShadowPath → DirectoryCache → DirectoryCache × List Text
  clear_children parent c =
      let (map', removed) = dirs.remove parent c.children in
      (record { children = map' }, elim removed [ none ↦ [] | some s ↦ keys (names.iter s) ])

  unfoldable pub get_all_parents : DirectoryCache → List ShadowPath
  get_all_parents c = keys (dirs.iter c.children)

  unfoldable pub directory_count : DirectoryCache → ℕ
  directory_count c = dirs.len c.children

  unfoldable pub total_child_count : DirectoryCache → ℕ
  total_child_count c = sum (map (λ e. names.len e.1) (dirs.iter c.children))
