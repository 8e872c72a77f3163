-- ===== src/Tests/Paths.antt =====
-- types/path.rs and override_store/directory.rs at concrete values.
use shadowfs.Base.{◌≡◌, refl, [], ◌∷◌, some, ℕ_discrete}
use mathlib.Core.Option
use shadowfs.Crates.Concrete.{assoc_dash_map}
use shadowfs.Directory
use shadowfs.Directory.{
  NameSets, ChildMaps, DirectoryCache, add_child, remove_child, has_child, total_child_count,
}
use shadowfs.Path
use shadowfs.Path.{
  ShadowPath, ShadowPath-discrete, from_str, join, parent, file_name, file_stem, extension,
  strip_prefix, is_absolute, to_string,
}
use shadowfs.Path.Buf.{normal, Text-discrete, display}
use shadowfs.Path.Canonical.{IsCanonical}
use shadowfs.Path.Chars.{text}
use shadowfs.Path.Normalize.{from_str_normalized}
use shadowfs.Tests.{docs}

-- Paths.
normalized : to_string (from_str (text "./foo/../bar/./baz")) ≡ text "bar/baz"
unfolding from_str display ℕ_discrete
normalized = refl

from_str_normalized_example :
    IsCanonical (from_str (text "/a/./b/../c")).inner
    × (Path.new (from_str (text "/a/./b/../c")).inner ≡ from_str (text "/a/./b/../c"))
from_str_normalized_example = from_str_normalized (text "/a/./b/../c")

abbrev archive : ShadowPath
archive = record { inner = normal (text "a.tar.gz") ∷ [] }

archive_name : file_name archive ≡ some (text "a.tar.gz")
unfolding file_name
archive_name = refl

archive-extension : extension archive ≡ some (text "gz")
unfolding extension Option.bind
archive-extension = refl

abbrev names : NameSets
names = assoc_dash_map Text-discrete Unit

abbrev dirs : ChildMaps names
dirs = assoc_dash_map ShadowPath-discrete names.Map

abbrev listed : DirectoryCache names dirs
listed = add_child names dirs docs (text "a") (Directory.new names dirs)
