-- ===== src/Path.antt =====
-- types/path.rs: `ShadowPath`, a path that is kept normalized.
pub mod Chars
pub mod Buf
pub mod Canonical
pub mod Normalize
pub mod Joins
use shadowfs.Base.{List, [], ◌∷◌, ◌++◌, Option, Bool, if◌then◌else◌, ℕ_discrete}
use mathlib.Core.Option
use Chars.{Text, drop_last, get_last?, file_stem_of, extension_of}
use Buf.{
  Component, root_dir, cur_dir, parent_dir, normal, PathBuf, Component-discrete, components,
  collect_from, has_root, strip_components, parent_components, name_of_last, display,
}

pub record ShadowPath : Type 0 where
  pub inner : PathBuf

unfoldable pub ShadowPath-discrete : Discrete ShadowPath
ShadowPath-discrete = hlevel ℕ_discrete

-- The loop of `normalize_path` over its vector. `pop` of the empty vector does nothing.
unfoldable pub normalize_from : List Component → List Component → List Component
unfolding drop_last
normalize_from stack [] = stack
normalize_from stack (cur_dir ∷ l) = normalize_from stack l
normalize_from stack (parent_dir ∷ l) = normalize_from (drop_last stack) l
normalize_from stack (root_dir ∷ l) = normalize_from (stack ++ root_dir ∷ []) l
normalize_from stack (normal n ∷ l) = normalize_from (stack ++ normal n ∷ []) l

unfoldable pub normalize_path : PathBuf → PathBuf
unfolding normalize_from collect_from
normalize_path path = collect_from [] (normalize_from [] path)

unfoldable pub new : PathBuf → ShadowPath
unfolding normalize_path
new path = record { inner = normalize_path path }

unfoldable pub from_str : Text → ShadowPath
unfolding new components
from_str s = new (components s)

abbrev pub is_absolute : ShadowPath → Bool
is_absolute p = has_root p.inner

unfoldable pub strip_prefix : ShadowPath → PathBuf → Option ShadowPath
unfolding strip_components new
strip_prefix p base = Option.map new (strip_components p.inner base)

unfoldable pub parent : ShadowPath → Option ShadowPath
unfolding parent_components new
parent p = Option.map new (parent_components p.inner)

unfoldable pub file_name : ShadowPath → Option Text
unfolding get_last?
file_name p = name_of_last (get_last? p.inner)

unfoldable pub file_stem : ShadowPath → Option Text
unfolding file_name file_stem_of
file_stem p = Option.map file_stem_of (file_name p)

unfoldable pub extension : ShadowPath → Option Text
unfolding file_name extension_of
extension p = Option.bind (file_name p) extension_of

-- `PathBuf::join`: an absolute argument replaces the path.
unfoldable pub join : ShadowPath → PathBuf → ShadowPath
unfolding new
join p path = new (if has_root path then path else p.inner ++ path)

abbrev pub to_string : ShadowPath → Text
to_string p = display p.inner
