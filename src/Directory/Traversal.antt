-- ===== src/Directory/Traversal.antt =====
-- `PathTraversal` of override_store/directory.rs. The loop of `get_parent_chain` runs on fuel, one
-- round for each component of the path.
use shadowfs.Base.{
  ℕ, zero, suc, List, [], ◌∷◌, Option, none, some, Bool, true, false, not, ◌==◌, ◌&&◌, ◌||◌, ite,
  if◌then◌else◌, unwrap_or, length, filter,
}
use shadowfs.Path.{ShadowPath, ShadowPath-discrete, parent, file_name, to_string}
use shadowfs.Path.Chars.{Text, slash, str_len, starts_with, ends_with_slash, nth}
use shadowfs.Path.Buf.{Text-discrete}

unfoldable pub chain_from : ℕ → ShadowPath → List ShadowPath
chain_from zero current = []
chain_from (suc fuel) current = elim (parent current) [ none ↦ [] | some p ↦ p ∷ chain_from fuel p ]

unfoldable pub get_parent_chain : ShadowPath → List ShadowPath
unfolding chain_from
get_parent_chain path = chain_from (length path.inner) path

abbrev pub text_eq : Text → Text → Bool
text_eq a b = ite (Text-discrete a b) true false

unfoldable pub is_affected : Text → ShadowPath → Bool
is_affected path_str child =
    not (text_eq (to_string child) path_str) && starts_with (to_string child) path_str

unfoldable pub find_affected_children : ShadowPath → List ShadowPath → List ShadowPath
unfolding is_affected
find_affected_children path all_paths = filter (is_affected (to_string path)) all_paths

unfoldable pub get_filename : ShadowPath → Text
get_filename path = unwrap_or (file_name path) []

abbrev is_slash_at : Option ℕ → Bool
is_slash_at none = false
is_slash_at (some c) = c == slash

unfoldable pub is_parent_of : ShadowPath → ShadowPath → Bool
is_parent_of p c =
    let parent_str = to_string p in
    let child_str = to_string c in
    if text_eq parent_str child_str
    then false
    else starts_with child_str parent_str
      && (ends_with_slash parent_str || is_slash_at (nth child_str (str_len parent_str)))

unfoldable pub is_immediate_parent_of : ShadowPath → ShadowPath → Bool
is_immediate_parent_of p c = elim (parent c) [
  | none ↦ false
  | some q ↦ ite (ShadowPath-discrete q p) true false
]
