-- ===== src/Path/Buf.antt =====
-- What types/path.rs uses of `std::path` on Unix: a `PathBuf` is the list of the components that
-- `Path::components` yields, and a text is the list of its characters.
use shadowfs.Base.{
  List, [], ◌∷◌, ◌++◌, Option, none, some, Bool, true, false, ite, if◌then◌else◌, ◌==◌, ℕ_discrete,
}
use shadowfs.Path.Chars.{Text, slash, dot, drop_last, get_last?, split_slash}

pub data Component : Type 0 where
  root_dir cur_dir parent_dir : Component
  normal : Text → Component

abbrev pub PathBuf : Type 0
PathBuf = List Component

unfoldable pub Text-discrete : Discrete Text
unfolding ℕ_discrete
Text-discrete = hlevel ℕ_discrete

unfoldable pub Component-discrete : Discrete Component
unfolding Text-discrete
Component-discrete = hlevel ℕ_discrete

abbrev pub has_root : PathBuf → Bool
has_root (root_dir ∷ l) = true
has_root _ = false

-- The component that stands between two slashes. Nothing stands for "" and, but at the front of a
-- relative path, for ".".
unfoldable pub component_of : Bool → Text → Option Component
component_of front [] = none
component_of front (c ∷ w) =
    ite (Text-discrete (c ∷ w) (dot ∷ [])) (if front then some cur_dir else none)
      (ite (Text-discrete (c ∷ w) (dot ∷ dot ∷ [])) (some parent_dir) (some (normal (c ∷ w))))

unfoldable pub components_from : Bool → List Text → PathBuf
unfolding component_of Text-discrete
components_from front [] = []
components_from front (w ∷ l) =
    let rest = components_from false l in
    elim (component_of front w) [ none ↦ rest | some c ↦ c ∷ rest ]

-- `Path::components` of a text.
unfoldable pub components : Text → PathBuf
unfolding components_from split_slash
components [] = []
components (c ∷ s) =
    if c == slash
    then root_dir ∷ components_from false (split_slash s)
    else components_from true (split_slash (c ∷ s))

-- `PathBuf::push`, and the collection of components into a `PathBuf`, which pushes each.
unfoldable pub push_component : PathBuf → Component → PathBuf
push_component buf root_dir = root_dir ∷ []
push_component buf cur_dir = buf ++ cur_dir ∷ []
push_component buf parent_dir = buf ++ parent_dir ∷ []
push_component buf (normal n) = buf ++ normal n ∷ []

unfoldable pub collect_from : PathBuf → List Component → PathBuf
unfolding push_component
collect_from buf [] = buf
collect_from buf (c ∷ l) = collect_from (push_component buf c) l

-- `Path::strip_prefix`, on components.
unfoldable pub strip_components : PathBuf → PathBuf → Option PathBuf
unfolding Component-discrete
strip_components l [] = some l
strip_components [] (c ∷ base) = none
strip_components (d ∷ l) (c ∷ base) = ite (Component-discrete d c) (strip_components l base) none

-- `Path::parent` and `Path::file_name`, by the last component.
abbrev parent_of_last : Option Component → PathBuf → Option PathBuf
parent_of_last none l = none
parent_of_last (some root_dir) l = none
parent_of_last (some cur_dir) l = some (drop_last l)
parent_of_last (some parent_dir) l = some (drop_last l)
parent_of_last (some (normal n)) l = some (drop_last l)

unfoldable pub parent_components : PathBuf → Option PathBuf
unfolding drop_last get_last?
parent_components l = parent_of_last (get_last? l) l

abbrev pub name_of_last : Option Component → Option Text
name_of_last (some (normal n)) = some n
name_of_last _ = none

-- `Display` on Unix: the names with slashes between them, "/" for the root alone.
abbrev pub component_text : Component → Text
component_text root_dir = slash ∷ []
component_text cur_dir = dot ∷ []
component_text parent_dir = dot ∷ dot ∷ []
component_text (normal n) = n

abbrev pub slashed : PathBuf → Text
slashed [] = []
slashed (c ∷ l) = slash ∷ component_text c ++ slashed l

unfoldable pub display : PathBuf → Text
display [] = []
display (root_dir ∷ []) = slash ∷ []
display (root_dir ∷ c ∷ l) = slashed (c ∷ l)
display (cur_dir ∷ l) = component_text cur_dir ++ slashed l
display (parent_dir ∷ l) = component_text parent_dir ++ slashed l
display (normal n ∷ l) = n ++ slashed l
