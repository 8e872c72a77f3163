-- ===== src/Patterns/Content.antt =====
-- The content of an override in override_store/patterns.rs: templates, copy-on-write content and what
-- a rule's content stands for. The results that transformed content keeps are in cells, which all
-- clones of the content share.
pub mod Shared
use shadowfs.Base.{
  ℕ, zero, suc, ◌≡◌, ◌⊎◌, inl, inr, refl, List, [], ◌∷◌, ◌++◌, Option, none, some, Bool, true,
  false, if◌then◌else◌, length, get_elem?, put, unwrap_or,
}
use shadowfs.Crates.Codec.{Bytes}
use shadowfs.Path
use shadowfs.Path.{ShadowPath, to_string, file_name, extension}
use shadowfs.Path.Buf.{Text-discrete}
use shadowfs.Path.Chars.{Text, text, starts_with}
use shadowfs.Patterns.Transforms.{
  Strings, Transformed, TransformError, TransformChain, apply, replace,
}
use shadowfs.Patterns.Transforms

pub record OverrideTemplate : Type 0 where
  pub template : Text
  pub variables : List (Text × Text)

pub data TemplateError : Type 0 where
  unresolved_variables : TemplateError
  invalid_template : Text → TemplateError

abbrev pub new : Text → OverrideTemplate
new template = record { template = template; variables = [] }

unfoldable pub with_variable : Text → Text → OverrideTemplate → OverrideTemplate
with_variable name value t = record t { variables = put Text-discrete name value t.variables }

unfoldable pub with_env_vars :
    (Text → Option Text) → List Text → OverrideTemplate → OverrideTemplate
unfolding with_variable
with_env_vars var [] t = t
with_env_vars var (name ∷ l) t =
    with_env_vars var l (elim (var name) [ none ↦ t | some value ↦ with_variable name value t ])

unfoldable pub contains : Text → Text → Bool
unfolding starts_with
contains pattern [] = starts_with [] pattern
contains pattern (c ∷ t) =
    let later = contains pattern t in if starts_with (c ∷ t) pattern then true else later

abbrev pub opening : Text
opening = text "${"

abbrev pub pattern_of : Text → Text
pattern_of name = opening ++ (name ++ text "}")

abbrev pub text_of_path : Option ShadowPath → Text
text_of_path none = []
text_of_path (some p) = to_string p

-- The seconds of the clock as a text, where it stands after the epoch.
unfoldable pub build_variables : Option Text → ShadowPath → OverrideTemplate → List (Text × Text)
build_variables timestamp path t =
    let own = put Text-discrete (text "extension") (unwrap_or (extension path) []) (
      put Text-discrete (text "parent") (text_of_path (Path.parent path)) (
        put Text-discrete (text "filename") (unwrap_or (file_name path) [])
          (put Text-discrete (text "path") (to_string path) t.variables))) in
    elim timestamp [ none ↦ own | some seconds ↦ put Text-discrete (text "timestamp") seconds own ]

unfoldable pub substitute : List (Text × Text) → Text → Text
unfolding replace
substitute [] t = t
substitute ((name, value) ∷ l) t = substitute l (replace (pattern_of name) value t)

-- `order` is the order in which the map of the variables is gone through, which nothing says.
unfoldable pub expand :
    (List (Text × Text) → List (Text × Text))
    → Option Text
    → ShadowPath
    → OverrideTemplate
    → Option Text
unfolding contains substitute build_variables
expand order timestamp path t =
    let result = substitute (order (build_variables timestamp path t)) t.template in
    if contains opening result then none else some result

pub data CowError : Type 0 where
  load_error io_error : Text → CowError
  transform_error : TransformError → CowError

pub data CowResult {ℓ} (A : Type ℓ) : Type ℓ where
  ok : A → CowResult A
  err : CowError → CowResult A

pub CowResult-cases {ℓ} :
    {A : Type ℓ} (r : CowResult A) → ((a : A) × (r ≡ ok a)) ⊎ ((e : CowError) × (r ≡ err e))
CowResult-cases (ok a) = inl (a, refl)
CowResult-cases (err e) = inr (e, refl)

-- `transformed` names its cell.
pub data CowContent : Type 0 where
  reference : ShadowPath → CowContent
  owned : Bytes → CowContent
  transformed : ShadowPath → TransformChain → ℕ → CowContent

abbrev pub ContentLoader : Type 0
ContentLoader = ShadowPath → CowResult Bytes

abbrev pub Cells : Type 0
Cells = List (Option Bytes)

unfoldable pub set_cell : ℕ → Bytes → Cells → Cells
set_cell i b [] = []
set_cell zero b (c ∷ l) = some b ∷ l
set_cell (suc i) b (c ∷ l) = c ∷ set_cell i b l

unfoldable pub cached : ℕ → Cells → Option Bytes
cached i cells = elim (get_elem? cells i) [ none ↦ none | some c ↦ c ]

-- A new cell for what is not yet computed.
unfoldable pub new_transformed : ShadowPath → TransformChain → Cells → CowContent × Cells
new_transformed source chain cells = (transformed source chain (length cells), cells ++ none ∷ [])

unfoldable pub compute : TransformChain → ℕ → CowResult Bytes → Cells → CowResult Bytes × Cells
unfolding set_cell
compute chain i (err e) cells = (err e, cells)
compute chain i (ok original) cells = elim (apply chain original) [
  | Transforms.err e ↦ (err (transform_error e), cells)
  | Transforms.ok b ↦ (ok b, set_cell i b cells)
]

unfoldable pub get_content : ContentLoader → CowContent → Cells → CowResult Bytes × Cells
unfolding cached compute
get_content loader (reference path) cells = (loader path, cells)
get_content loader (owned b) cells = (ok b, cells)
get_content loader (transformed source chain i) cells = elim (cached i cells) [
  | some b ↦ (ok b, cells)
  | none ↦ compute chain i (loader source) cells
]

-- What is owned stays; other content is replaced by its bytes, where they are to be had.
unfoldable pub own :
    CowContent → CowResult Bytes × Cells → CowResult (Unit {0}) × (CowContent × Cells)
own cow (err e, cells) = (err e, (cow, cells))
own cow (ok b, cells) = (ok tt, (owned b, cells))

unfoldable pub to_owned :
    ContentLoader → CowContent → Cells → CowResult (Unit {0}) × (CowContent × Cells)
unfolding own get_content
to_owned loader (owned b) cells = (ok tt, (owned b, cells))
to_owned loader (reference path) cells =
    own (reference path) (get_content loader (reference path) cells)
to_owned loader (transformed source chain i) cells =
    own (transformed source chain i) (get_content loader (transformed source chain i) cells)

pub data OverrideContentType : Type 0 where
  static : Bytes → OverrideContentType
  template : OverrideTemplate → OverrideContentType
  copy_on_write : CowContent → OverrideContentType
  transformed_by : OverrideContentType → TransformChain → OverrideContentType

pub data Resolved : Type 0 where
  resolved : Bytes → Resolved
  template_error : TemplateError → Resolved
  cow_error : CowError → Resolved
  transform_error : TransformError → Resolved

unfoldable pub resolved_from : CowResult Bytes → Resolved
resolved_from (ok b) = resolved b
resolved_from (err e) = cow_error e

unfoldable pub transform : TransformChain → Resolved → Resolved
transform chain (resolved b) = elim (apply chain b) [
  | Transforms.ok c ↦ resolved c
  | Transforms.err e ↦ transform_error e
]
transform chain r = r

module _ (strings : Strings) (order : List (Text × Text) → List (Text × Text))
    (timestamp : Option Text) where
  unfoldable pub resolve :
      ShadowPath → ContentLoader → OverrideContentType → Cells → Resolved × Cells
  unfolding expand resolved_from transform get_content
  resolve path loader (static b) cells = (resolved b, cells)
  resolve path loader (template t) cells = elim (expand order timestamp path t) [
    | none ↦ (template_error unresolved_variables, cells)
    | some r ↦ (resolved (strings.into_bytes r), cells)
  ]
  resolve path loader (copy_on_write cow) cells =
      let r = get_content loader cow cells in (resolved_from r.0, r.1)
  resolve path loader (transformed_by source chain) cells =
      let r = resolve path loader source cells in (transform chain r.0, r.1)
