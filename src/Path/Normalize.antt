-- ===== src/Path/Normalize.antt =====
-- `ShadowPath::new` of types/path.rs on parsed paths: what it normalizes, and what it makes of a
-- path that is joined to another.
use shadowfs.Base.{
  ◌≡◌, refl, ap, ◌∙◌, sym, List, [], ◌∷◌, ◌++◌, Option, none, some, Bool, true, false, arith,
  if◌then◌else◌, ◌==◌, ◌≢◌,
}
use shadowfs.Path
use shadowfs.Path.{
  ShadowPath, normalize_from, normalize_path, from_str, join, parent, file_name, strip_prefix,
  is_absolute, extension, file_stem,
}
use shadowfs.Path.Chars.{Text, slash, drop_last, split_slash}
use shadowfs.Path.Buf.{
  Component, root_dir, cur_dir, parent_dir, normal, PathBuf, components, components_from,
  component_of, has_root,
}
use shadowfs.Path.Canonical.{
  IsRootless, IsParsed, IsCanonical, IsCanonical-normalize, normalize_path-eq, new-IsCanonical,
  new_canonical, normalize-IsCanonical, IsCanonical-IsParsed,
}

-- The piece between two slashes never yields a root.
abbrev IsPiece : Option Component → Type 0
IsPiece (some root_dir) = ⊥
IsPiece _ = Unit

IsPiece-intro : (o : Option Component) → o ≢ some root_dir → IsPiece o
IsPiece-intro none h = tt
IsPiece-intro (some root_dir) h = absurd (h refl)
IsPiece-intro (some cur_dir) h = tt
IsPiece-intro (some parent_dir) h = tt
IsPiece-intro (some (normal n)) h = tt

component_of-ne-root : (b : Bool) (w : Text) → component_of b w ≢ some root_dir
unfolding component_of
component_of-ne-root b [] = ground arith
component_of-ne-root b (c ∷ w) = ground arith

component_of-IsPiece : (b : Bool) (w : Text) → IsPiece (component_of b w)
component_of-IsPiece b w = IsPiece-intro _ (component_of-ne-root b w)

IsPiece-IsRootless :
    (o : Option Component) (l : PathBuf)
    → IsPiece o
    → IsRootless l
    → IsRootless (elim o [ none ↦ l | some c ↦ c ∷ l ])
IsPiece-IsRootless none l h hl = hl
IsPiece-IsRootless (some root_dir) l h hl = h
IsPiece-IsRootless (some cur_dir) l h hl = hl
IsPiece-IsRootless (some parent_dir) l h hl = hl
IsPiece-IsRootless (some (normal n)) l h hl = hl

components_from-IsRootless : (b : Bool) (l : List Text) → IsRootless (components_from b l)
unfolding components_from
components_from-IsRootless b [] = tt
components_from-IsRootless b (w ∷ l) =
    IsPiece-IsRootless _ _ (component_of-IsPiece b w) (components_from-IsRootless false l)

IsRootless-IsParsed : (l : PathBuf) → IsRootless l → IsParsed l
IsRootless-IsParsed [] h = tt
IsRootless-IsParsed (root_dir ∷ l) h = elim h [ ]
IsRootless-IsParsed (cur_dir ∷ l) h = h
IsRootless-IsParsed (parent_dir ∷ l) h = h
IsRootless-IsParsed (normal n ∷ l) h = h

if-IsParsed : (b : Bool) (l m : PathBuf) → IsParsed l → IsParsed m → IsParsed (if b then l else m)
if-IsParsed true l m hl hm = hl
if-IsParsed false l m hl hm = hm

components-IsParsed : (s : Text) → IsParsed (components s)
unfolding components
components-IsParsed [] = tt
components-IsParsed (c ∷ s) =
    let front = components_from true (split_slash (c ∷ s)) in
    if-IsParsed (c == slash) (root_dir ∷ components_from false (split_slash s)) front
      (components_from-IsRootless false (split_slash s))
      (IsRootless-IsParsed front (components_from-IsRootless true (split_slash (c ∷ s))))

-- For any text: the path has no "." and no "..", and a root at the front only; and to normalize it
-- once more changes nothing.
pub from_str_normalized :
    (s : Text) → IsCanonical (from_str s).inner × (Path.new (from_str s).inner ≡ from_str s)
unfolding from_str
from_str_normalized s =
    let canonical = new-IsCanonical (components s) (components-IsParsed s) in
    (canonical, new_canonical (Path.new (components s)).inner canonical)

normalize_from-append :
    (s l m : PathBuf) → normalize_from s (l ++ m) ≡ normalize_from (normalize_from s l) m
unfolding normalize_from
normalize_from-append s [] m = refl
normalize_from-append s (root_dir ∷ l) m = normalize_from-append (s ++ root_dir ∷ []) l m
normalize_from-append s (cur_dir ∷ l) m = normalize_from-append s l m
normalize_from-append s (parent_dir ∷ l) m = normalize_from-append (drop_last s) l m
normalize_from-append s (normal n ∷ l) m = normalize_from-append (s ++ normal n ∷ []) l m

IsRootless-append : (l m : PathBuf) → IsRootless l → IsRootless m → IsRootless (l ++ m)
IsRootless-append [] m hl hm = hm
IsRootless-append (root_dir ∷ l) m hl hm = elim hl [ ]
IsRootless-append (cur_dir ∷ l) m hl hm = IsRootless-append l m hl hm
IsRootless-append (parent_dir ∷ l) m hl hm = IsRootless-append l m hl hm
IsRootless-append (normal n ∷ l) m hl hm = IsRootless-append l m hl hm

IsParsed-append : (l m : PathBuf) → IsParsed l → IsRootless m → IsParsed (l ++ m)
IsParsed-append [] m hl hm = IsRootless-IsParsed m hm
IsParsed-append (c ∷ l) m hl hm = IsRootless-append l m hl hm

pub has_root-IsRootless : (l : PathBuf) → IsRootless l → has_root l ≡ false
has_root-IsRootless [] h = refl
has_root-IsRootless (root_dir ∷ l) h = elim h [ ]
has_root-IsRootless (cur_dir ∷ l) h = refl
has_root-IsRootless (parent_dir ∷ l) h = refl
has_root-IsRootless (normal n ∷ l) h = refl

-- For a parsed path and a relative one: joining the second to the normalized first is normalizing
-- the two in a row.
pub join-new : (l m : PathBuf) → IsParsed l → IsRootless m → join (Path.new l) m ≡ Path.new (l ++ m)
join-new l m hl hm =
    let c = normalize_from [] l in
    let canonical : IsCanonical c = IsCanonical-normalize l hl in
    let same : normalize_from [] (c ++ m) ≡ normalize_from [] (l ++ m) =
      normalize_from-append [] c m
      ∙ ap (λ (t : PathBuf). normalize_from t m) (normalize-IsCanonical c canonical)
      ∙ sym (normalize_from-append [] l m) in
    unfold join Path.new in
    rw (has_root-IsRootless m hm) (
      ap {B = ShadowPath} (λ (t : PathBuf). record { inner = t })
        (ap (λ (t : PathBuf). normalize_path (t ++ m)) (normalize_path-eq l hl)
          ∙ normalize_path-eq (c ++ m) (IsParsed-append c m (IsCanonical-IsParsed c canonical) hm)
          ∙ same
          ∙ sym (normalize_path-eq (l ++ m) (IsParsed-append l m hl hm))))

IsRootless-drop_last : (l : PathBuf) → IsRootless l → IsRootless (drop_last l)
unfolding drop_last
IsRootless-drop_last [] h = tt
IsRootless-drop_last (c ∷ []) h = tt
IsRootless-drop_last (root_dir ∷ d ∷ l) h = h
IsRootless-drop_last (cur_dir ∷ d ∷ l) h = IsRootless-drop_last (d ∷ l) h
IsRootless-drop_last (parent_dir ∷ d ∷ l) h = IsRootless-drop_last (d ∷ l) h
IsRootless-drop_last (normal n ∷ d ∷ l) h = IsRootless-drop_last (d ∷ l) h

normalize_from-IsRootless :
    (s l : PathBuf) → IsRootless s → IsRootless l → IsRootless (normalize_from s l)
unfolding normalize_from
normalize_from-IsRootless s [] hs hl = hs
normalize_from-IsRootless s (root_dir ∷ l) hs hl = elim hl [ ]
normalize_from-IsRootless s (cur_dir ∷ l) hs hl = normalize_from-IsRootless s l hs hl
normalize_from-IsRootless s (parent_dir ∷ l) hs hl =
    normalize_from-IsRootless (drop_last s) l (IsRootless-drop_last s hs) hl
normalize_from-IsRootless s (normal n ∷ l) hs hl =
    normalize_from-IsRootless (s ++ normal n ∷ []) l (IsRootless-append s (normal n ∷ []) hs tt) hl

-- A ".." directly below the root, with any rootless path behind it, normalizes to a path that is
-- not absolute.
pub above_root-relative :
    (l : PathBuf) → IsRootless l → is_absolute (Path.new (root_dir ∷ parent_dir ∷ l)) ≡ false
unfolding Path.new
above_root-relative l h = rw (normalize_path-eq (root_dir ∷ parent_dir ∷ l) h) (
    unfold normalize_from drop_last in
    has_root-IsRootless (normalize_from [] l) (normalize_from-IsRootless [] l tt h))
