-- ===== src/Path/Joins.antt =====
-- `join`, `parent`, `file_name` and `strip_prefix` of types/path.rs against one another.
use shadowfs.Base.{◌≡◌, refl, ap, List, [], ◌∷◌, ◌++◌, some, arith, inl, inr, Option-cases}
use mathlib.Core.Option
use shadowfs.Path.{ShadowPath, join, parent, file_name, strip_prefix, extension, file_stem}
use shadowfs.Path.Chars.{
  Text, dot, drop_last, get_last?, split_at_last_dot, file_stem_of, extension_of,
}
use shadowfs.Path.Buf.{normal, PathBuf, strip_components, parent_components}
use shadowfs.Path.Normalize.{has_root-IsRootless}
use shadowfs.Path.Canonical.{
  IsNormal, IsCanonical, new_canonical, IsCanonical-append, IsNormal-IsCanonical,
  IsNormal-IsRootless,
}

-- On a normalized path and plain names `join` appends.
pub join_canonical :
    (p : ShadowPath) (m : PathBuf)
    → IsCanonical p.inner
    → IsNormal m
    → join p m ≡ record { inner = p.inner ++ m }
unfolding join
join_canonical p m hp hm =
    rw (has_root-IsRootless m (IsNormal-IsRootless m hm))
      (new_canonical (p.inner ++ m) (IsCanonical-append p.inner m hp hm))

pub get_last?-snoc {ℓ} : {A : Type ℓ} (l : List A) (x : A) → get_last? (l ++ x ∷ []) ≡ some x
unfolding get_last?
get_last?-snoc [] x = refl
get_last?-snoc (y ∷ []) x = refl
get_last?-snoc (y ∷ z ∷ l) x = get_last?-snoc (z ∷ l) x

pub drop_last-snoc {ℓ} : {A : Type ℓ} (l : List A) (x : A) → drop_last (l ++ x ∷ []) ≡ l
unfolding drop_last
drop_last-snoc [] x = refl
drop_last-snoc (y ∷ []) x = refl
drop_last-snoc (y ∷ z ∷ l) x = ap (◌∷◌ y) (drop_last-snoc (z ∷ l) x)

-- For a canonical path: the parent of a joined name is the path, and its file name is the name.
pub parent-join :
    (p : ShadowPath) (n : Text)
    → IsCanonical p.inner
    → (parent (join p (normal n ∷ [])) ≡ some p) × (file_name (join p (normal n ∷ [])) ≡ some n)
unfolding parent parent_components file_name
parent-join p n h = rw (join_canonical p (normal n ∷ []) h tt) (
  rw (get_last?-snoc p.inner (normal n), drop_last-snoc p.inner (normal n))
      (ap some (new_canonical p.inner h)),
  rw (get_last?-snoc p.inner (normal n)),
)

strip_components-append : (l m : PathBuf) → strip_components (l ++ m) l ≡ some m
unfolding strip_components
strip_components-append [] m = refl
strip_components-append (c ∷ l) m = ground (arith, strip_components-append l m)

-- For a canonical path and a list of plain names: stripping the path from what is joined to it
-- gives the names back.
pub strip_prefix-join :
    (p : ShadowPath) (m : PathBuf)
    → IsCanonical p.inner
    → IsNormal m
    → strip_prefix (join p m) p.inner ≡ some (record { inner = m })
unfolding strip_prefix
strip_prefix-join p m hp hm =
    rw (join_canonical p m hp hm) (
      rw (strip_components-append p.inner m)
        (ap some (new_canonical m (IsNormal-IsCanonical m hm))))

split_at_last_dot-eq : (s a b : Text) → split_at_last_dot s ≡ some (a, b) → s ≡ a ++ dot ∷ b
unfolding split_at_last_dot
split_at_last_dot-eq [] a b h = cc
split_at_last_dot-eq (c ∷ s) a b h = elim (Option-cases (split_at_last_dot s)) [
  | inl e ↦ ground arith
  | inr ((x, y), e) ↦ ground (arith, split_at_last_dot-eq s x y e)
]

-- The stem and the extension of a name, where it has one.
stem-extension : (n e : Text) → extension_of n ≡ some e → n ≡ file_stem_of n ++ dot ∷ e
unfolding extension_of file_stem_of
stem-extension n e h = elim (Option-cases (split_at_last_dot n)) [
  | inl a ↦ ground arith
  | inr (([], y), a) ↦ ground arith
  | inr ((c ∷ x, y), a) ↦ ground (arith, split_at_last_dot-eq n (c ∷ x) y a)
]

-- Where a path has a file name and an extension: it has a stem, and the name is the stem, a dot and
-- the extension.
pub file_name-stem-extension :
    (p : ShadowPath) (n e : Text)
    → file_name p ≡ some n
    → extension p ≡ some e
    → (t : Text) × (file_stem p ≡ some t) × (n ≡ t ++ dot ∷ e)
unfolding file_stem extension Option.bind
file_name-stem-extension p n e hn he = (file_stem_of n, rw hn, stem-extension n e (rw hn at he))
