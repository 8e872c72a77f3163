-- ===== src/Path/Canonical.antt =====
-- Canonical paths, and what `ShadowPath::new` of types/path.rs makes of a parsed one.
use shadowfs.Base.{◌≡◌, refl, ap, ◌∙◌, sym, [], ◌∷◌, ◌++◌}
use mathlib.Core.List.{append-nil, append_assoc}
use shadowfs.Path
use shadowfs.Path.{ShadowPath, normalize_from, normalize_path}
use shadowfs.Path.Chars.{drop_last}
use shadowfs.Path.Buf.{root_dir, cur_dir, parent_dir, normal, PathBuf, collect_from}

abbrev pub IsRootless : PathBuf → Type 0
IsRootless [] = Unit
IsRootless (root_dir ∷ l) = ⊥
IsRootless (cur_dir ∷ l) = IsRootless l
IsRootless (parent_dir ∷ l) = IsRootless l
IsRootless (normal n ∷ l) = IsRootless l

-- What `Path::components` yields: a root stands at the front only.
abbrev pub IsParsed : PathBuf → Type 0
IsParsed [] = Unit
IsParsed (c ∷ l) = IsRootless l

abbrev pub IsNormal : PathBuf → Type 0
IsNormal [] = Unit
IsNormal (root_dir ∷ l) = ⊥
IsNormal (cur_dir ∷ l) = ⊥
IsNormal (parent_dir ∷ l) = ⊥
IsNormal (normal n ∷ l) = IsNormal l

-- No "." and no "..", and a root at the front only.
abbrev pub IsCanonical : PathBuf → Type 0
IsCanonical [] = Unit
IsCanonical (root_dir ∷ l) = IsNormal l
IsCanonical (cur_dir ∷ l) = ⊥
IsCanonical (parent_dir ∷ l) = ⊥
IsCanonical (normal n ∷ l) = IsNormal l

pub IsNormal-append : (l m : PathBuf) → IsNormal l → IsNormal m → IsNormal (l ++ m)
IsNormal-append [] m hl hm = hm
IsNormal-append (root_dir ∷ l) m hl hm = elim hl [ ]
IsNormal-append (cur_dir ∷ l) m hl hm = elim hl [ ]
IsNormal-append (parent_dir ∷ l) m hl hm = elim hl [ ]
IsNormal-append (normal n ∷ l) m hl hm = IsNormal-append l m hl hm

pub IsNormal-IsCanonical : (l : PathBuf) → IsNormal l → IsCanonical l
IsNormal-IsCanonical [] h = tt
IsNormal-IsCanonical (root_dir ∷ l) h = elim h [ ]
IsNormal-IsCanonical (cur_dir ∷ l) h = h
IsNormal-IsCanonical (parent_dir ∷ l) h = h
IsNormal-IsCanonical (normal n ∷ l) h = h

pub IsCanonical-append : (l m : PathBuf) → IsCanonical l → IsNormal m → IsCanonical (l ++ m)
IsCanonical-append [] m hl hm = IsNormal-IsCanonical m hm
IsCanonical-append (root_dir ∷ l) m hl hm = IsNormal-append l m hl hm
IsCanonical-append (cur_dir ∷ l) m hl hm = hl
IsCanonical-append (parent_dir ∷ l) m hl hm = hl
IsCanonical-append (normal n ∷ l) m hl hm = IsNormal-append l m hl hm

IsNormal-drop_last : (l : PathBuf) → IsNormal l → IsNormal (drop_last l)
unfolding drop_last
IsNormal-drop_last [] h = tt
IsNormal-drop_last (c ∷ []) h = tt
IsNormal-drop_last (root_dir ∷ d ∷ l) h = h
IsNormal-drop_last (cur_dir ∷ d ∷ l) h = h
IsNormal-drop_last (parent_dir ∷ d ∷ l) h = h
IsNormal-drop_last (normal n ∷ d ∷ l) h = IsNormal-drop_last (d ∷ l) h

pub IsCanonical-drop_last : (l : PathBuf) → IsCanonical l → IsCanonical (drop_last l)
unfolding drop_last
IsCanonical-drop_last [] h = tt
IsCanonical-drop_last (c ∷ []) h = tt
IsCanonical-drop_last (root_dir ∷ d ∷ l) h = IsNormal-drop_last (d ∷ l) h
IsCanonical-drop_last (cur_dir ∷ d ∷ l) h = h
IsCanonical-drop_last (parent_dir ∷ d ∷ l) h = h
IsCanonical-drop_last (normal n ∷ d ∷ l) h = IsNormal-drop_last (d ∷ l) h

IsCanonical-normalize_from :
    (s l : PathBuf) → IsCanonical s → IsRootless l → IsCanonical (normalize_from s l)
unfolding normalize_from
IsCanonical-normalize_from s [] hs hl = hs
IsCanonical-normalize_from s (root_dir ∷ l) hs hl = elim hl [ ]
IsCanonical-normalize_from s (cur_dir ∷ l) hs hl = IsCanonical-normalize_from s l hs hl
IsCanonical-normalize_from s (parent_dir ∷ l) hs hl =
    IsCanonical-normalize_from (drop_last s) l (IsCanonical-drop_last s hs) hl
IsCanonical-normalize_from s (normal n ∷ l) hs hl =
    IsCanonical-normalize_from (s ++ normal n ∷ []) l (IsCanonical-append s (normal n ∷ []) hs tt)
      hl

-- The loop over a list of names pushes them all.
pub normalize_from-IsNormal : (s l : PathBuf) → IsNormal l → normalize_from s l ≡ s ++ l
unfolding normalize_from
normalize_from-IsNormal s [] h = sym (append-nil s)
normalize_from-IsNormal s (root_dir ∷ l) h = elim h [ ]
normalize_from-IsNormal s (cur_dir ∷ l) h = elim h [ ]
normalize_from-IsNormal s (parent_dir ∷ l) h = elim h [ ]
normalize_from-IsNormal s (normal n ∷ l) h =
    normalize_from-IsNormal (s ++ normal n ∷ []) l h ∙ append_assoc s (normal n ∷ []) l

collect_from-IsNormal : (s l : PathBuf) → IsNormal l → collect_from s l ≡ s ++ l
unfolding collect_from
collect_from-IsNormal s [] h = sym (append-nil s)
collect_from-IsNormal s (root_dir ∷ l) h = elim h [ ]
collect_from-IsNormal s (cur_dir ∷ l) h = elim h [ ]
collect_from-IsNormal s (parent_dir ∷ l) h = elim h [ ]
collect_from-IsNormal s (normal n ∷ l) h =
    collect_from-IsNormal (s ++ normal n ∷ []) l h ∙ append_assoc s (normal n ∷ []) l

collect-IsCanonical : (l : PathBuf) → IsCanonical l → collect_from [] l ≡ l
unfolding collect_from
collect-IsCanonical [] h = refl
collect-IsCanonical (root_dir ∷ l) h = collect_from-IsNormal (root_dir ∷ []) l h
collect-IsCanonical (cur_dir ∷ l) h = elim h [ ]
collect-IsCanonical (parent_dir ∷ l) h = elim h [ ]
collect-IsCanonical (normal n ∷ l) h = collect_from-IsNormal (normal n ∷ []) l h

pub normalize-IsCanonical : (l : PathBuf) → IsCanonical l → normalize_from [] l ≡ l
unfolding normalize_from
normalize-IsCanonical [] h = refl
normalize-IsCanonical (root_dir ∷ l) h = normalize_from-IsNormal (root_dir ∷ []) l h
normalize-IsCanonical (cur_dir ∷ l) h = elim h [ ]
normalize-IsCanonical (parent_dir ∷ l) h = elim h [ ]
normalize-IsCanonical (normal n ∷ l) h = normalize_from-IsNormal (normal n ∷ []) l h

pub IsCanonical-normalize : (l : PathBuf) → IsParsed l → IsCanonical (normalize_from [] l)
unfolding normalize_from drop_last
IsCanonical-normalize [] h = tt
IsCanonical-normalize (root_dir ∷ l) h = IsCanonical-normalize_from (root_dir ∷ []) l tt h
IsCanonical-normalize (cur_dir ∷ l) h = IsCanonical-normalize_from [] l tt h
IsCanonical-normalize (parent_dir ∷ l) h = IsCanonical-normalize_from [] l tt h
IsCanonical-normalize (normal n ∷ l) h = IsCanonical-normalize_from (normal n ∷ []) l tt h

-- The collection into a `PathBuf` changes nothing: it sees a canonical vector.
pub normalize_path-eq : (l : PathBuf) → IsParsed l → normalize_path l ≡ normalize_from [] l
unfolding normalize_path
normalize_path-eq l h = collect-IsCanonical (normalize_from [] l) (IsCanonical-normalize l h)

pub new-IsCanonical : (l : PathBuf) → IsParsed l → IsCanonical (Path.new l).inner
unfolding Path.new
new-IsCanonical l h = rw (normalize_path-eq l h) (IsCanonical-normalize l h)

pub IsNormal-IsRootless : (l : PathBuf) → IsNormal l → IsRootless l
IsNormal-IsRootless [] h = tt
IsNormal-IsRootless (root_dir ∷ l) h = h
IsNormal-IsRootless (cur_dir ∷ l) h = elim h [ ]
IsNormal-IsRootless (parent_dir ∷ l) h = elim h [ ]
IsNormal-IsRootless (normal n ∷ l) h = IsNormal-IsRootless l h

pub IsCanonical-IsParsed : (l : PathBuf) → IsCanonical l → IsParsed l
IsCanonical-IsParsed [] h = tt
IsCanonical-IsParsed (root_dir ∷ l) h = IsNormal-IsRootless l h
IsCanonical-IsParsed (cur_dir ∷ l) h = elim h [ ]
IsCanonical-IsParsed (parent_dir ∷ l) h = elim h [ ]
IsCanonical-IsParsed (normal n ∷ l) h = IsNormal-IsRootless l h

-- A canonical path is its own normal form.
pub new_canonical : (l : PathBuf) → IsCanonical l → Path.new l ≡ record { inner = l }
unfolding Path.new
new_canonical l h =
    ap {B = ShadowPath} (λ (m : PathBuf). record { inner = m })
      (normalize_path-eq l (IsCanonical-IsParsed l h) ∙ normalize-IsCanonical l h)
