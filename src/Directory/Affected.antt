-- ===== src/Directory/Affected.antt =====
-- `PathTraversal` of override_store/directory.rs: the chain of parents, and which paths count as below a directory.
use shadowfs.Base.{
  ℕ, suc, ◌≡◌, ◌≢◌, refl, sym, ap, ◌∙◌, List, [], ◌∷◌, ◌++◌, Bool, true, arith, length, filter,
}
use mathlib.Core.List.{append-nil, append_assoc}
use shadowfs.Directory.Traversal.{chain_from, get_parent_chain, is_affected, find_affected_children}
use shadowfs.Path.{ShadowPath, join, to_string}
use shadowfs.Path.Chars.{Text, slash, starts_with}
use shadowfs.Path.Buf.{
  root_dir, cur_dir, parent_dir, normal, PathBuf, component_text, slashed, display,
}
use shadowfs.Path.Canonical.{IsNormal, IsCanonical}
use shadowfs.Path.Joins.{join_canonical, parent-join}

length-snoc {ℓ} : {A : Type ℓ} (l : List A) (x : A) → length (l ++ x ∷ []) ≡ suc (length l)
length-snoc [] x = refl
length-snoc (y ∷ l) x = ap suc (length-snoc l x)

-- For a canonical path: the chain of parents of a child is the path followed by the path's own
-- chain, so the loop never stops short.
pub get_parent_chain-join :
    (p : ShadowPath) (n : Text)
    → IsCanonical p.inner
    → get_parent_chain (join p (normal n ∷ [])) ≡ p ∷ get_parent_chain p
unfolding get_parent_chain
get_parent_chain-join p n h =
    let child : ShadowPath = join p (normal n ∷ []) in
    let more : length child.inner ≡ suc (length p.inner) =
      ap (λ (q : ShadowPath). length q.inner) (join_canonical p (normal n ∷ []) h tt)
      ∙ length-snoc p.inner (normal n) in
    rw more (rw ((parent-join p n h).0, chain_from) refl)

slashed-append : (l m : PathBuf) → slashed (l ++ m) ≡ slashed l ++ slashed m
slashed-append [] m = refl
slashed-append (c ∷ l) m =
    ap (λ (t : Text). slash ∷ (component_text c ++ t)) (slashed-append l m)
    ∙ ap (◌∷◌ slash) (sym (append_assoc (component_text c) (slashed l) (slashed m)))

behind_name : (t : Text) (l m : PathBuf) → t ++ slashed (l ++ m) ≡ (t ++ slashed l) ++ slashed m
behind_name t l m =
    ap (λ (u : Text). t ++ u) (slashed-append l m) ∙ sym (append_assoc t (slashed l) (slashed m))

-- What is below a path is written as the path and something more.
pub display-append :
    (l : PathBuf) (c : ℕ) (n : Text) (m : PathBuf)
    → (d : ℕ) × (t : Text) × (display (l ++ normal (c ∷ n) ∷ m) ≡ display l ++ d ∷ t)
unfolding display
display-append [] c n m = (c, n ++ slashed m, refl)
display-append (root_dir ∷ []) c n m = (c, n ++ slashed m, refl)
display-append (root_dir ∷ x ∷ l) c n m =
    (slash, (c ∷ n) ++ slashed m, slashed-append (x ∷ l) (normal (c ∷ n) ∷ m))
display-append (cur_dir ∷ l) c n m =
    (slash, (c ∷ n) ++ slashed m, behind_name (component_text cur_dir) l (normal (c ∷ n) ∷ m))
display-append (parent_dir ∷ l) c n m =
    (slash, (c ∷ n) ++ slashed m, behind_name (component_text parent_dir) l (normal (c ∷ n) ∷ m))
display-append (normal k ∷ l) c n m =
    (slash, (c ∷ n) ++ slashed m, behind_name k l (normal (c ∷ n) ∷ m))

slashed-sibling :
    (l : PathBuf) (n m : Text)
    → slashed (l ++ normal (n ++ m) ∷ []) ≡ slashed (l ++ normal n ∷ []) ++ m
slashed-sibling l n m =
    slashed-append l (normal (n ++ m) ∷ [])
    ∙ ap (λ (t : Text). slashed l ++ slash ∷ t)
        (append_assoc n m []
          ∙ ap (λ (t : Text). n ++ t) (append-nil m)
          ∙ ap (λ (t : Text). t ++ m) (sym (append-nil n)))
    ∙ sym (append_assoc (slashed l) (slash ∷ (n ++ [])) m)
    ∙ ap (λ (t : Text). t ++ m) (sym (slashed-append l (normal n ∷ [])))

behind_sibling :
    (t : Text) (l : PathBuf) (n m : Text)
    → t ++ slashed (l ++ normal (n ++ m) ∷ []) ≡ (t ++ slashed (l ++ normal n ∷ [])) ++ m
behind_sibling t l n m =
    ap (λ (u : Text). t ++ u) (slashed-sibling l n m)
    ∙ sym (append_assoc t (slashed (l ++ normal n ∷ [])) m)

starts_with-append : (a b : Text) → starts_with (a ++ b) a ≡ true
unfolding starts_with
starts_with-append [] b = refl
starts_with-append (c ∷ a) b = ground (arith, starts_with-append a b)

append-ne : (a : Text) (c : ℕ) (b : Text) → a ++ c ∷ b ≢ a
append-ne [] c b e = cc
append-ne (x ∷ a) c b e = ground (arith, append-ne a c b)

pub is_affected_of :
    (a : Text) (p : ShadowPath) (c : ℕ) (b : Text)
    → to_string p ≡ a ++ c ∷ b
    → is_affected a p ≡ true
unfolding is_affected
is_affected_of a p c b e = ground (arith, append-ne a c b, starts_with-append a (c ∷ b))

filter-append :
    (f : ShadowPath → Bool) (l m : List ShadowPath) → filter f (l ++ m) ≡ filter f l ++ filter f m
filter-append f [] m = refl
filter-append f (p ∷ l) m = ground (arith, filter-append f l m)

affected-middle :
    (a : ShadowPath) (before after : List ShadowPath) (p : ShadowPath)
    → is_affected (to_string a) p ≡ true
    → find_affected_children a (before ++ p ∷ after)
      ≡ find_affected_children a before ++ p ∷ find_affected_children a after
unfolding find_affected_children
affected-middle a before after p e =
    ground (arith, filter-append (is_affected (to_string a)) before (p ∷ after))

-- For a canonical path: every path below it, at any depth and with a first name that is not empty,
-- is found by `find_affected_children`, at its place among the paths.
pub find_affected_children-join :
    (p : ShadowPath) (c : ℕ) (n : Text) (m : PathBuf) (before after : List ShadowPath)
    → IsCanonical p.inner
    → IsNormal m
    → find_affected_children p (before ++ join p (normal (c ∷ n) ∷ m) ∷ after)
      ≡ find_affected_children p before
        ++ join p (normal (c ∷ n) ∷ m) ∷ find_affected_children p after
find_affected_children-join p c n m before after h k =
    let (d, t, e) = display-append p.inner c n m in
    affected-middle p before after (join p (normal (c ∷ n) ∷ m)) (
      is_affected_of (to_string p) _ d t
        (ap to_string (join_canonical p (normal (c ∷ n) ∷ m) h k) ∙ e))

pub display-sibling :
    (l : PathBuf) (n m : Text)
    → display (l ++ normal (n ++ m) ∷ []) ≡ display (l ++ normal n ∷ []) ++ m
unfolding display
display-sibling [] n m = append-nil (n ++ m) ∙ ap (λ (t : Text). t ++ m) (sym (append-nil n))
display-sibling (root_dir ∷ []) n m = slashed-sibling [] n m
display-sibling (root_dir ∷ x ∷ l) n m = slashed-sibling (x ∷ l) n m
display-sibling (cur_dir ∷ l) n m = behind_sibling (component_text cur_dir) l n m
display-sibling (parent_dir ∷ l) n m = behind_sibling (component_text parent_dir) l n m
display-sibling (normal k ∷ l) n m = behind_sibling k l n m

pub is_affected-sibling :
    (p : ShadowPath) (c : ℕ) (n m : Text)
    → IsCanonical p.inner
    → is_affected (to_string (join p (normal n ∷ []))) (join p (normal (n ++ c ∷ m) ∷ [])) ≡ true
is_affected-sibling p c n m h =
    let sibling = join p (normal (n ++ c ∷ m) ∷ []) in
    is_affected_of _ sibling c m (
      ap to_string (join_canonical p (normal (n ++ c ∷ m) ∷ []) h tt)
      ∙ display-sibling p.inner n (c ∷ m)
      ∙ ap (λ (t : Text). t ++ c ∷ m) (ap to_string (sym (join_canonical p (normal n ∷ []) h tt))))

-- For two children of a canonical path, where the name of the second is the name of the first and
-- something more: `find_affected_children` of the first finds the second.
pub find_affected_children-sibling :
    (p : ShadowPath) (c : ℕ) (n m : Text) (before after : List ShadowPath)
    → IsCanonical p.inner
    → find_affected_children
        (join p (normal n ∷ []))
        (before ++ join p (normal (n ++ c ∷ m) ∷ []) ∷ after)
      ≡ find_affected_children (join p (normal n ∷ [])) before
        ++ join p (normal (n ++ c ∷ m) ∷ []) ∷ find_affected_children (join p (normal n ∷ [])) after
find_affected_children-sibling p c n m before after h =
    affected-middle (join p (normal n ∷ [])) before after (join p (normal (n ++ c ∷ m) ∷ []))
      (is_affected-sibling p c n m h)
