-- ===== src/Persistence/Snapshot/Restore/Dirs.antt =====
-- The directories that `OverrideSnapshot::restore_to_store` of override_store/persistence.rs restores.
use shadowfs.Base.{
  ◌≡◌, refl, ap, ◌∙◌, List, [], ◌∷◌, map, Bool, true, false, ◌||◌, ite, arith, lookup, keys,
  Option-cases, inl, inr, is_some, if◌then◌else◌,
}
use shadowfs.Directory.{
  NameSets, ChildMaps, DirectoryCache, add_child, has_child, get_children, get_all_parents,
}
use shadowfs.Directory
use shadowfs.Directory.Children.{has_child-add_child}
use shadowfs.Path.{ShadowPath, ShadowPath-discrete}
use shadowfs.Path.Buf.{Text-discrete}
use shadowfs.Path.Chars.{Text}
use shadowfs.Persistence.Snapshot.{restore_children, restore_dirs}
use shadowfs.Store.{Env}

unfoldable occurs : Text → List Text → Bool
occurs n [] = false
occurs n (m ∷ l) = let rest = occurs n l in ite (Text-discrete n m) true rest

unfoldable listed : ShadowPath → Text → List (ShadowPath × List Text) → Bool
listed p n [] = false
listed p n ((q, l) ∷ rest) =
    let others = listed p n rest in ite (ShadowPath-discrete p q) (occurs n l || others) others

occurs-keys :
    (n : Text) (l : List (Text × Unit {0})) → occurs n (keys l) ≡ is_some (lookup Text-discrete n l)
unfolding occurs lookup
occurs-keys n [] = refl
occurs-keys n ((m, u) ∷ l) = ground (arith, occurs-keys n l)

module _ (env : Env) where
  open env use {names, dirs}

  has_child-restore_children :
      (p q : ShadowPath) (n : Text) (l : List Text) (c : DirectoryCache names dirs)
      → has_child names dirs q n (restore_children env p l c)
        ≡ ite
            (ShadowPath-discrete q p)
            (occurs n l || has_child names dirs q n c)
            (has_child names dirs q n c)
  unfolding restore_children occurs
  has_child-restore_children p q n [] c = ground arith
  has_child-restore_children p q n (m ∷ l) c = ground (
    arith,
    has_child-restore_children p q n l (add_child names dirs p m c),
    has_child-add_child names dirs p q m n c,
  )

  has_child-restore_dirs :
      (l : List (ShadowPath × List Text)) (q : ShadowPath) (n : Text)
      (c : DirectoryCache names dirs)
      → has_child names dirs q n (restore_dirs env l c)
        ≡ (listed q n l || has_child names dirs q n c)
  unfolding restore_dirs listed
  has_child-restore_dirs [] q n c = refl
  has_child-restore_dirs ((p, names') ∷ l) q n c = ground (
    arith,
    has_child-restore_dirs l q n (restore_children env p names' c),
    has_child-restore_children p q n names' c,
  )

  listed-map :
      {V : Type 0} (q : ShadowPath) (n : Text) (f : ShadowPath → List Text)
      (l : List (ShadowPath × V))
      → listed q n (map (λ p. (p, f p)) (keys l))
        ≡ (if is_some (lookup ShadowPath-discrete q l) then occurs n (f q) else false)
  unfolding listed lookup
  listed-map q n f [] = refl
  listed-map q n f ((p, v) ∷ l) = elim (ShadowPath-discrete q p) [
    | yes e ↦ ground (arith, listed-map q n f l, ap f e)
    | no e ↦ ground (arith, listed-map q n f l)
  ]

  listed-get_children :
      (q : ShadowPath) (n : Text) (c : DirectoryCache names dirs)
      → listed q n (map (λ p. (p, get_children names dirs p c)) (get_all_parents names dirs c))
        ≡ has_child names dirs q n c
  unfolding get_all_parents get_children has_child
  listed-get_children q n c =
      listed-map q n (λ p. get_children names dirs p c) (dirs.iter c.children)
      ∙ (elim (Option-cases (dirs.get q c.children)) [
        | inl e ↦ ground (arith, dirs.lookup-iter q c.children)
        | inr (s, e) ↦ ground (
          arith,
          dirs.lookup-iter q c.children,
          occurs-keys n (names.iter s),
          names.lookup-iter n s,
        )
      ])

  has_child-new :
      (q : ShadowPath) (n : Text) → has_child names dirs q n (Directory.new names dirs) ≡ false
  unfolding has_child
  has_child-new q n = ground (arith, dirs.get-new q)

  -- The names that a snapshot has are those that are restored.
  pub has_child-restored :
      (q : ShadowPath) (n : Text) (c : DirectoryCache names dirs)
      → has_child names dirs q n (
          restore_dirs env
            (map (λ p. (p, get_children names dirs p c)) (get_all_parents names dirs c))
            (Directory.new names dirs))
        ≡ has_child names dirs q n c
  has_child-restored q n c = ground (
    arith,
    has_child-restore_dirs
        (map (λ p. (p, get_children names dirs p c)) (get_all_parents names dirs c)) q n
        (Directory.new names dirs),
    listed-get_children q n c,
    has_child-new q n,
  )
