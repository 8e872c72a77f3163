-- ===== src/Directory/Children.antt =====
-- Names and directories in the directory cache of override_store/directory.rs.
use shadowfs.Base.{
  sum-map-weigh, ℕ, ◌+◌, ◌≡◌, ◌≢◌, some, true, false, ite, inl, inr, Option-cases, arith,
  if◌then◌else◌, weigh,
}
use shadowfs.Crates.DashMap.Totals.{
  weigh-insert, weigh-remove, len-insert, len-remove, len-new, get_of_len-zero,
}
use shadowfs.Path.{ShadowPath, ShadowPath-discrete}
use shadowfs.Path.Chars.{Text}
use shadowfs.Path.Buf.{Text-discrete}
use shadowfs.Directory.{
  NameSets, ChildMaps, DirectoryCache, entry_or_new, add_child, remove_child, has_child,
  clear_children, total_child_count,
}

module _ (names : NameSets) (dirs : ChildMaps names) where
  -- Every directory of the map has a child.
  pub record NoEmptySet (c : DirectoryCache names dirs) : Type 0 where
    pub child : (p : ShadowPath) (s : names.Map) → dirs.get p c.children ≡ some s → names.len s ≢ 0

  -- After `add_child` exactly the added name of the directory is new.
  pub has_child-add_child :
      (p q : ShadowPath) (n m : Text) (c : DirectoryCache names dirs)
      → has_child names dirs q m (add_child names dirs p n c)
        ≡ ite
            (ShadowPath-discrete q p)
            (ite (Text-discrete m n) true (has_child names dirs q m c))
            (has_child names dirs q m c)
  unfolding has_child add_child
  has_child-add_child p q n m c = elim (Option-cases (dirs.get p c.children)) [
    | inl e ↦ ground (
      arith,
      dirs.get-insert p q (names.insert n tt names.new).0 c.children,
      names.get-insert n m tt names.new,
      names.get-new m,
    )
    | inr (s, e) ↦
        ground
          (arith, dirs.get-insert p q (names.insert n tt s).0 c.children, names.get-insert n m tt s)
  ]

  -- After `remove_child` exactly the removed name of the directory is gone, and the answer is
  -- whether it was there.
  pub has_child-remove_child :
      (p q : ShadowPath) (n m : Text) (c : DirectoryCache names dirs)
      → (has_child names dirs q m (remove_child names dirs p n c).0
          ≡ ite
              (ShadowPath-discrete q p)
              (ite (Text-discrete m n) false (has_child names dirs q m c))
              (has_child names dirs q m c))
        × ((remove_child names dirs p n c).1 ≡ has_child names dirs p n c)
  unfolding has_child remove_child
  has_child-remove_child p q n m c = elim (Option-cases (dirs.get p c.children)) [
    | inl e ↦ (ground arith, ground arith)
    | inr (s, e) ↦ (
      ground (
        arith,
        dirs.get-insert p q (names.remove n s).0 c.children,
        dirs.get-remove p q c.children,
        names.get-remove n m s,
        get_of_len-zero Text-discrete names m (names.remove n s).0,
      ),
      ground (arith, names.remove_old n s),
    )
  ]

  pub add_child-NoEmptySet :
      (p : ShadowPath) (n : Text) (c : DirectoryCache names dirs)
      → NoEmptySet c
      → NoEmptySet (add_child names dirs p n c)
  unfolding add_child
  add_child-NoEmptySet p n c h = record {
    child = λ q s e.
        let s₀ = entry_or_new names dirs (dirs.get p c.children) in
        ground (
          arith,
          dirs.get-insert p q (names.insert n tt s₀).0 c.children,
          len-insert Text-discrete names n tt s₀,
          get_of_len-zero Text-discrete names n s₀,
          h.child q s,
        );
  }

  pub remove_child-NoEmptySet :
      (p : ShadowPath) (n : Text) (c : DirectoryCache names dirs)
      → NoEmptySet c
      → NoEmptySet (remove_child names dirs p n c).0
  unfolding remove_child
  remove_child-NoEmptySet p n c h = record {
    child = λ q s e. elim (Option-cases (dirs.get p c.children)) [
      | inl missing ↦ ground (arith, h.child q s)
      | inr (t, found) ↦ ground (
        arith,
        dirs.get-insert p q (names.remove n t).0 c.children,
        dirs.get-remove p q c.children,
        h.child q s,
      )
    ];
  }

  pub clear_children-NoEmptySet :
      (p : ShadowPath) (c : DirectoryCache names dirs)
      → NoEmptySet c
      → NoEmptySet (clear_children names dirs p c).0
  unfolding clear_children
  clear_children-NoEmptySet p c h = record {
    child = λ q s e. ground (arith, dirs.get-remove p q c.children, h.child q s);
  }

  total_weigh :
      (c : DirectoryCache names dirs)
      → total_child_count names dirs c ≡ weigh (λ _ s. names.len s) (dirs.iter c.children)
  unfolding total_child_count
  total_weigh c = sum-map-weigh names.len (dirs.iter c.children)

  -- `add_child` raises the total number of children by one, or not at all where the name was there.
  pub total_child_count-add_child :
      (p : ShadowPath) (n : Text) (c : DirectoryCache names dirs)
      → total_child_count names dirs (add_child names dirs p n c) ≡ (
          if has_child names dirs p n c
          then total_child_count names dirs c
          else total_child_count names dirs c + 1)
  unfolding add_child has_child
  total_child_count-add_child p n c = elim (Option-cases (dirs.get p c.children)) [
    | inl e ↦ ground (
      arith,
      total_weigh c,
      total_weigh (add_child names dirs p n c),
      weigh-insert ShadowPath-discrete dirs size p (names.insert n tt names.new).0 c.children,
      len-insert Text-discrete names n tt names.new,
      len-new Text-discrete names,
      names.get-new n,
    )
    | inr (s, e) ↦ ground (
      arith,
      total_weigh c,
      total_weigh (add_child names dirs p n c),
      weigh-insert ShadowPath-discrete dirs size p (names.insert n tt s).0 c.children,
      len-insert Text-discrete names n tt s,
    )
  ]
    where
      size : ShadowPath → names.Map → ℕ
      size _ s = names.len s

  -- `remove_child` lowers the total number of children by one where it answers true, and leaves it
  -- where it answers false.
  pub total_child_count-remove_child :
      (p : ShadowPath) (n : Text) (c : DirectoryCache names dirs)
      → total_child_count names dirs c ≡ (
          if (remove_child names dirs p n c).1
          then total_child_count names dirs (remove_child names dirs p n c).0 + 1
          else total_child_count names dirs (remove_child names dirs p n c).0)
  unfolding remove_child
  total_child_count-remove_child p n c = elim (Option-cases (dirs.get p c.children)) [
    | inl e ↦ ground arith
    | inr (s, e) ↦ ground (
      arith,
      total_weigh c,
      total_weigh (remove_child names dirs p n c).0,
      weigh-insert ShadowPath-discrete dirs size p (names.remove n s).0 c.children,
      weigh-remove ShadowPath-discrete dirs size p c.children,
      len-remove Text-discrete names n s,
      names.remove_old n s,
    )
  ]
    where
      size : ShadowPath → names.Map → ℕ
      size _ s = names.len s
