-- ===== src/Store/Deletion.antt =====
-- What `delete_directory_recursive` of override_store/mod.rs leaves in the main store.
use shadowfs.Base.{
  ℕ, ◌≡◌, ◌≢◌, refl, ap, ◌∙◌, List, [], ◌∷◌, ◌++◌, Option, none, some, Bool, true, false, arith,
  lookup, ite, keys, is_some, filter, if◌then◌else◌,
}
use shadowfs.Directory.Affected.{is_affected-sibling, display-append, is_affected_of}
use shadowfs.Directory.Traversal.{is_affected, find_affected_children}
use shadowfs.Entry.{OverrideContent, OverrideEntry, is_deleted}
use shadowfs.Error.{Result, ok, err}
use shadowfs.Metadata.{FileMetadata}
use shadowfs.Path.{ShadowPath, ShadowPath-discrete, to_string, join}
use shadowfs.Path.Buf.{normal, PathBuf}
use shadowfs.Path.Canonical.{IsCanonical, IsNormal}
use shadowfs.Path.Chars.{Text}
use shadowfs.Path.Joins.{join_canonical}
use shadowfs.Store.{Env, OverrideStore, Action, ◌>>=◌}
use shadowfs.Store.Coherence.{stored, stored-remove}
use shadowfs.Store.Eviction.{make_room_induction}
use shadowfs.Store.Insertion.{allocated, insert_entry, mark_deleted}
use shadowfs.Store.Removal.{remove}
use shadowfs.Store.Tree.{remove_all, delete_directory_recursive}
use shadowfs.Store.Writes.{inserted, size_inserted, with_room, stored-insert_entry}

unfoldable is_in : ShadowPath → List ShadowPath → Bool
is_in q [] = false
is_in q (p ∷ l) = let rest = is_in q l in ite (ShadowPath-discrete q p) true rest

is_in-filter :
    {V : Type 0} (f : ShadowPath → Bool) (q : ShadowPath) (m : List (ShadowPath × V))
    → f q ≡ true
    → is_in q (filter f (keys m)) ≡ is_some (lookup ShadowPath-discrete q m)
unfolding is_in lookup
is_in-filter f q [] h = refl
is_in-filter f q ((p, v) ∷ m) h = ground (arith, is_in-filter f q m h)

is_affected-ne : (a q : ShadowPath) → is_affected (to_string a) q ≡ true → q ≢ a
unfolding is_affected
is_affected-ne a q h e = ground arith

module _ (env : Env) where
  open env use {entry_map}

  stored-remove_all :
      (q : ShadowPath) (l : List ShadowPath) (s : OverrideStore env)
      → stored env q (remove_all env l s).1 ≡ (if is_in q l then none else stored env q s)
  unfolding remove_all is_in
  stored-remove_all q [] s = refl
  stored-remove_all q (p ∷ l) s =
      ground (arith, stored-remove_all q l (remove env p s).1, stored-remove env p q s)

  bind-return :
      {A B : Type 0} (m : Action env A) (b : B) (s : OverrideStore env)
      → (◌>>=◌ env m (λ _ t. (ok b, t)) s).1 ≡ (m s).1
  unfolding ◌>>=◌
  bind-return {A} m b s = after (m s).0 (m s).1
    where
      after :
          (r : Result A) (t : OverrideStore env)
          → (◌>>=◌ env (λ u. (r, u)) (λ _ u. (ok b, u)) t).1 ≡ t
      after (ok a) t = refl
      after (err e) t = refl

  -- What an insertion finds to be absent elsewhere stays absent.
  insert_entry-absent :
      (p q : ShadowPath) (c : OverrideContent) (o : Option FileMetadata) (m : FileMetadata)
      (s : OverrideStore env)
      → q ≢ p
      → stored env q s ≡ none
      → stored env q (insert_entry env p c o m s).1 ≡ none
  insert_entry-absent p q c o m s ne h =
      let roomy : stored env q (with_room env p c o m s) ≡ none =
        make_room_induction env (λ u. stored env q u ≡ none)
          (λ r u k. ground (arith, stored-remove env r q u)) (λ st u k. k)
          (size_inserted env p c o m s) (allocated env s) h in
      ground (arith, stored-insert_entry env p c o m s q)

  mark_deleted-absent :
      (p q : ShadowPath) (s : OverrideStore env)
      → q ≢ p
      → stored env q s ≡ none
      → stored env q (mark_deleted env p s).1 ≡ none
  unfolding mark_deleted
  mark_deleted-absent p q s ne h = insert_entry-absent p q _ none _ _ ne h

  stored-inserted :
      (p : ShadowPath) (c : OverrideContent) (o : Option FileMetadata) (m : FileMetadata)
      (s : OverrideStore env)
      → stored env p (insert_entry env p c o m s).1 ≡ some (inserted env p c o m s)
  stored-inserted p c o m s = ground (arith, stored-insert_entry env p c o m s p)

  stored-mark_deleted :
      (p : ShadowPath) (s : OverrideStore env)
      → (e : OverrideEntry) × (stored env p (mark_deleted env p s).1 ≡ some e)
        × (is_deleted e ≡ true)
  unfolding mark_deleted
  stored-mark_deleted p s = (_, stored-inserted p OverrideContent.deleted none _ _, refl)

  module _ (path : ShadowPath) (s : OverrideStore env) where
    abbrev pub after_delete : OverrideStore env
    after_delete = (delete_directory_recursive env path s).1

    abbrev without_affected : OverrideStore env
    without_affected =
        (remove_all env (find_affected_children path (keys (entry_map.iter s.entries))) s).1

    after_delete-mark_deleted : after_delete ≡ (mark_deleted env path without_affected).1
    unfolding delete_directory_recursive
    after_delete-mark_deleted = bind-return (mark_deleted env path) _ without_affected

    stored-affected :
        (q : ShadowPath) → is_affected (to_string path) q ≡ true → stored env q after_delete ≡ none
    unfolding find_affected_children
    stored-affected q h =
        let gone : stored env q without_affected ≡ none = ground (
          arith,
          stored-remove_all q
              (filter (is_affected (to_string path)) (keys (entry_map.iter s.entries))) s,
          is_in-filter (is_affected (to_string path)) q (entry_map.iter s.entries) h,
          entry_map.lookup-iter q s.entries,
        ) in
        rw after_delete-mark_deleted
          (mark_deleted-absent path q without_affected (is_affected-ne path q h) gone)

    -- In any state: after `delete_directory_recursive`, whatever it answers, a deletion mark is
    -- stored at the path.
    pub stored-delete_directory :
        (e : OverrideEntry) × (stored env path after_delete ≡ some e) × (is_deleted e ≡ true)
    stored-delete_directory =
        rw after_delete-mark_deleted (stored-mark_deleted path without_affected)

  -- In any state, for a canonical path: after `delete_directory_recursive`, whatever it answers,
  -- nothing is stored at any path below it, at any depth, whose first name is not empty.
  pub stored-delete_directory-join :
      (p : ShadowPath) (c : ℕ) (n : Text) (m : PathBuf) (s : OverrideStore env)
      → IsCanonical p.inner
      → IsNormal m
      → stored env (join p (normal (c ∷ n) ∷ m)) (after_delete p s) ≡ none
  stored-delete_directory-join p c n m s h k =
      let (d, t, e) = display-append p.inner c n m in
      stored-affected p s (join p (normal (c ∷ n) ∷ m)) (
        is_affected_of (to_string p) _ d t
          (ap to_string (join_canonical p (normal (c ∷ n) ∷ m) h k) ∙ e))

  -- In any state, for two children of a canonical path, where the name of the second is the name of
  -- the first and something more: after `delete_directory_recursive` of the first, nothing is
  -- stored at the second.
  pub stored-delete_directory-sibling :
      (p : ShadowPath) (c : ℕ) (n m : Text) (s : OverrideStore env)
      → IsCanonical p.inner
      → stored env (join p (normal (n ++ c ∷ m) ∷ [])) (after_delete (join p (normal n ∷ [])) s)
        ≡ none
  stored-delete_directory-sibling p c n m s h =
      stored-affected (join p (normal n ∷ [])) s (join p (normal (n ++ c ∷ m) ∷ []))
        (is_affected-sibling p c n m h)
