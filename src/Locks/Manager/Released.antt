-- ===== src/Locks/Manager/Released.antt =====
-- What `release_all_locks` of shadowfs-macos, fskit/file_locking.rs, leaves.
use shadowfs.Base.{
  ℕ, ◌≡◌, refl, ap, ◌∙◌, List, [], ◌∷◌, false, not, ◌==◌, if◌then◌else◌, ite, filter, unwrap_or,
  lookup, arith, Bool-cases, inl, inr,
}
use shadowfs.Locks.{FileLock}
use shadowfs.Locks.Graph.{holds_path, remove_ownership}
use shadowfs.Locks.Held.{owns_one}
use shadowfs.Locks.Manager.{
  FileLockManager, get_locks, write_locks, release_locks_for_owner, release_paths,
  release_all_locks, paths_of,
}
use shadowfs.Locks.Manager.Exclusive.Granting.{get_locks-write_locks, process_wait_queue-locks}

-- The locks of others.
abbrev pub of_others : ℕ → List FileLock → List FileLock
of_others owner l = filter (λ (x : FileLock). not (x.owner == owner)) l

of_others_again :
    (owner : ℕ) (l : List FileLock) → of_others owner (of_others owner l) ≡ of_others owner l
of_others_again owner [] = refl
of_others_again owner (x ∷ l) = ground (arith, of_others_again owner l)

owns_none : (owner : ℕ) (l : List FileLock) → owns_one owner l ≡ false → of_others owner l ≡ l
unfolding owns_one
owns_none owner [] h = refl
owns_none owner (x ∷ l) h = ground (arith, owns_none owner l)

module _ {P : Type 0} (dec : Discrete P) where
  released_one :
      (owner : ℕ) (p q : P) (s : FileLockManager P)
      → get_locks dec q (release_locks_for_owner dec p owner s)
        ≡ ite (dec q p) (of_others owner (get_locks dec p s)) (get_locks dec q s)
  unfolding release_locks_for_owner get_locks
  released_one owner p q s =
      let kept = of_others owner (get_locks dec p s) in
      let t = write_locks dec p kept s in
      let graph = remove_ownership dec owner p t.ownership_graph in
      let same = process_wait_queue-locks dec p (record t { ownership_graph = graph }) in
      ap (λ l. unwrap_or (lookup dec q l) []) same.0 ∙ get_locks-write_locks dec p q kept s

  released_from :
      (owner : ℕ) (l : List P) (q : P) (s : FileLockManager P)
      → get_locks dec q (release_paths dec owner l s)
        ≡ (if holds_path dec q l then of_others owner (get_locks dec q s) else get_locks dec q s)
  unfolding release_paths holds_path
  released_from owner [] q s = refl
  released_from owner (p ∷ l) q s =
      let rest = released_from owner l q (release_locks_for_owner dec p owner s) in
      let one = released_one owner p q s in
      let again = of_others_again owner (get_locks dec q s) in
      let t = release_locks_for_owner dec p owner s in
      elim (dec q p) [
        | yes e ↦
            let here : get_locks dec q t ≡ of_others owner (get_locks dec q s) =
              ground (arith, one, e, ap (λ r. of_others owner (get_locks dec r s)) e) in
            ground (arith, rest, here, ap (of_others owner) here, again, e)
        | no n ↦
            let here : get_locks dec q t ≡ get_locks dec q s = ground (arith, one, n) in
            ground (arith, rest, here, ap (of_others owner) here, n)
      ]

  not_listed :
      (owner : ℕ) (q : P) (l : List (P × List FileLock))
      → holds_path dec q (paths_of dec owner l) ≡ false
      → of_others owner (unwrap_or (lookup dec q l) []) ≡ unwrap_or (lookup dec q l) []
  unfolding paths_of holds_path lookup
  not_listed owner q [] h = refl
  not_listed owner q ((p, x) ∷ l) h = ground (arith, not_listed owner q l, owns_none owner x)

  -- In any state: after the locks of an owner are released, every file has the locks of the other
  -- owners that it had, and no more.
  pub get_locks-release_all_locks :
      (owner : ℕ) (q : P) (s : FileLockManager P)
      → get_locks dec q (release_all_locks dec owner s) ≡ of_others owner (get_locks dec q s)
  unfolding release_all_locks get_locks
  get_locks-release_all_locks owner q s =
      let l = paths_of dec owner s.locks in
      let known = released_from owner l q s in
      elim (Bool-cases (holds_path dec q l)) [
        | inl y ↦ ground (arith, known, y)
        | inr n ↦ ground (arith, known, n, not_listed owner q s.locks n)
      ]
