-- ===== src/Locks/Manager/Waiting/Deadlock.antt =====
-- The check for deadlocks of shadowfs-macos, fskit/file_locking.rs, in the states that the manager reaches.
use shadowfs.Base.{
  ℕ, suc, ◌+◌, ◌≡◌, ◌≢◌, refl, ap, ◌∙◌, List, [], ◌∷◌, some, none, false, arith, All, lookup, put,
  without, lookup-put, ℕ_discrete, unwrap_or, length, Bool-cases, inl, inr,
}
use shadowfs.Locks.{FileLock}
use shadowfs.Locks.Graph.{
  searched, visit_all, leave, detect_cycle, member, add_member, remove_member, add_dependencies,
  add_wait, remove_wait, has_deadlock,
}
use shadowfs.Locks.Held.{other_owners}
use shadowfs.Locks.Manager.{FileLockManager, get_locks, verdict, would_cause_deadlock}

without-put :
    (w : ℕ) (v : List ℕ) (d : List (ℕ × List ℕ))
    → without ℕ_discrete w (put ℕ_discrete w v d) ≡ without ℕ_discrete w d
unfolding without put
without-put w v [] = ground arith
without-put w v ((k, u) ∷ d) = ground (arith, without-put w v d)

without-add_dependencies :
    (w : ℕ) (l : List ℕ) (d : List (ℕ × List ℕ))
    → without ℕ_discrete w (add_dependencies w l d) ≡ without ℕ_discrete w d
unfolding add_dependencies
without-add_dependencies w [] d = refl
without-add_dependencies w (x ∷ l) d =
    without-add_dependencies w l (put ℕ_discrete w _ d) ∙ without-put w _ d

lookup_other :
    (w x : ℕ) (v : List ℕ) (d : List (ℕ × List ℕ))
    → x ≢ w
    → lookup ℕ_discrete x (put ℕ_discrete w v d) ≡ lookup ℕ_discrete x d
lookup_other w x v d h = ground (arith, lookup-put ℕ_discrete w x v d)

lookup-add_dependencies :
    (w x : ℕ) (l : List ℕ) (d : List (ℕ × List ℕ))
    → x ≢ w
    → lookup ℕ_discrete x (add_dependencies w l d) ≡ lookup ℕ_discrete x d
unfolding add_dependencies
lookup-add_dependencies w x [] d h = refl
lookup-add_dependencies w x (y ∷ l) d h =
    lookup-add_dependencies w x l (put ℕ_discrete w _ d) h ∙ lookup_other w x _ d h

abbrev IsOther : ℕ → List ℕ → Type 0
IsOther w l = All (λ x. x ≢ w) l

IsOther-add_member : (w x : ℕ) (l : List ℕ) → x ≢ w → IsOther w l → IsOther w (add_member x l)
unfolding add_member
IsOther-add_member w x l h k = ground arith

IsOther-add_dependencies :
    (w : ℕ) (l : List ℕ) (d : List (ℕ × List ℕ))
    → IsOther w l
    → IsOther w (unwrap_or (lookup ℕ_discrete w d) [])
    → IsOther w (unwrap_or (lookup ℕ_discrete w (add_dependencies w l d)) [])
unfolding add_dependencies
IsOther-add_dependencies w [] d h k = k
IsOther-add_dependencies w (x ∷ l) d h k =
    let v = add_member x (unwrap_or (lookup ℕ_discrete w d) []) in
    IsOther-add_dependencies w l (put ℕ_discrete w v d) h.1 (
      ground (
        arith,
        lookup-put ℕ_discrete w w v d,
        IsOther-add_member w x (unwrap_or (lookup ℕ_discrete w d) []) h.0 k,
      ))

IsOther-other_owners : (w : ℕ) (l : List FileLock) → IsOther w (other_owners w l)
unfolding other_owners
IsOther-other_owners w [] = tt
IsOther-other_owners w (a ∷ l) = ground (arith, IsOther-other_owners w l)

-- A node without dependencies is left as it was entered.
detect_cycle_alone :
    (d : List (ℕ × List ℕ)) (fuel w x : ℕ) (visited : List ℕ)
    → lookup ℕ_discrete x d ≡ none
    → x ≢ w
    → detect_cycle d (suc fuel) x visited (w ∷ []) ≡ searched false (add_member x visited) (w ∷ [])
unfolding detect_cycle visit_all leave add_member remove_member member
detect_cycle_alone d fuel w x visited h k = ground arith

member_other : (w x : ℕ) → x ≢ w → member x (w ∷ []) ≡ false
unfolding member
member_other w x h = ground arith

visit_all_alone :
    (d : List (ℕ × List ℕ)) (fuel w : ℕ) (l visited : List ℕ)
    → ((x : ℕ) → x ≢ w → lookup ℕ_discrete x d ≡ none)
    → IsOther w l
    → (v : List ℕ) × (visit_all (detect_cycle d (suc fuel)) l visited (w ∷ [])
        ≡ searched false v (w ∷ []))
unfolding visit_all
visit_all_alone d fuel w [] visited h k = (visited, refl)
visit_all_alone d fuel w (x ∷ l) visited h k = elim (Bool-cases (member x visited)) [
  | inl e ↦
      let (v, f) = visit_all_alone d fuel w l visited h k.1 in
      (v, rw (e, visit_all, member_other w x k.0) f)
  | inr e ↦
      let (v, f) = visit_all_alone d fuel w l (add_member x visited) h k.1 in
      (v, rw (e, visit_all, detect_cycle_alone d fuel w x visited (h x k.0) k.0) f)
]

detect_cycle_enter :
    (d : List (ℕ × List ℕ)) (fuel w : ℕ)
    → detect_cycle d (suc fuel) w [] []
      ≡ leave w
          (visit_all (detect_cycle d fuel) (unwrap_or (lookup ℕ_discrete w d) []) (w ∷ []) (w ∷ []))
unfolding detect_cycle add_member member
detect_cycle_enter d fuel w = refl

-- Where nobody waits, only the new waiter has dependencies, and not on itself.
detect_cycle_new :
    (w : ℕ) (l : List ℕ)
    → IsOther w l
    → verdict
        (detect_cycle (add_dependencies w l []) (length (add_dependencies w l []) + 2) w [] [])
      ≡ some false
unfolding verdict leave
detect_cycle_new w l h =
    let d = add_dependencies w l [] in
    let none_else : (x : ℕ) → x ≢ w → lookup ℕ_discrete x d ≡ none =
      λ x k. lookup-add_dependencies w x l [] k ∙ unfold lookup in refl in
    let others : IsOther w (unwrap_or (lookup ℕ_discrete w d) []) =
      IsOther-add_dependencies w l [] h (unfold lookup in tt) in
    let (v, e) =
      visit_all_alone d (length d) w (unwrap_or (lookup ℕ_discrete w d) []) (w ∷ []) none_else
        others in
    let more : length d + 2 ≡ suc (suc (length d)) = omega arith in
    rw (more, detect_cycle_enter d (suc (length d)) w, e) refl

module _ {P : Type 0} (dec : Discrete P) where
  abbrev pub IsIdle : FileLockManager P → Type 0
  IsIdle s = s.ownership_graph.dependencies ≡ []

  pub would_cause_deadlock_idle :
      (w : ℕ) (path : P) (s : FileLockManager P)
      → IsIdle s
      → (would_cause_deadlock dec w path s).0 ≡ some false
  unfolding would_cause_deadlock has_deadlock add_wait
  would_cause_deadlock_idle w path s h =
      let l = other_owners w (get_locks dec path s) in
      ap
        (λ d.
          verdict
            (detect_cycle (add_dependencies w l d) (length (add_dependencies w l d) + 2) w [] []))
        h
      ∙ detect_cycle_new w l (IsOther-other_owners w (get_locks dec path s))

  pub would_cause_deadlock-IsIdle :
      (w : ℕ) (path : P) (s : FileLockManager P)
      → IsIdle s
      → IsIdle (would_cause_deadlock dec w path s).1
  unfolding would_cause_deadlock remove_wait add_wait
  would_cause_deadlock-IsIdle w path s h =
      without-add_dependencies w (other_owners w (get_locks dec path s))
        s.ownership_graph.dependencies
      ∙ rw h (unfold without in refl)
