-- ===== src/Locks/Graph/Cycles.antt =====
-- What the search of `LockGraph` of shadowfs-macos, fskit/file_locking.rs, finds.
use shadowfs.Base.{
  ℕ, zero, suc, ◌+◌, length, ◌≡◌, ◌⊎◌, refl, List, [], ◌∷◌, Bool, true, false, All, arith, lookup,
  ℕ_discrete, Bool-cases, inl, inr, unwrap_or, subst, ◌==◌,
}
use shadowfs.Locks.Graph.{
  Search, searched, unfinished, visit_all, leave, detect_cycle, member, add_member, remove_member,
  LockGraph, has_deadlock,
}
use shadowfs.Locks.Graph.Ends.{member-add_member, has_deadlock-searched}

pub Search-cases :
    (r : Search)
    → ((v : List ℕ) × (s : List ℕ) × (r ≡ searched true v s))
      ⊎ (((v : List ℕ) × (s : List ℕ) × (r ≡ searched false v s)) ⊎ (r ≡ unfinished))
Search-cases (searched true v s) = inl (v, s, refl)
Search-cases (searched false v s) = inr (inl (v, s, refl))
Search-cases unfinished = inr (inr refl)

pub nobody : (y : ℕ) → ¬ (member y [] ≡ true)
unfolding member
nobody y h = ground arith

member_head : (x : ℕ) (l : List ℕ) → member x (x ∷ l) ≡ true
unfolding member
member_head x l = ground arith

member_tail : (y x : ℕ) (l : List ℕ) → member y l ≡ true → member y (x ∷ l) ≡ true
unfolding member
member_tail y x l h = ground arith

pub member-remove_member :
    (y x : ℕ) (l : List ℕ)
    → member y (remove_member x l) ≡ true
    → ((y == x) ≡ false) × (member y l ≡ true)
unfolding remove_member member
member-remove_member y x [] h = absurd (ground arith)
member-remove_member y x (z ∷ l) h = ground (arith, member-remove_member y x l)

module _ (d : List (ℕ × List ℕ)) where
  abbrev pub dependencies_of : ℕ → List ℕ
  dependencies_of x = unwrap_or (lookup ℕ_discrete x d) []

  -- One waits for the other, or for one that does.
  pub data Leads : ℕ → ℕ → Type 0 where
    waits_for : (x y : ℕ) → member y (dependencies_of x) ≡ true → Leads x y
    further : (x y z : ℕ) → Leads x y → member z (dependencies_of y) ≡ true → Leads x z

  -- One is the other, or leads to it.
  abbrev pub Reaches : ℕ → ℕ → Type 0
  Reaches y x = (y ≡ x) ⊎ Leads y x

  pub step_to : (y x z : ℕ) → Reaches y x → member z (dependencies_of x) ≡ true → Leads y z
  step_to y x z (inl e) m = rw e (waits_for x z m)
  step_to y x z (inr p) m = further y x z p m

  abbrev pub Cycle : Type 0
  Cycle = (x : ℕ) × Leads x x

  abbrev pub Sub : List ℕ → List ℕ → Type 0
  Sub s t = (y : ℕ) → member y s ≡ true → member y t ≡ true

  pub members-All : (l m : List ℕ) → Sub l m → All (λ y. member y m ≡ true) l
  members-All [] m h = tt
  members-All (x ∷ l) m h =
      (h x (member_head x l), members-All l m (λ y k. h y (member_tail y x l k)))

  -- The node where the search begins.
  module _ (w : ℕ) where
    -- A cycle that is reached from it.
    abbrev pub CycleFrom : Type 0
    CycleFrom = (x : ℕ) × Reaches w x × Leads x x

    abbrev IsSound : List ℕ → Search → Type 0
    IsSound s (searched true v t) = CycleFrom
    IsSound s (searched false v t) = Sub t s
    IsSound s unfinished = Unit

    IsSound-Sub : (s t : List ℕ) (r : Search) → Sub t s → IsSound t r → IsSound s r
    IsSound-Sub s t (searched true v u) h k = k
    IsSound-Sub s t (searched false v u) h k = λ y m. h y (k y m)
    IsSound-Sub s t unfinished h k = tt

    abbrev Calls : (ℕ → List ℕ → List ℕ → Search) → Type 0
    Calls detect =
        (x : ℕ) (v s : List ℕ)
        → Reaches w x
        → ((y : ℕ) → member y s ≡ true → Leads y x)
        → IsSound s (detect x v s)

    visit_all-IsSound :
        (detect : ℕ → List ℕ → List ℕ → Search) (x : ℕ) (l v s : List ℕ)
        → Calls detect
        → Reaches w x
        → All (λ y. member y (dependencies_of x) ≡ true) l
        → ((y : ℕ) → member y s ≡ true → Reaches y x)
        → IsSound s (visit_all detect l v s)
    unfolding visit_all
    visit_all-IsSound detect x [] v s f r h k = λ y m. m
    visit_all-IsSound detect x (z ∷ l) v s f r h k = elim (Bool-cases (member z v)) [
      | inl e ↦ elim (Bool-cases (member z s)) [
        | inl g ↦ rw (e, g) (z, inr (step_to w x z r h.0), step_to z x z (k z g) h.0)
        | inr g ↦ rw (e, g) (visit_all-IsSound detect x l v s f r h.1 k)
      ]
      | inr e ↦
          let found = f z v s (inr (step_to w x z r h.0)) (λ y m. step_to y x z (k y m) h.0) in
          elim (Search-cases (detect z v s)) [
            | inl (v', t, g) ↦ rw (e, visit_all, g) (subst (IsSound s) g found)
            | inr (inl (v', t, g)) ↦
                let kept : Sub t s = subst (IsSound s) g found in
                rw (e, visit_all, g)
                  (IsSound-Sub s t _ kept
                    (visit_all-IsSound detect x l v' t f r h.1 (λ y m. k y (kept y m))))
            | inr (inr g) ↦ rw (e, visit_all, g) tt
          ]
    ]

    leave-IsSound :
        (x : ℕ) (s : List ℕ) (r : Search) → IsSound (add_member x s) r → IsSound s (leave x r)
    unfolding leave
    leave-IsSound x s (searched true v t) h = h
    leave-IsSound x s (searched false v t) h = λ y m.
        let (ne, there) = member-remove_member y x t m in
        ground (arith, h y there, member-add_member y x s)
    leave-IsSound x s unfinished h = tt

    detect_cycle-IsSound : (fuel : ℕ) → Calls (detect_cycle d fuel)
    unfolding detect_cycle
    detect_cycle-IsSound zero x v s r h = tt
    detect_cycle-IsSound (suc fuel) x v s r h = leave-IsSound x s _ (
        visit_all-IsSound (detect_cycle d fuel) x (dependencies_of x) (add_member x v)
          (add_member x s) (detect_cycle-IsSound fuel) r
          (members-All (dependencies_of x) (dependencies_of x) (λ y m. m))
          (λ y m. elim (Bool-cases (y == x)) [
            | inl e ↦ inl (ground arith)
            | inr e ↦ inr (h y (ground (arith, member-add_member y x s)))
          ]))

module _ {P : Type 0} (dec : Discrete P) where
  pub found_cycle :
      (w : ℕ) (g : LockGraph P) (v s : List ℕ)
      → has_deadlock dec w g ≡ searched true v s
      → CycleFrom g.dependencies w
  unfolding has_deadlock
  found_cycle w g v s e = subst (IsSound g.dependencies w []) e (
      detect_cycle-IsSound g.dependencies w (length g.dependencies + 2) w [] [] (inl refl)
        (λ y m. absurd (nobody y m)))

  -- On any graph of dependencies and from any waiter, the search of `has_deadlock` comes to an
  -- answer, as calls that are as deep as there are nodes with dependencies, and two more, are
  -- enough; and where the answer is yes, there is a cycle in the graph.
  pub has_deadlock-Cycle :
      (w : ℕ) (g : LockGraph P)
      → (b : Bool) × (v : List ℕ) × (s : List ℕ) × (has_deadlock dec w g ≡ searched b v s)
        × (b ≡ true → Cycle g.dependencies)
  has_deadlock-Cycle w g =
      let (b, v, s, e) = has_deadlock-searched dec w g in
      (b, v, s, e, λ t. let found = found_cycle w g v s (rw (← t) e) in (found.0, found.2))
