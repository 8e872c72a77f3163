-- ===== src/Locks/Graph/Misses.antt =====
-- Which cycles the search of `LockGraph` of shadowfs-macos, fskit/file_locking.rs, may miss: the order
-- in which it leaves nodes.
use shadowfs.Base.{
  ◌∙◌, ℕ, zero, suc, ◌+◌, length, ◌≡◌, ◌≤◌, ◌<◌, ◌↔◌, refl, List, [], ◌∷◌, Bool, true, false, ◌||◌,
  All, arith, ℕ_discrete, Bool-cases, inl, inr, subst, ◌==◌, if◌then◌else◌,
}
use shadowfs.Locks.Graph.{
  Search, searched, unfinished, visit_all, leave, detect_cycle, member, add_member, remove_member,
  LockGraph, has_deadlock,
}
use shadowfs.Locks.Graph.Cycles.{
  dependencies_of, Leads, waits_for, further, CycleFrom, found_cycle, Search-cases,
}
use shadowfs.Locks.Graph.Ends.{member-add_member, has_deadlock-searched}

after_removal :
    (y x : ℕ) (l : List ℕ) → member y (remove_member x l) ≡ (if y == x then false else member y l)
unfolding remove_member member
after_removal y x [] = ground arith
after_removal y x (z ∷ l) = ground (arith, after_removal y x l)

-- How many nodes stand from the first occurrence of a node on.
unfoldable rank : ℕ → List ℕ → ℕ
rank y [] = 0
rank y (z ∷ f) = let later = rank y f in if y == z then suc (length f) else later

rank-length : (y : ℕ) (f : List ℕ) → rank y f ≤ length f
unfolding rank
rank-length y [] = omega arith
rank-length y (z ∷ f) = ground (arith, rank-length y f)

All-member :
    (z : ℕ) (l : List ℕ) (f : List ℕ)
    → All (λ y. member y f ≡ true) l
    → member z l ≡ true
    → member z f ≡ true
unfolding member
All-member z [] f h m = absurd (ground (arith, m))
All-member z (y ∷ l) f h m = ground (arith, All-member z l f, h, m)

module _ (d : List (ℕ × List ℕ)) where
  -- Each node once, and what it waits for behind it.
  abbrev IsOrdered : List ℕ → Type 0
  IsOrdered [] = Unit
  IsOrdered (y ∷ f) =
      (member y f ≡ false) × All (λ z. member z f ≡ true) (dependencies_of d y) × IsOrdered f

  step_down :
      (f : List ℕ) (x z : ℕ)
      → IsOrdered f
      → member x f ≡ true
      → member z (dependencies_of d x) ≡ true
      → (member z f ≡ true) × (rank z f < rank x f)
  unfolding rank member
  step_down [] x z o m n = absurd (ground (arith, m))
  step_down (y ∷ f) x z o m n = elim (ℕ_discrete x y) [
    | yes e ↦
        let n' : member z (dependencies_of d y) ≡ true =
          subst (λ u. member z (dependencies_of d u) ≡ true) e n in
        let there = All-member z (dependencies_of d y) f o.1 n' in
        (ground (arith, there), ground (arith, there, o.0, e, rank-length z f))
    | no ne ↦
        let rest = step_down f x z o.2 (ground (arith, m, ne)) n in
        (ground (arith, rest), ground (arith, rest, o.0, ne))
  ]

  lead_down :
      (f : List ℕ) (x z : ℕ)
      → IsOrdered f
      → member x f ≡ true
      → Leads d x z
      → (member z f ≡ true) × (rank z f < rank x f)
  lead_down f x z o m (waits_for _ _ n) = step_down f x z o m n
  lead_down f x z o m (further _ y _ p n) =
      let (there, less) = lead_down f x y o m p in
      let (here, lesser) = step_down f y z o there n in (here, omega (arith, less, lesser))

  no_cycle : (f : List ℕ) (w : ℕ) → IsOrdered f → member w f ≡ true → ¬ CycleFrom d w
  no_cycle f w o m (x, inl e, p) =
      let down = lead_down f x x o (subst (λ u. member u f ≡ true) e m) p in omega (arith, down.1)
  no_cycle f w o m (x, inr q, p) =
      let down = lead_down f x x o (lead_down f w x o m q).0 p in omega (arith, down.1)

  -- What was visited is left or on the stack, and what is left is in order.
  record IsTidy (f v s : List ℕ) : Type 0 where
    pub split : (y : ℕ) → member y v ≡ (member y f || member y s)
    pub apart : (y : ℕ) → member y f ≡ true → member y s ≡ false
    pub ordered : IsOrdered f

  -- The stack is what it was, and nothing that was left is forgotten.
  record IsLater (f s g v t : List ℕ) : Type 0 where
    pub tidy : IsTidy g v t
    pub stack : (y : ℕ) → member y t ≡ member y s
    pub more : (y : ℕ) → member y f ≡ true → member y g ≡ true

  -- Where no cycle was found, these are left at the end, some nodes among them.
  abbrev HasLeft : List ℕ → List ℕ → List ℕ → Search → Type 0
  HasLeft f s l (searched false v t) =
      (g : List ℕ) × IsLater f s g v t × All (λ z. member z g ≡ true) l
  HasLeft f s l (searched true v t) = Unit
  HasLeft f s l unfinished = Unit

  abbrev Tidies : (ℕ → List ℕ → List ℕ → Search) → Type 0
  Tidies detect =
      (x : ℕ) (f v s : List ℕ)
      → IsTidy f v s
      → member x v ≡ false
      → HasLeft f s (x ∷ []) (detect x v s)

  HasLeft-then :
      (f s g t : List ℕ) (z : ℕ) (l : List ℕ) (r : Search)
      → ((y : ℕ) → member y t ≡ member y s)
      → ((y : ℕ) → member y f ≡ true → member y g ≡ true)
      → member z g ≡ true
      → HasLeft g t l r
      → HasLeft f s (z ∷ l) r
  HasLeft-then f s g t z l (searched true v u) a b m h = tt
  HasLeft-then f s g t z l unfinished a b m h = tt
  HasLeft-then f s g t z l (searched false v u) a b m (k, later, all) = (
    k,
    record {
      tidy = later.tidy;
      stack = λ y. later.stack y ∙ a y;
      more = λ y n. later.more y (b y n);
    },
    (later.more z m, all),
  )

  visit_all-HasLeft :
      (detect : ℕ → List ℕ → List ℕ → Search) (l f v s : List ℕ)
      → Tidies detect
      → IsTidy f v s
      → HasLeft f s l (visit_all detect l v s)
  unfolding visit_all
  visit_all-HasLeft detect [] f v s c h =
      (f, record { tidy = h; stack = λ y. refl; more = λ y m. m }, tt)
  visit_all-HasLeft detect (z ∷ l) f v s c h = elim (Bool-cases (member z v)) [
    | inl e ↦ elim (Bool-cases (member z s)) [
      | inl g ↦ rw (e, g) tt
      | inr g ↦
          let m : member z f ≡ true = ground (arith, h.split z, e, g) in
          rw (e, g)
            (HasLeft-then f s f s z l _ (λ y. refl) (λ y n. n) m
              (visit_all-HasLeft detect l f v s c h))
    ]
    | inr e ↦
        let found = c z f v s h e in
        elim (Search-cases (detect z v s)) [
          | inl (v', t, g) ↦ rw (e, visit_all, g) tt
          | inr (inl (v', t, g)) ↦
              let (k, later, all) = subst (HasLeft f s (z ∷ [])) g found in
              rw (e, visit_all, g)
                (HasLeft-then f s k t z l _ later.stack later.more all.0
                  (visit_all-HasLeft detect l k v' t c later.tidy))
          | inr (inr g) ↦ rw (e, visit_all, g) tt
        ]
  ]

  stacked :
      (x : ℕ) (f v s : List ℕ)
      → IsTidy f v s
      → member x v ≡ false
      → IsTidy f (add_member x v) (add_member x s)
  stacked x f v s h e = record {
    split = λ y. ground (arith, h.split y, member-add_member y x v, member-add_member y x s);
    apart = λ y m. ground (arith, h.apart y, h.split y, h.split x, e, m, member-add_member y x s);
    ordered = h.ordered;
  }

  leave-HasLeft :
      (x : ℕ) (f v s : List ℕ) (r : Search)
      → IsTidy f v s
      → member x v ≡ false
      → HasLeft f (add_member x s) (dependencies_of d x) r
      → HasLeft f s (x ∷ []) (leave x r)
  unfolding leave member
  leave-HasLeft x f v s (searched true w t) i e h = tt
  leave-HasLeft x f v s unfinished i e h = tt
  leave-HasLeft x f v s (searched false w t) i e (g, later, all) =
      let off : member x s ≡ false = ground (arith, i.split x, e) in
      let on_stack : member x t ≡ true = ground (arith, later.stack x, member-add_member x x s) in
      let once : member x g ≡ false = ground (arith, later.tidy.apart x, on_stack) in
      (
        x ∷ g,
        record {
          tidy = record {
            split = λ y. ground (arith, later.tidy.split y, after_removal y x t, on_stack);
            apart = λ y m. ground (arith, later.tidy.apart y, after_removal y x t, m);
            ordered = (once, all, later.tidy.ordered);
          };
          stack =
              λ y. ground (arith, after_removal y x t, later.stack y, member-add_member y x s, off);
          more = λ y m. ground (arith, later.more y m);
        },
        (ground arith, tt),
      )

  detect_cycle-HasLeft : (fuel : ℕ) → Tidies (detect_cycle d fuel)
  unfolding detect_cycle
  detect_cycle-HasLeft zero x f v s h e = tt
  detect_cycle-HasLeft (suc fuel) x f v s h e = leave-HasLeft x f v s _ h e (
      visit_all-HasLeft (detect_cycle d fuel) (dependencies_of d x) f (add_member x v)
        (add_member x s) (detect_cycle-HasLeft fuel) (stacked x f v s h e))

  nothing_visited : IsTidy [] [] []
  unfolding member
  nothing_visited = record { split = λ y. refl; apart = λ y m. refl; ordered = tt }

module _ {P : Type 0} (dec : Discrete P) where
  found_none :
      (w : ℕ) (g : LockGraph P) (v s : List ℕ)
      → has_deadlock dec w g ≡ searched false v s
      → ¬ CycleFrom g.dependencies w
  unfolding has_deadlock member
  found_none w g v s e =
      let d = g.dependencies in
      let (f, later, left) =
        subst (HasLeft d [] [] (w ∷ [])) e
          (detect_cycle-HasLeft d (length d + 2) w [] [] [] (nothing_visited d) refl) in
      no_cycle d f w later.tidy.ordered left.0

  -- On any graph of dependencies and from any waiter: the search of `has_deadlock` comes to an
  -- answer, as calls that are as deep as there are nodes with dependencies, and two more, are
  -- enough; and the answer is yes exactly where the waiter is on a cycle or leads to one.
  pub has_deadlock-CycleFrom :
      (w : ℕ) (g : LockGraph P)
      → (b : Bool) × (v : List ℕ) × (s : List ℕ) × (has_deadlock dec w g ≡ searched b v s)
        × ((b ≡ true) ↔ CycleFrom g.dependencies w)
  has_deadlock-CycleFrom w g =
      let (b, v, s, e) = has_deadlock-searched dec w g in
      (
        b,
        v,
        s,
        e,
        (
          λ t. found_cycle dec w g v s (rw (← t) e),
          λ c. elim (Bool-cases b) [
            | inl t ↦ t
            | inr n ↦ absurd (found_none w g v s (rw (← n) e) c)
          ],
        ),
      )
