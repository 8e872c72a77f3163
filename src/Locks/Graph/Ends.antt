-- ===== src/Locks/Graph/Ends.antt =====
-- The search for cycles of `LockGraph` of shadowfs-macos, fskit/file_locking.rs, on any graph.
use shadowfs.Base.{
  ℕ, zero, suc, ◌+◌, ◌≤◌, ◌<◌, ◌≡◌, refl, List, [], ◌∷◌, none, some, Bool, true, false, arith,
  length, lookup, ℕ_discrete, Bool-cases, Option-cases, inl, inr, unwrap_or, if◌then◌else◌, ◌==◌,
}
use shadowfs.Locks.Graph.{
  Search, searched, visit_all, leave, detect_cycle, member, add_member, remove_member, LockGraph,
  has_deadlock,
}

-- How many nodes with dependencies were not visited.
unfoldable pub unvisited : List (ℕ × List ℕ) → List ℕ → ℕ
unvisited [] visited = 0
unvisited ((k, l) ∷ d) visited =
    let rest = unvisited d visited in if member k visited then rest else suc rest

unvisited-nil : (d : List (ℕ × List ℕ)) → unvisited d [] ≡ length d
unfolding unvisited member
unvisited-nil [] = refl
unvisited-nil ((k, l) ∷ d) = omega (arith, unvisited-nil d)

pub member-add_member :
    (y x : ℕ) (v : List ℕ) → member y (add_member x v) ≡ (if y == x then true else member y v)
unfolding add_member member
member-add_member y x v = ground arith

unvisited-add_member :
    (d : List (ℕ × List ℕ)) (x : ℕ) (v : List ℕ) → unvisited d (add_member x v) ≤ unvisited d v
unfolding unvisited
unvisited-add_member [] x v = omega arith
unvisited-add_member ((k, l) ∷ d) x v =
    ground (arith, unvisited-add_member d x v, member-add_member k x v)

-- A node with dependencies is visited once.
unvisited-lt :
    (d : List (ℕ × List ℕ)) (x : ℕ) (v : List ℕ) (l : List ℕ)
    → member x v ≡ false
    → lookup ℕ_discrete x d ≡ some l
    → unvisited d (add_member x v) < unvisited d v
unfolding unvisited lookup
unvisited-lt [] x v l h e = absurd (ground arith)
unvisited-lt ((k, m) ∷ d) x v l h e =
    ground (arith, unvisited-lt d x v l h, unvisited-add_member d x v, member-add_member k x v)

module _ (d : List (ℕ × List ℕ)) where
  -- The search ends, and no visit is forgotten.
  abbrev IsSearched : ℕ → Search → Type 0
  IsSearched m r =
      (b : Bool) × (v : List ℕ) × (s : List ℕ) × (r ≡ searched b v s) × (unvisited d v ≤ m)

  abbrev Searches : ℕ → (ℕ → List ℕ → List ℕ → Search) → Type 0
  Searches m detect =
      (x : ℕ) (v s : List ℕ)
      → unvisited d v ≤ m
      → member x v ≡ false
      → IsSearched (unvisited d v) (detect x v s)

  visit_all-IsSearched :
      (m : ℕ) (detect : ℕ → List ℕ → List ℕ → Search) (l v s : List ℕ)
      → Searches m detect
      → unvisited d v ≤ m
      → IsSearched (unvisited d v) (visit_all detect l v s)
  unfolding visit_all
  visit_all-IsSearched m detect [] v s f h = (false, v, s, refl, omega arith)
  visit_all-IsSearched m detect (x ∷ l) v s f h = elim (Bool-cases (member x v)) [
    | inl e ↦ elim (Bool-cases (member x s)) [
      | inl g ↦ (true, v, s, rw (e, g) refl, omega arith)
      | inr g ↦ rw (e, g) (visit_all-IsSearched m detect l v s f h)
    ]
    | inr e ↦
        let (b, v', s', g, k) = f x v s h e in
        elim (Bool-cases b) [
          | inl t ↦ (true, v', s', rw (e, visit_all, g, t) refl, k)
          | inr t ↦
              let (c, w, u, p, q) = visit_all-IsSearched m detect l v' s' f (omega (arith, k)) in
              (c, w, u, rw (e, visit_all, g, t) p, omega (arith, k, q))
        ]
  ]

  leave-IsSearched : (n node : ℕ) (r : Search) → IsSearched n r → IsSearched n (leave node r)
  unfolding leave
  leave-IsSearched n node r h =
      let (b, v, s, e, k) = h in
      elim (Bool-cases b) [
        | inl t ↦ (true, v, s, rw (e, t) refl, k)
        | inr t ↦ (false, v, remove_member node s, rw (e, t) refl, k)
      ]

  alone-IsSearched :
      (fuel x : ℕ) (v s : List ℕ)
      → lookup ℕ_discrete x d ≡ none
      → IsSearched (unvisited d v) (detect_cycle d (suc fuel) x v s)
  unfolding detect_cycle
  alone-IsSearched fuel x v s f = leave-IsSearched (unvisited d v) x _ (
      rw f (
        false,
        add_member x v,
        add_member x s,
        unfold visit_all in refl,
        unvisited-add_member d x v,
      ))

  detect_cycle-IsSearched : (fuel : ℕ) → Searches fuel (detect_cycle d (suc fuel))
  unfolding detect_cycle
  detect_cycle-IsSearched zero x v s h e = elim (Option-cases (lookup ℕ_discrete x d)) [
    | inl f ↦ alone-IsSearched zero x v s f
    | inr (l, f) ↦ absurd (omega (arith, unvisited-lt d x v l e f))
  ]
  detect_cycle-IsSearched (suc fuel) x v s h e = elim (Option-cases (lookup ℕ_discrete x d)) [
    | inl f ↦ alone-IsSearched (suc fuel) x v s f
    | inr (l, f) ↦
        let less = unvisited-lt d x v l e f in
        let (b, w, u, g, k) =
          visit_all-IsSearched fuel (detect_cycle d (suc fuel))
            (unwrap_or (lookup ℕ_discrete x d) []) (add_member x v) (add_member x s)
            (detect_cycle-IsSearched fuel) (omega (arith, less)) in
        leave-IsSearched (unvisited d v) x _ (b, w, u, g, omega (arith, less, k))
  ]

module _ {P : Type 0} (dec : Discrete P) where
  -- From any waiter.
  pub has_deadlock-searched :
      (w : ℕ) (g : LockGraph P)
      → (b : Bool) × (v : List ℕ) × (s : List ℕ) × (has_deadlock dec w g ≡ searched b v s)
  unfolding has_deadlock
  has_deadlock-searched w g =
      let more : length g.dependencies + 2 ≡ suc (length g.dependencies + 1) = omega arith in
      let (b, v, s, e, k) =
        detect_cycle-IsSearched g.dependencies (length g.dependencies + 1) w [] []
          (omega (arith, unvisited-nil g.dependencies)) (unfold member in refl) in
      (b, v, s, rw more e)
