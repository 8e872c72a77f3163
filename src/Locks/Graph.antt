-- ===== src/Locks/Graph.antt =====
-- `LockGraph` of shadowfs-macos, fskit/file_locking.rs. A `HashSet` is the list of what was inserted.
pub mod Ends
pub mod Cycles
pub mod Misses
use shadowfs.Base.{
  ℕ, zero, suc, ◌+◌, List, [], ◌∷◌, none, some, Bool, true, false, not, ◌==◌, if◌then◌else◌, ite,
  unwrap_or, length, filter, lookup, put, without, ℕ_discrete,
}

-- `HashSet::contains`, `HashSet::insert` and `HashSet::remove` on handles.
unfoldable pub member : ℕ → List ℕ → Bool
member x [] = false
member x (y ∷ l) = let rest = member x l in if x == y then true else rest

unfoldable pub add_member : ℕ → List ℕ → List ℕ
add_member x l = if member x l then l else x ∷ l

unfoldable pub remove_member : ℕ → List ℕ → List ℕ
remove_member x l = filter (λ y. not (x == y)) l

-- `unfinished` is no answer of the code: the fuel of the search ran out.
pub data Search : Type 0 where
  searched : Bool → List ℕ → List ℕ → Search
  unfinished : Search

-- The search over some dependencies, where `detect` searches from a node that was not visited.
unfoldable pub visit_all : (ℕ → List ℕ → List ℕ → Search) → List ℕ → List ℕ → List ℕ → Search
visit_all detect [] visited stack = searched false visited stack
visit_all detect (dep ∷ deps) visited stack =
    if member dep visited
    then (if member dep stack
        then searched true visited stack
        else visit_all detect deps visited stack)
    else elim (detect dep visited stack) [
      | unfinished ↦ unfinished
      | searched true visited' stack' ↦ searched true visited' stack'
      | searched false visited' stack' ↦ visit_all detect deps visited' stack'
    ]

-- Off the stack once all dependencies of the node were searched without a cycle.
unfoldable pub leave : ℕ → Search → Search
leave node (searched false visited stack) = searched false visited (remove_member node stack)
leave node r = r

-- The nested calls are as deep as there are nodes with dependencies, and one more.
unfoldable pub detect_cycle : List (ℕ × List ℕ) → ℕ → ℕ → List ℕ → List ℕ → Search
detect_cycle dependencies zero node visited stack = unfinished
detect_cycle dependencies (suc fuel) node visited stack = leave node (
    visit_all (detect_cycle dependencies fuel) (unwrap_or (lookup ℕ_discrete node dependencies) [])
      (add_member node visited) (add_member node stack))

pub record LockGraph (P : Type 0) : Type 0 where
  pub ownership : List (ℕ × List P)
  pub waiting : List (ℕ × P)
  pub dependencies : List (ℕ × List ℕ)

unfoldable pub add_dependencies : ℕ → List ℕ → List (ℕ × List ℕ) → List (ℕ × List ℕ)
add_dependencies waiter [] d = d
add_dependencies waiter (owner ∷ l) d =
    add_dependencies waiter l
      (put ℕ_discrete waiter (add_member owner (unwrap_or (lookup ℕ_discrete waiter d) [])) d)

module _ {P : Type 0} (dec : Discrete P) where
  abbrev pub new : LockGraph P
  new = record { ownership = []; waiting = []; dependencies = [] }

  unfoldable pub holds_path : P → List P → Bool
  holds_path p [] = false
  holds_path p (q ∷ l) = let rest = holds_path p l in ite (dec p q) true rest

  unfoldable pub add_ownership : ℕ → P → LockGraph P → LockGraph P
  add_ownership owner path g =
      let paths = unwrap_or (lookup ℕ_discrete owner g.ownership) [] in
      record g {
        ownership =
            put ℕ_discrete owner (if holds_path path paths then paths else path ∷ paths)
              g.ownership;
      }

  unfoldable pub drop_path : P → List P → List P
  drop_path p [] = []
  drop_path p (q ∷ l) = let rest = drop_path p l in ite (dec p q) rest (q ∷ rest)

  unfoldable pub store_paths : ℕ → List P → LockGraph P → LockGraph P
  store_paths owner [] g = record g { ownership = without ℕ_discrete owner g.ownership }
  store_paths owner (p ∷ l) g = record g { ownership = put ℕ_discrete owner (p ∷ l) g.ownership }

  unfoldable pub remove_ownership : ℕ → P → LockGraph P → LockGraph P
  remove_ownership owner path g = elim (lookup ℕ_discrete owner g.ownership) [
    | none ↦ g
    | some paths ↦ store_paths owner (drop_path path paths) g
  ]

  unfoldable pub add_wait : ℕ → P → List ℕ → LockGraph P → LockGraph P
  add_wait waiter path current_owners g = record g {
    waiting = put ℕ_discrete waiter path g.waiting;
    dependencies = add_dependencies waiter current_owners g.dependencies;
  }

  unfoldable pub remove_wait : ℕ → LockGraph P → LockGraph P
  remove_wait waiter g = record g {
    waiting = without ℕ_discrete waiter g.waiting;
    dependencies = without ℕ_discrete waiter g.dependencies;
  }

  unfoldable pub has_deadlock : ℕ → LockGraph P → Search
  has_deadlock new_waiter g =
      detect_cycle g.dependencies (length g.dependencies + 2) new_waiter [] []
