-- ===== src/Patterns/Rules.antt =====
-- `RuleSet` of override_store/patterns.rs. The `BTreeMap` is the list of its entries from the highest
-- key down, as the code goes through it.
pub mod Order
use shadowfs.Base.{
  ℕ, ◌+◌, List, [], ◌∷◌, ◌++◌, Option, none, some, Bool, true, false, ◌&&◌, ◌==◌, ltb,
  if◌then◌else◌, length, ite, ℕ_discrete, without, lookup,
}
use shadowfs.Metadata.{FileMetadata}
use shadowfs.Path.{ShadowPath}
use shadowfs.Patterns.{Regexes, matches, Surroundings, is_active, OverrideRuleEntry}

module _ (regexes : Regexes) (C : Type 0) where
  abbrev pub Entry : Type 0
  Entry = OverrideRuleEntry regexes C

  abbrev pub RuleSet : Type 0
  RuleSet = List (ℕ × List Entry)

  abbrev pub new : RuleSet
  new = []

  unfoldable pub add_rule : Entry → RuleSet → RuleSet
  add_rule r [] = (r.priority, r ∷ []) ∷ []
  add_rule r ((q, l) ∷ rest) =
      let below = add_rule r rest in
      if r.priority == q
      then (q, l ++ r ∷ []) ∷ rest
      else if ltb q r.priority
      then (r.priority, r ∷ []) ∷ (q, l) ∷ rest
      else (q, l) ∷ below

  unfoldable pub rule_count : RuleSet → ℕ
  rule_count [] = 0
  rule_count ((q, l) ∷ rest) = length l + rule_count rest

  unfoldable pub remove_priority : ℕ → RuleSet → RuleSet × Option (List Entry)
  remove_priority p s = (without ℕ_discrete p s, lookup ℕ_discrete p s)

  module _ (at : Surroundings) (path : ShadowPath) (metadata : Option FileMetadata) where
    abbrev pub applies : Entry → Bool
    applies r = matches regexes r.rule path && is_active at metadata r.condition

    unfoldable pub first_of : List Entry → Option Entry
    first_of [] = none
    first_of (r ∷ l) = let later = first_of l in if applies r then some r else later

    unfoldable pub find_match : RuleSet → Option Entry
    find_match [] = none
    find_match ((q, l) ∷ rest) =
        let later = find_match rest in elim (first_of l) [ none ↦ later | some r ↦ some r ]

    unfoldable pub collect : List Entry → List Entry
    collect [] = []
    collect (r ∷ l) = let later = collect l in if applies r then r ∷ later else later

    unfoldable pub find_all_matches : RuleSet → List Entry
    find_all_matches [] = []
    find_all_matches ((q, l) ∷ rest) = collect l ++ find_all_matches rest
