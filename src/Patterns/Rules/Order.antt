-- ===== src/Patterns/Rules/Order.antt =====
-- The order in which `RuleSet` of override_store/patterns.rs tries its rules.
use shadowfs.Base.{
  ℕ, ◌≤◌, ◌<◌, ◌≡◌, refl, sym, ap, ◌∙◌, List, [], ◌∷◌, ◌++◌, Option, none, some, All, All-append,
  arith, leb, ltb, ◌==◌, if◌then◌else◌, Bool-cases, inl, inr,
}
use mathlib.Core.List.{append_assoc}
use shadowfs.Metadata.{FileMetadata}
use shadowfs.Path.{ShadowPath}
use shadowfs.Patterns.{Regexes, Surroundings}
use shadowfs.Patterns.Rules.{
  Entry, RuleSet, new, add_rule, applies, first_of, find_match, collect, find_all_matches,
}

module _ (regexes : Regexes) (C : Type 0) where
  -- Behind the rules of the same priority or a higher one.
  unfoldable pub insert_last : Entry regexes C → List (Entry regexes C) → List (Entry regexes C)
  insert_last r [] = r ∷ []
  insert_last r (e ∷ l) =
      let rest = insert_last r l in if leb r.priority e.priority then e ∷ rest else r ∷ e ∷ l

  insert_last-append :
      (r : Entry regexes C) (l m : List (Entry regexes C))
      → All (λ e. r.priority ≤ e.priority) l
      → insert_last r (l ++ m) ≡ l ++ insert_last r m
  unfolding insert_last
  insert_last-append r [] m h = refl
  insert_last-append r (e ∷ l) m h = ground (arith, insert_last-append r l m)

  insert_last_front :
      (r : Entry regexes C) (m : List (Entry regexes C))
      → All (λ e. e.priority < r.priority) m
      → insert_last r m ≡ r ∷ m
  unfolding insert_last
  insert_last_front r [] h = refl
  insert_last_front r (e ∷ m) h = ground arith

  abbrev pub head : List (Entry regexes C) → Option (Entry regexes C)
  head [] = none
  head (e ∷ l) = some e

  abbrev pub entries : RuleSet regexes C → List (Entry regexes C)
  entries [] = []
  entries ((q, l) ∷ rest) = l ++ entries rest

  -- The keys fall, and each rule stands under its priority.
  abbrev pub IsOrdered : RuleSet regexes C → Type 0
  IsOrdered [] = Unit
  IsOrdered ((q, l) ∷ rest) =
      All (λ e. e.priority ≡ q) l × All (λ e. e.priority < q) (entries rest) × IsOrdered rest

  All-upto :
      (p q : ℕ) (l : List (Entry regexes C))
      → q ≤ p
      → All (λ e. e.priority < q) l
      → All (λ e. e.priority < p) l
  All-upto p q [] h k = tt
  All-upto p q (e ∷ l) h k = (omega arith, All-upto p q l h k.1)

  All-at :
      (p q : ℕ) (l : List (Entry regexes C))
      → q < p
      → All (λ e. e.priority ≡ q) l
      → All (λ e. e.priority < p) l
  All-at p q [] h k = tt
  All-at p q (e ∷ l) h k = (omega arith, All-at p q l h k.1)

  All-least :
      (p q : ℕ) (l : List (Entry regexes C))
      → p ≤ q
      → All (λ e. e.priority ≡ q) l
      → All (λ e. p ≤ e.priority) l
  All-least p q [] h k = tt
  All-least p q (e ∷ l) h k = (omega arith, All-least p q l h k.1)

  All-split :
      (Q : Entry regexes C → Type 0) (l m : List (Entry regexes C))
      → All Q (l ++ m)
      → All Q l × All Q m
  All-split Q [] m h = (tt, h)
  All-split Q (e ∷ l) m h = let (a, b) = All-split Q l m h.1 in ((h.0, a), b)

  -- Whatever bound the rules keep, they keep it with the new one.
  All-add_rule :
      (Q : Entry regexes C → Type 0) (r : Entry regexes C) (s : RuleSet regexes C)
      → Q r
      → All Q (entries s)
      → All Q (entries (add_rule regexes C r s))
  unfolding add_rule
  All-add_rule Q r [] h k = (h, tt)
  All-add_rule Q r ((q, l) ∷ rest) h k =
      let (a, b) = All-split Q l (entries rest) k in
      elim (Bool-cases (r.priority == q)) [
        | inl e ↦
            rw e (All-append Q (l ++ r ∷ []) (entries rest) (All-append Q l (r ∷ []) a (h, tt)) b)
        | inr e ↦ elim (Bool-cases (ltb q r.priority)) [
          | inl f ↦ rw (e, f) (h, k)
          | inr f ↦
              rw (e, f)
                (All-append Q l (entries (add_rule regexes C r rest)) a (All-add_rule Q r rest h b))
        ]
      ]

  add_rule-IsOrdered :
      (r : Entry regexes C) (s : RuleSet regexes C)
      → IsOrdered s
      → IsOrdered (add_rule regexes C r s)
  unfolding add_rule
  add_rule-IsOrdered r [] h = ((refl, tt), tt, tt)
  add_rule-IsOrdered r ((q, l) ∷ rest) h = elim (Bool-cases (r.priority == q)) [
    | inl e ↦ rw e (All-append (λ x. x.priority ≡ q) l (r ∷ []) h.0 (ground arith, tt), h.1, h.2)
    | inr e ↦ elim (Bool-cases (ltb q r.priority)) [
      | inl f ↦
          rw (e, f)
            (
              (refl, tt),
              All-append (λ x. x.priority < r.priority) l (entries rest)
                  (All-at r.priority q l (ground arith) h.0)
                  (All-upto r.priority q (entries rest) (ground arith) h.1),
              h,
            )
      | inr f ↦
          rw (e, f)
            (
              h.0,
              All-add_rule (λ x. x.priority < q) r rest (ground arith) h.1,
              add_rule-IsOrdered r rest h.2,
            )
    ]
  ]

  -- Rules that are added one after the other.
  unfoldable pub add_rules : List (Entry regexes C) → RuleSet regexes C → RuleSet regexes C
  add_rules [] s = s
  add_rules (r ∷ l) s = add_rules l (add_rule regexes C r s)

  add_rules-IsOrdered :
      (l : List (Entry regexes C)) (s : RuleSet regexes C) → IsOrdered s → IsOrdered (add_rules l s)
  unfolding add_rules
  add_rules-IsOrdered [] s h = h
  add_rules-IsOrdered (r ∷ l) s h =
      add_rules-IsOrdered l (add_rule regexes C r s) (add_rule-IsOrdered r s h)

  module _ (at : Surroundings) (path : ShadowPath) (metadata : Option FileMetadata) where
    abbrev pub found : List (Entry regexes C) → List (Entry regexes C)
    found l = collect regexes C at path metadata l

    abbrev pub all_found : RuleSet regexes C → List (Entry regexes C)
    all_found s = find_all_matches regexes C at path metadata s

    collect-append : (l m : List (Entry regexes C)) → found (l ++ m) ≡ found l ++ found m
    unfolding collect
    collect-append [] m = refl
    collect-append (r ∷ l) m = ground (arith, collect-append l m)

    All-collect :
        (Q : Entry regexes C → Type 0) (l : List (Entry regexes C)) → All Q l → All Q (found l)
    unfolding collect
    All-collect Q [] h = tt
    All-collect Q (r ∷ l) h = ground (arith, All-collect Q l)

    All-matches_of :
        (Q : Entry regexes C → Type 0) (s : RuleSet regexes C)
        → All Q (entries s)
        → All Q (all_found s)
    unfolding find_all_matches
    All-matches_of Q [] h = tt
    All-matches_of Q ((q, l) ∷ rest) h =
        let (a, b) = All-split Q l (entries rest) h in
        All-append Q (found l) (all_found rest) (All-collect Q l a) (All-matches_of Q rest b)

    abbrev pub with_rule : Entry regexes C → List (Entry regexes C) → List (Entry regexes C)
    with_rule r l = if applies regexes C at path metadata r then insert_last r l else l

    head_collect :
        (l m : List (Entry regexes C))
        → head (found l ++ m)
          ≡ elim (first_of regexes C at path metadata l) [ none ↦ head m | some r ↦ some r ]
    unfolding collect first_of
    head_collect [] m = refl
    head_collect (r ∷ l) m = ground (arith, head_collect l m)

    with_rule-append :
        (r : Entry regexes C) (l m : List (Entry regexes C))
        → All (λ e. r.priority ≤ e.priority) l
        → with_rule r (l ++ m) ≡ l ++ with_rule r m
    with_rule-append r l m h = elim (Bool-cases (applies regexes C at path metadata r)) [
      | inl e ↦ rw e (insert_last-append r l m h)
      | inr e ↦ rw e refl
    ]

    with_rule_front :
        (r : Entry regexes C) (m : List (Entry regexes C))
        → All (λ e. e.priority < r.priority) m
        → with_rule r m ≡ found (r ∷ []) ++ m
    unfolding collect
    with_rule_front r m h = elim (Bool-cases (applies regexes C at path metadata r)) [
      | inl e ↦ rw e (insert_last_front r m h)
      | inr e ↦ rw e refl
    ]

    find_all_matches-add_rule :
        (r : Entry regexes C) (s : RuleSet regexes C)
        → IsOrdered s
        → all_found (add_rule regexes C r s) ≡ with_rule r (all_found s)
    unfolding add_rule find_all_matches
    find_all_matches-add_rule r [] h = sym (with_rule_front r [] tt)
    find_all_matches-add_rule r ((q, l) ∷ rest) h =
        let a = All-collect (λ x. x.priority ≡ q) l h.0 in
        let b = All-matches_of (λ x. x.priority < q) rest h.1 in
        elim (Bool-cases (r.priority == q)) [
          | inl e ↦ rw e (
              ap (λ t. t ++ all_found rest) (collect-append l (r ∷ []))
              ∙ append_assoc (found l) (found (r ∷ [])) (all_found rest)
              ∙ ap (λ t. found l ++ t)
                  (sym (
                    with_rule_front r (all_found rest)
                      (All-upto r.priority q (all_found rest) (ground arith) b)))
              ∙ sym (
                  with_rule-append r (found l) (all_found rest)
                    (All-least r.priority q (found l) (ground arith) a)))
          | inr e ↦ elim (Bool-cases (ltb q r.priority)) [
            | inl f ↦
                rw (e, f)
                  (sym (
                    with_rule_front r (found l ++ all_found rest) (
                      All-append (λ x. x.priority < r.priority) (found l) (all_found rest)
                        (All-at r.priority q (found l) (ground arith) a)
                        (All-upto r.priority q (all_found rest) (ground arith) b))))
            | inr f ↦
                rw (e, f)
                  (ap (λ t. found l ++ t) (find_all_matches-add_rule r rest h.2)
                    ∙ sym (
                        with_rule-append r (found l) (all_found rest)
                          (All-least r.priority q (found l) (ground arith) a)))
          ]
        ]

    find_match_first :
        (s : RuleSet regexes C) → find_match regexes C at path metadata s ≡ head (all_found s)
    unfolding find_match find_all_matches
    find_match_first [] = refl
    find_match_first ((q, l) ∷ rest) =
        ground (arith, head_collect l (all_found rest), find_match_first rest)

    -- For any rules added to an empty set, and a further one: `find_all_matches` finds what it
    -- found before with the further rule, where it applies, behind those of its priority or a
    -- higher one and before the others; and `find_match` is the first rule of `find_all_matches`.
    pub find_all_matches-add_rules :
        (l : List (Entry regexes C)) (r : Entry regexes C)
        → let s = add_rules l (new regexes C) in
          (find_all_matches regexes C at path metadata (add_rule regexes C r s)
            ≡ with_rule r (all_found s))
          × (find_match regexes C at path metadata s ≡ head (all_found s))
    find_all_matches-add_rules l r =
        let s = add_rules l (new regexes C) in
        (
          find_all_matches-add_rule r s (add_rules-IsOrdered l (new regexes C) tt),
          find_match_first s,
        )
