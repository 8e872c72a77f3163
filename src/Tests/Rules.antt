-- ===== src/Tests/Rules.antt =====
-- Rules at concrete paths.
use shadowfs.Base.{ℕ, ◌≡◌, ◌↔◌, [], ◌∷◌, none, false, true}
use shadowfs.Path.Chars.{text}
use shadowfs.Patterns.{Regexes, Surroundings, glob, suffix, always}
use shadowfs.Patterns.Glob.{glob_match, Matches, glob_match-Matches}
use shadowfs.Patterns.Rules.{Entry, new, add_rule, find_match, find_all_matches}
use shadowfs.Patterns.Rules.Order.{
  add_rules, with_rule, all_found, head, find_all_matches-add_rules,
}
use shadowfs.Tests.{docs}

glob_match-Matches_example :
    (glob_match (text "*.txt") (text "file.txt") ≡ true) ↔ Matches (text "*.txt") (text "file.txt")
glob_match-Matches_example = glob_match-Matches (text "*.txt") (text "file.txt")

abbrev no_regex : Regexes
no_regex = record { Regex = Unit; is_match = λ r t. false }

abbrev low : Entry no_regex ℕ
low = record { rule = suffix (text "cs"); priority = 100; condition = always; content = 1 }

abbrev high : Entry no_regex ℕ
high = record { rule = glob (text "/d*"); priority = 1000; condition = always; content = 2 }

abbrev around : Surroundings
around = record { now = 0; var = λ name. none }

find_all_matches-add_rules_example :
    (find_all_matches no_regex ℕ around docs none
        (add_rule no_regex ℕ high (add_rules no_regex ℕ (low ∷ []) (new no_regex ℕ)))
      ≡ with_rule no_regex ℕ around docs none high (
          all_found no_regex ℕ around docs none (add_rules no_regex ℕ (low ∷ []) (new no_regex ℕ))))
    × (find_match no_regex ℕ around docs none (add_rules no_regex ℕ (low ∷ []) (new no_regex ℕ))
        ≡ head no_regex ℕ (
            all_found no_regex ℕ around docs none
              (add_rules no_regex ℕ (low ∷ []) (new no_regex ℕ))))
find_all_matches-add_rules_example =
    find_all_matches-add_rules no_regex ℕ around docs none (low ∷ []) high
