-- ===== src/Patterns/Glob.antt =====
-- `glob_match` of override_store/patterns.rs. The two indices into the pattern and the text are the
-- rests of the two lists.
use shadowfs.Base.{
  ℕ, ◌≡◌, ◌≢◌, ◌↔◌, refl, sym, ap, ◌∙◌, [], ◌∷◌, ◌++◌, Bool, true, false, ◌||◌, ◌==◌, if◌then◌else◌,
  arith, inl, inr, Bool-cases,
}
use shadowfs.Path.Chars.{Text}

-- '*' and '?'.
abbrev pub star : ℕ
star = 42

abbrev pub question : ℕ
question = 63

unfoldable pub all_stars : Text → Bool
all_stars [] = true
all_stars (c ∷ p) = let rest = all_stars p in if c == star then rest else false

unfoldable pub glob_match : Text → Text → Bool
glob_match [] [] = true
glob_match [] (x ∷ t) = false
glob_match (c ∷ p) [] = all_stars (c ∷ p)
glob_match (c ∷ p) (x ∷ t) =
    let none_more = glob_match p (x ∷ t) in
    let one_more = glob_match (c ∷ p) t in
    let rest = glob_match p t in
    if c == star
    then none_more || one_more
    else if c == question
    then rest
    else if x == c
    then rest
    else false

-- What a pattern stands for: `*` for any text, `?` for any character, and others for themselves.
pub data Matches : Text → Text → Type 0 where
  matches_end : Matches [] []
  matches_star : (p t q s r : Text) → p ≡ star ∷ q → t ≡ s ++ r → Matches q r → Matches p t
  matches_one : (p t q r : Text) (x : ℕ) → p ≡ question ∷ q → t ≡ x ∷ r → Matches q r → Matches p t
  matches_char :
      (p t q r : Text) (c : ℕ)
      → c ≢ star
      → c ≢ question
      → p ≡ c ∷ q
      → t ≡ c ∷ r
      → Matches q r
      → Matches p t

head_same : (a b : ℕ) (p q : Text) → a ∷ p ≡ b ∷ q → a ≡ b
head_same a b p q e = cc

-- A star takes one character more.
star_more : (p t q : Text) (x : ℕ) → p ≡ star ∷ q → Matches p t → Matches p (x ∷ t)
star_more p t q x e matches_end = absurd (ground arith)
star_more p t q x e (matches_star _ _ q' s r f g h) =
    matches_star p (x ∷ t) q' (x ∷ s) r f (ap (λ (l : Text). x ∷ l) g) h
star_more p t q x e (matches_one _ _ q' r y f g h) =
    absurd (ground (arith, head_same question star q' q (sym f ∙ e)))
star_more p t q x e (matches_char _ _ q' r c m n f g h) =
    absurd (m (head_same c star q' q (sym f ∙ e)))

Matches-all_stars : (p : Text) → all_stars p ≡ true → Matches p []
unfolding all_stars
Matches-all_stars [] h = matches_end
Matches-all_stars (c ∷ p) h = elim (Bool-cases (c == star)) [
  | inl e ↦ matches_star (c ∷ p) [] p [] [] (ground arith) refl (Matches-all_stars p (ground arith))
  | inr e ↦ absurd (ground arith)
]

Matches-glob_match : (p t : Text) → glob_match p t ≡ true → Matches p t
unfolding glob_match
Matches-glob_match [] [] h = matches_end
Matches-glob_match [] (x ∷ t) h = absurd (ground arith)
Matches-glob_match (c ∷ p) [] h = Matches-all_stars (c ∷ p) h
Matches-glob_match (c ∷ p) (x ∷ t) h = elim (Bool-cases (c == star)) [
  | inl e ↦
      let is_star : c ∷ p ≡ star ∷ p = ground arith in
      elim (Bool-cases (glob_match p (x ∷ t))) [
        | inl f ↦
            matches_star (c ∷ p) (x ∷ t) p [] (x ∷ t) is_star refl (Matches-glob_match p (x ∷ t) f)
        | inr f ↦ star_more (c ∷ p) t p x is_star (Matches-glob_match (c ∷ p) t (ground arith))
      ]
  | inr e ↦ elim (Bool-cases (c == question)) [
    | inl f ↦
        matches_one (c ∷ p) (x ∷ t) p t x (ground arith) refl
          (Matches-glob_match p t (ground arith))
    | inr f ↦ elim (Bool-cases (x == c)) [
      | inl g ↦
          matches_char (c ∷ p) (x ∷ t) p t c (λ k. ground arith) (λ k. ground arith) refl
            (ground arith) (Matches-glob_match p t (ground arith))
      | inr g ↦ absurd (ground arith)
    ]
  ]
]

glob_match-nil : (p : Text) → glob_match p [] ≡ all_stars p
unfolding glob_match all_stars
glob_match-nil [] = refl
glob_match-nil (c ∷ p) = refl

-- A star takes nothing, or one character more.
glob_match-star : (p t : Text) → glob_match p t ≡ true → glob_match (star ∷ p) t ≡ true
unfolding glob_match all_stars
glob_match-star p [] h = sym (glob_match-nil p) ∙ h
glob_match-star p (x ∷ t) h = ground arith

glob_match_longer :
    (p s t : Text) → glob_match (star ∷ p) t ≡ true → glob_match (star ∷ p) (s ++ t) ≡ true
unfolding glob_match
glob_match_longer p [] t h = h
glob_match_longer p (x ∷ s) t h = let more = glob_match_longer p s t h in ground arith

glob_match_accepts : (p t : Text) → Matches p t → glob_match p t ≡ true
unfolding glob_match
glob_match_accepts p t matches_end = refl
glob_match_accepts p t (matches_star _ _ q s r f g h) =
    rw (f, g) (glob_match_longer q s r (glob_match-star q r (glob_match_accepts q r h)))
glob_match_accepts p t (matches_one _ _ q r x f g h) = rw (f, g) (glob_match_accepts q r h)
glob_match_accepts p t (matches_char _ _ q r c m n f g h) =
    let rest = glob_match_accepts q r h in rw (f, g) (ground arith)

-- `glob_match` accepts a text exactly where the pattern stands for it, with `*` for any text, `?`
-- for any character, and any other character for itself.
pub glob_match-Matches : (p t : Text) → (glob_match p t ≡ true) ↔ Matches p t
glob_match-Matches p t = (Matches-glob_match p t, glob_match_accepts p t)
