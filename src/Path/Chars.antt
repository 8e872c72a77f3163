-- ===== src/Path/Chars.antt =====
-- Texts as lists of characters: UTF-8 lengths, `str::starts_with`, `ends_with`, splitting at '/'.
use shadowfs.Base.{
  ℕ, ◌+◌, suc, List, [], ◌∷◌, Option, none, some, Bool, true, false, if◌then◌else◌, ◌==◌, ltb, ◌&&◌,
}
use Prim.Native.Char.{code}
use Prim.Native.String.{String}

abbrev pub Text : Type 0
Text = List ℕ

abbrev pub text : String → Text
text String.[] = []
text (String.◌∷◌ c s) = code c ∷ text s

abbrev pub slash : ℕ
slash = b'/'

abbrev pub dot : ℕ
dot = b'.'

-- The bytes that `char::len_utf8` counts.
abbrev pub len_utf8 : ℕ → ℕ
len_utf8 c = if ltb c 0x80 then 1 else if ltb c 0x800 then 2 else if ltb c 0x10000 then 3 else 4

-- `str::len`.
unfoldable pub str_len : Text → ℕ
str_len [] = 0
str_len (c ∷ s) = len_utf8 c + str_len s

-- `str::starts_with`, the text first.
unfoldable pub starts_with : Text → Text → Bool
starts_with s [] = true
starts_with [] (c ∷ p) = false
starts_with (d ∷ s) (c ∷ p) = d == c && starts_with s p

-- `s.chars().nth(n)`.
unfoldable pub nth : Text → ℕ → Option ℕ
nth [] n = none
nth (c ∷ s) ℕ.zero = some c
nth (c ∷ s) (suc n) = nth s n

module _ {ℓ} {A : Type ℓ} where
  -- `Vec::pop`, without the element; the last element.
  unfoldable pub drop_last : List A → List A
  drop_last [] = []
  drop_last (x ∷ []) = []
  drop_last (x ∷ y ∷ l) = x ∷ drop_last (y ∷ l)

  unfoldable pub get_last? : List A → Option A
  get_last? [] = none
  get_last? (x ∷ []) = some x
  get_last? (x ∷ y ∷ l) = get_last? (y ∷ l)

-- `s.ends_with('/')`.
unfoldable pub ends_with_slash : Text → Bool
unfolding get_last?
ends_with_slash s = elim (get_last? s) [ none ↦ false | some c ↦ c == slash ]

abbrev cons_first : ℕ → List Text → List Text
cons_first c [] = (c ∷ []) ∷ []
cons_first c (w ∷ l) = (c ∷ w) ∷ l

-- The pieces between slashes; always at least one.
unfoldable pub split_slash : Text → List Text
split_slash [] = [] ∷ []
split_slash (c ∷ s) = let l = split_slash s in if c == slash then [] ∷ l else cons_first c l

-- What stands before and after the last dot, if there is one.
unfoldable pub split_at_last_dot : Text → Option (Text × Text)
split_at_last_dot [] = none
split_at_last_dot (c ∷ s) = elim (split_at_last_dot s) [
  | some (a, b) ↦ some (c ∷ a, b)
  | none ↦ if c == dot then some ([], s) else none
]

-- `Path::file_stem` and `Path::extension` of a file name: a dot in front starts no extension.
unfoldable pub file_stem_of : Text → Text
unfolding split_at_last_dot
file_stem_of name = elim (split_at_last_dot name) [
  | none ↦ name
  | some ([], b) ↦ name
  | some (c ∷ a, b) ↦ c ∷ a
]

unfoldable pub extension_of : Text → Option Text
unfolding split_at_last_dot
extension_of name = elim (split_at_last_dot name) [
  | none ↦ none
  | some ([], b) ↦ none
  | some (c ∷ a, b) ↦ some b
]
