-- ===== src/Patterns/Transforms.antt =====
-- `TransformChain` and the common transformations of override_store/patterns.rs. Content is a list of
-- bytes, and a text the list of its characters.
pub mod Endings
use shadowfs.Base.{
  ℕ, ◌≡◌, ◌⊎◌, inl, inr, refl, zero, suc, ◌-◌, List, [], ◌∷◌, ◌++◌, Option, none, some, Bool, true,
  false, ◌==◌, if◌then◌else◌, length, reverse, map,
}
use shadowfs.Crates.Codec.{Bytes}
use shadowfs.Path.Chars.{Text, starts_with}

-- `core::str` and `String`: which bytes are a text, the bytes of a text, the cases of letters, and a
-- line without the spaces at its end. What `String::into_bytes` makes is read back by `from_utf8`.
pub record Strings : Type 0 where
  pub from_utf8 : Bytes → Option Text
  pub into_bytes : Text → Bytes
  pub to_uppercase : Text → Text
  pub to_lowercase : Text → Text
  pub trim_end : Text → Text
  pub from_utf8-into_bytes : (t : Text) → from_utf8 (into_bytes t) ≡ some t

-- The transformation that fails says so itself, with a text.
pub data TransformError : Type 0 where
  encoding_error : TransformError
  transform_failed : Text → TransformError
  io_error : Text → TransformError

pub data Transformed : Type 0 where
  ok : Bytes → Transformed
  err : TransformError → Transformed

pub Transformed-cases :
    (r : Transformed) → ((b : Bytes) × (r ≡ ok b)) ⊎ ((e : TransformError) × (r ≡ err e))
Transformed-cases (ok b) = inl (b, refl)
Transformed-cases (err e) = inr (e, refl)

abbrev pub TransformFn : Type 0
TransformFn = Bytes → Transformed

abbrev pub TransformChain : Type 0
TransformChain = List TransformFn

abbrev pub new : TransformChain
new = []

abbrev pub add_transform : TransformFn → TransformChain → TransformChain
add_transform f chain = chain ++ f ∷ []

abbrev pub is_empty : TransformChain → Bool
is_empty [] = true
is_empty (f ∷ chain) = false

-- Once a transformation fails, none is called.
unfoldable pub apply : TransformChain → Bytes → Transformed
apply [] bytes = ok bytes
apply (f ∷ chain) bytes = elim (f bytes) [ err e ↦ err e | ok b ↦ apply chain b ]

-- `str::replace`: `skipped` characters of a pattern that was found are left out.
unfoldable pub replace_from : Text → Text → ℕ → Text → Text
unfolding starts_with
replace_from pattern by skipped [] = []
replace_from pattern by (suc n) (c ∷ t) = replace_from pattern by n t
replace_from pattern by zero (c ∷ t) =
    let after = replace_from pattern by (length pattern - 1) t in
    let rest = replace_from pattern by zero t in
    if starts_with (c ∷ t) pattern then by ++ after else c ∷ rest

-- The empty pattern is found before and behind each character.
unfoldable pub between : Text → Text → Text
between by [] = by
between by (c ∷ t) = by ++ c ∷ between by t

unfoldable pub replace : Text → Text → Text → Text
unfolding replace_from between
replace [] by t = between by t
replace (p ∷ pattern) by t = replace_from (p ∷ pattern) by zero t

abbrev pub cr : ℕ
cr = 13

abbrev pub lf : ℕ
lf = 10

unfoldable pub to_unix : Text → Text
unfolding replace
to_unix t = replace (cr ∷ []) (lf ∷ []) (replace (cr ∷ lf ∷ []) (lf ∷ []) t)

unfoldable pub to_windows : Text → Text
unfolding to_unix
to_windows t = replace (lf ∷ []) (cr ∷ lf ∷ []) (to_unix t)

-- `str::lines`: what ends with a line feed, without it and one carriage return before it; and what
-- is left, if it is not empty.
unfoldable pub drop_cr : Text → Text
drop_cr [] = []
drop_cr (c ∷ []) = if c == cr then [] else c ∷ []
drop_cr (c ∷ d ∷ t) = c ∷ drop_cr (d ∷ t)

unfoldable pub add_line : Text → List Text → List Text
add_line [] l = l
add_line (c ∷ t) l = (c ∷ t) ∷ l

unfoldable pub lines_from : Text → Text → List Text
unfolding drop_cr add_line
lines_from line [] = add_line (reverse line) []
lines_from line (c ∷ t) =
    let next = lines_from [] t in
    let same = lines_from (c ∷ line) t in if c == lf then drop_cr (reverse line) ∷ next else same

unfoldable pub join_lines : List Text → Text
join_lines [] = []
join_lines (l ∷ []) = l
join_lines (l ∷ m ∷ rest) = l ++ lf ∷ join_lines (m ∷ rest)

module _ (strings : Strings) where
  open strings use {from_utf8, into_bytes}

  -- What is no text is refused.
  unfoldable pub on_text : (Text → Text) → TransformFn
  on_text f bytes = elim (from_utf8 bytes) [
    | none ↦ err encoding_error
    | some t ↦ ok (into_bytes (f t))
  ]

  abbrev pub add_prefix : Text → TransformFn
  add_prefix prefix bytes = ok (into_bytes prefix ++ bytes)

  abbrev pub add_suffix : Text → TransformFn
  add_suffix suffix bytes = ok (bytes ++ into_bytes suffix)

  abbrev pub uppercase : TransformFn
  uppercase bytes = on_text strings.to_uppercase bytes

  abbrev pub lowercase : TransformFn
  lowercase bytes = on_text strings.to_lowercase bytes

  abbrev pub unix_line_endings : TransformFn
  unix_line_endings bytes = on_text to_unix bytes

  abbrev pub windows_line_endings : TransformFn
  windows_line_endings bytes = on_text to_windows bytes

  abbrev pub replace_text : Text → Text → TransformFn
  replace_text pattern replacement bytes = on_text (replace pattern replacement) bytes

  abbrev pub trim_lines : TransformFn
  trim_lines bytes = on_text (λ t. join_lines (map strings.trim_end (lines_from [] t))) bytes
