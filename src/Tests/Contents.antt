-- ===== src/Tests/Contents.antt =====
-- Content of overrides at concrete bytes.
use shadowfs.Base.{◌≡◌, refl, [], ◌∷◌, some, none}
use shadowfs.Crates.Codec.{Bytes}
use shadowfs.Patterns.Content.{
  CowContent, transformed, ContentLoader, Cells, ok, err, load_error, get_content, to_owned,
}
use shadowfs.Patterns.Content.Shared.{get_content-to_owned}
use shadowfs.Patterns.Transforms.{Strings, apply, windows_line_endings, unix_line_endings}
use shadowfs.Patterns.Transforms.Endings.{unix-windows_endings}
use shadowfs.Tests.{docs}

-- Every byte is a character.
abbrev ascii : Strings
ascii = record {
  from_utf8 = λ b. some b;
  into_bytes = λ t. t;
  to_uppercase = λ t. t;
  to_lowercase = λ t. t;
  trim_end = λ t. t;
  from_utf8-into_bytes = λ t. refl;
}

-- One line for each system, and one for the old one.
abbrev mixed : Bytes
mixed = 97 ∷ 13 ∷ 10 ∷ 98 ∷ 10 ∷ 99 ∷ 13 ∷ []

unix-windows_endings_example :
    (apply (windows_line_endings ascii ∷ unix_line_endings ascii ∷ []) mixed
      ≡ apply (unix_line_endings ascii ∷ []) mixed)
    × (apply (unix_line_endings ascii ∷ unix_line_endings ascii ∷ []) mixed
        ≡ apply (unix_line_endings ascii ∷ []) mixed)
unix-windows_endings_example = unix-windows_endings ascii mixed

abbrev first_answer : ContentLoader
first_answer p = ok mixed

abbrev later_answer : ContentLoader
later_answer p = err (load_error [])

abbrev fresh_cell : Cells
fresh_cell = none ∷ []

abbrev lazy : CowContent
lazy = transformed docs (unix_line_endings ascii ∷ []) 0

get_content-to_owned_example :
    get_content later_answer (to_owned first_answer lazy fresh_cell).1.0 fresh_cell
    ≡ elim (get_content first_answer lazy fresh_cell).0 [
      | ok b ↦ (ok b, fresh_cell)
      | err e ↦ get_content later_answer lazy fresh_cell
    ]
get_content-to_owned_example =
    get_content-to_owned first_answer later_answer lazy fresh_cell fresh_cell
