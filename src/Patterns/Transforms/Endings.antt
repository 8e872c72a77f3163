-- ===== src/Patterns/Transforms/Endings.antt =====
-- The ends of lines in override_store/patterns.rs, and chains of transformations.
use shadowfs.Base.{
  zero, ◌≡◌, refl, ap, ◌∙◌, [], ◌∷◌, ◌++◌, false, ◌==◌, All, arith, inl, inr, Option-cases,
}
use shadowfs.Crates.Codec.{Bytes}
use shadowfs.Path.Chars.{Text, starts_with}
use shadowfs.Patterns.Transforms.{
  Strings, Transformed-cases, ok, err, TransformChain, apply, replace_from, replace, cr, lf,
  to_unix, to_windows, on_text, unix_line_endings, windows_line_endings,
}

-- No carriage return.
abbrev pub Plain : Text → Type 0
Plain t = All (λ c. (c == cr) ≡ false) t

-- Each carriage return becomes a line feed.
abbrev fed : Text → Text
fed t = replace_from (cr ∷ []) (lf ∷ []) zero t

fed-Plain : (t : Text) → Plain (fed t)
unfolding replace_from starts_with
fed-Plain [] = tt
fed-Plain (c ∷ t) = ground (arith, fed-Plain t)

fed_same : (t : Text) → Plain t → fed t ≡ t
unfolding replace_from starts_with
fed_same [] h = refl
fed_same (c ∷ t) h = ground (arith, fed_same t, h)

abbrev joined : Text → Text
joined t = replace_from (cr ∷ lf ∷ []) (lf ∷ []) zero t

joined_same : (t : Text) → Plain t → joined t ≡ t
unfolding replace_from starts_with
joined_same [] h = refl
joined_same (c ∷ t) h = ground (arith, joined_same t, h)

abbrev parted : Text → Text
parted t = replace_from (lf ∷ []) (cr ∷ lf ∷ []) zero t

joined-parted : (t : Text) → Plain t → joined (parted t) ≡ t
unfolding replace_from starts_with
joined-parted [] h = refl
joined-parted (c ∷ t) h = ground (arith, joined-parted t, h)

-- After the conversion to line feeds no carriage return is left.
pub to_unix-Plain : (t : Text) → Plain (to_unix t)
unfolding to_unix replace
to_unix-Plain t = fed-Plain (joined t)

pub to_unix_again : (t : Text) → to_unix (to_unix t) ≡ to_unix t
unfolding to_unix replace
to_unix_again t =
    let plain = fed-Plain (joined t) in
    ap fed (joined_same (fed (joined t)) plain) ∙ fed_same (fed (joined t)) plain

pub to_unix-to_windows : (t : Text) → to_unix (to_windows t) ≡ to_unix t
unfolding to_unix to_windows replace
to_unix-to_windows t =
    let plain = fed-Plain (joined t) in
    ap fed (joined-parted (fed (joined t)) plain) ∙ fed_same (fed (joined t)) plain

-- A chain that is put together is one chain after the other.
pub apply-append :
    (a b : TransformChain) (x : Bytes)
    → apply (a ++ b) x ≡ elim (apply a x) [ err e ↦ err e | ok y ↦ apply b y ]
unfolding apply
apply-append [] b x = refl
apply-append (f ∷ a) b x = elim (Transformed-cases (f x)) [
  | inl (y, m) ↦ ground (arith, apply-append a b y, m)
  | inr (e, m) ↦ ground (arith, m)
]

module _ (strings : Strings) where
  -- For any bytes: the conversion of line ends to those of Unix does the same after the conversion
  -- to those of Windows, and after itself, as alone; errors included.
  pub unix-windows_endings :
      (x : Bytes)
      → (apply (windows_line_endings strings ∷ unix_line_endings strings ∷ []) x
          ≡ apply (unix_line_endings strings ∷ []) x)
        × (apply (unix_line_endings strings ∷ unix_line_endings strings ∷ []) x
            ≡ apply (unix_line_endings strings ∷ []) x)
  unfolding apply on_text
  unix-windows_endings x = elim (Option-cases (strings.from_utf8 x)) [
    | inl a ↦ (ground (arith, a), ground (arith, a))
    | inr (t, m) ↦
        let w = strings.from_utf8-into_bytes (to_windows t) in
        let u = strings.from_utf8-into_bytes (to_unix t) in
        (ground (arith, m, w, to_unix-to_windows t), ground (arith, m, u, to_unix_again t))
  ]
