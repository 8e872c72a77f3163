-- ===== src/Patterns/Content/Shared.antt =====
-- What copy-on-write content of override_store/patterns.rs answers, once it was read or owned.
use shadowfs.Base.{
  ℕ, zero, suc, ◌<◌, ◌≡◌, refl, [], ◌∷◌, some, length, arith, Option-cases, inl, inr,
}
use shadowfs.Crates.Codec.{Bytes}
use shadowfs.Path.{ShadowPath}
use shadowfs.Patterns.Content.{
  CowContent, reference, owned, transformed, CowResult-cases, ok, err, ContentLoader, Cells,
  set_cell, cached, compute, get_content, own, to_owned,
}
use shadowfs.Patterns.Transforms.{TransformChain, Transformed-cases, apply}

cached-set_cell :
    (i : ℕ) (b : Bytes) (cells : Cells) → i < length cells → cached i (set_cell i b cells) ≡ some b
unfolding cached set_cell
cached-set_cell i b [] l = absurd (omega (arith, l))
cached-set_cell zero b (c ∷ cells) l = refl
cached-set_cell (suc i) b (c ∷ cells) l = ground (arith, cached-set_cell i b cells)

-- Where transformed content answers with bytes: it and every clone of it, even one with another
-- source or chain, answers with the same bytes from then on, whatever the loader finds.
pub get_content_again :
    (loader later : ContentLoader) (source other : ShadowPath) (chain d : TransformChain) (i : ℕ)
    (cells : Cells) (b : Bytes)
    → i < length cells
    → (get_content loader (transformed source chain i) cells).0 ≡ ok b
    → get_content later
        (transformed other d i)
        (get_content loader (transformed source chain i) cells).1
      ≡ (ok b, (get_content loader (transformed source chain i) cells).1)
unfolding get_content compute
get_content_again loader later source other chain d i cells b l h =
    elim (Option-cases (cached i cells)) [
      | inr (c, m) ↦ ground (arith, m, h)
      | inl a ↦ elim (CowResult-cases (loader source)) [
        | inr (e, f) ↦ absurd (ground (arith, a, f, h))
        | inl (o, f) ↦ elim (Transformed-cases (apply chain o)) [
          | inr (e, g) ↦ absurd (ground (arith, a, f, g, h))
          | inl (c, g) ↦ ground (arith, a, f, g, h, cached-set_cell i c cells l)
        ]
      ]
    ]

-- For any kind of content: where its bytes are to be had, `to_owned` makes it answer with them,
-- whatever any loader finds later and whatever the cells hold; where they are not, it answers as
-- the content did before.
pub get_content-to_owned :
    (loader later : ContentLoader) (cow : CowContent) (cells after : Cells)
    → get_content later (to_owned loader cow cells).1.0 after
      ≡ elim (get_content loader cow cells).0 [
        | ok b ↦ (ok b, after)
        | err e ↦ get_content later cow after
      ]
unfolding to_owned own get_content
get_content-to_owned loader later (owned b) cells after = refl
get_content-to_owned loader later (reference path) cells after =
    elim (CowResult-cases (loader path)) [
      | inl (b, m) ↦ ground (arith, m)
      | inr (e, m) ↦ ground (arith, m)
    ]
get_content-to_owned loader later (transformed source chain i) cells after =
    elim (CowResult-cases (get_content loader (transformed source chain i) cells).0) [
      | inl (b, m) ↦ ground (arith, m)
      | inr (e, m) ↦ ground (arith, m)
    ]
