-- ===== src/Common/Splitting.antt =====
-- Texts that are appended: what `trim`, `trimEnd` and `split` make of the whole.
use Prim.Native.Char.{Char, code}
use Prim.Native.String.{String, ◌++◌, [] as []ᶜ, ◌∷◌ as ◌∷ᶜ◌}
use mathlib.Core.Path.{◌≡◌, refl, ◌∙◌, ap}
use mathlib.Core.Logic.{inl, inr}
use mathlib.Core.Bool.{Bool, true, false, ◌&&◌, and-false}
use mathlib.Core.List.{List, [], ◌∷◌, ◌++◌ as ◌+++◌}
use native.Mathlib.Omega.{arith}
use text.Mathlib.TextLemmas.{cons-append, nil-append}
use ensen_flow.Common.Tests.{eqb, Bool-cases}
use ensen_flow.Common.Texts.{is_white_space, is_blank}
use ensen_flow.Common.Codes.{onto, split_at, trim_end}

and_assoc : (a b c : Bool) → (a && (b && c)) ≡ ((a && b) && c)
and_assoc true b c = refl
and_assoc false b c = refl

pub is_blank-append : (s t : String) → is_blank (s ++ t) ≡ (is_blank s && is_blank t)
unfolding is_blank
is_blank-append []ᶜ t = rw (nil-append t) refl
is_blank-append (c ∷ᶜ s) t = rw (cons-append c s t) (
    ap (λ b. is_white_space (code c) && b) (is_blank-append s t)
    ∙ and_assoc (is_white_space (code c)) (is_blank s) (is_blank t))

trim_end-cons : (c : Char) (s : String) → is_blank s ≡ false → trim_end (c ∷ᶜ s) ≡ c ∷ᶜ trim_end s
unfolding trim_end is_blank
trim_end-cons c s h = elim (Bool-cases (is_white_space (code c))) [
  | inl white ↦ rw (trim_end, is_blank, white, h) refl
  | inr black ↦ rw (trim_end, is_blank, black) refl
]

-- White space at the end of a text is in its last part, where that is not blank.
pub trim_end-append : (s t : String) → is_blank t ≡ false → trim_end (s ++ t) ≡ s ++ trim_end t
trim_end-append []ᶜ t h = rw (nil-append t, nil-append (trim_end t)) refl
trim_end-append (c ∷ᶜ s) t h =
    let kept : is_blank (s ++ t) ≡ false =
      is_blank-append s t ∙ ap (λ b. is_blank s && b) h ∙ and-false (is_blank s) in
    rw
      (
        cons-append c s t,
        trim_end-cons c (s ++ t) kept,
        trim_end-append s t h,
        cons-append c s (trim_end t),
      )
      refl

onto-append :
    (c : Char) (part : String) (parts ys : List String)
    → onto c ((part ∷ parts) +++ ys) ≡ onto c (part ∷ parts) +++ ys
unfolding onto
onto-append c part parts ys = refl

split_at-cons :
    (sep : Char) (s : String)
    → (part : String) × (parts : List String) × (split_at sep s ≡ part ∷ parts)
unfolding split_at onto
split_at-cons sep []ᶜ = ([]ᶜ, [], refl)
split_at-cons sep (c ∷ᶜ s) =
    let (part, parts, rest) = split_at-cons sep s in
    elim (Bool-cases (eqb (code c) (code sep))) [
      | inl same ↦ ([]ᶜ, split_at sep s, rw (split_at, same) refl)
      | inr other ↦ (c ∷ᶜ part, parts, rw (split_at, other, rest) refl)
    ]

-- The parts of two texts with a separator between them are those of the first and of the second.
pub split_at-append :
    (sep : Char) (s t : String) → split_at sep (s ++ (sep ∷ᶜ t)) ≡ split_at sep s +++ split_at sep t
unfolding split_at
split_at-append sep []ᶜ t =
    let same : eqb (code sep) (code sep) ≡ true = ground arith in
    rw (nil-append (sep ∷ᶜ t), split_at, same) refl
split_at-append sep (c ∷ᶜ s) t =
    let rest = split_at-append sep s t in
    let (part, parts, first) = split_at-cons sep s in
    elim (Bool-cases (eqb (code c) (code sep))) [
      | inl same ↦ rw (cons-append c s (sep ∷ᶜ t), split_at, same, rest) refl
      | inr other ↦
          rw (cons-append c s (sep ∷ᶜ t), split_at, other, rest, first)
            (onto-append c part parts (split_at sep t))
    ]
