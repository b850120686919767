-- ===== src/Common/Codes.antt =====
-- Texts as the codes of their characters: `includes`, `toLowerCase` of ASCII letters, `trim`.
use Prim.Native.Nat.{ℕ, ◌+◌, ◌≤◌, suc}
use Prim.Native.Char.{Char, code}
use Prim.Native.String.{String, [] as []ᶜ, ◌∷◌ as ◌∷ᶜ◌}
use mathlib.Core.Bool.{Bool, true, false, ◌&&◌, ◌||◌}
use mathlib.Core.List.{List, [], ◌∷◌}
use native.Mathlib.Omega.{arith}
use ensen_flow.Common.Tests.{leb, eqb, if◌then◌else◌, Bool-cases}
use mathlib.Core.Logic.{inl, inr}
use ensen_flow.Common.Texts.{is_white_space, is_blank}

unfoldable pub codes : String → List ℕ
codes []ᶜ = []
codes (c ∷ᶜ s) = code c ∷ codes s

-- `s.length`, by characters
unfoldable pub text_length : String → ℕ
text_length []ᶜ = 0
text_length (c ∷ᶜ s) = suc (text_length s)

-- `value.length`, in UTF-16
unfoldable pub utf16_length : String → ℕ
utf16_length []ᶜ = 0
utf16_length (c ∷ᶜ s) = (if leb 65536 (code c) then 2 else 1) + utf16_length s

abbrev pub is_alphanumeric : ℕ → Bool
is_alphanumeric c = (leb 48 c && leb c 57) || (leb 65 c && leb c 90) || (leb 97 c && leb c 122)

abbrev pub lower : ℕ → ℕ
lower c = if leb 65 c && leb c 90 then c + 32 else c

unfoldable pub lower_all : List ℕ → List ℕ
lower_all [] = []
lower_all (c ∷ cs) = lower c ∷ lower_all cs

-- `text.startsWith(part)`
unfoldable pub has_prefix : List ℕ → List ℕ → Bool
has_prefix [] text = true
has_prefix (c ∷ part) [] = false
has_prefix (c ∷ part) (d ∷ text) = eqb c d && has_prefix part text

-- `text.includes(part)`
unfoldable pub includes : List ℕ → List ℕ → Bool
unfolding has_prefix
includes part [] = has_prefix part []
includes part (c ∷ text) = has_prefix part (c ∷ text) || includes part text

-- a character in front of the first part
unfoldable pub onto : Char → List String → List String
onto c [] = (c ∷ᶜ []ᶜ) ∷ []
onto c (part ∷ parts) = (c ∷ᶜ part) ∷ parts

-- `text.split(sep)`, of one character
unfoldable pub split_at : Char → String → List String
unfolding onto
split_at sep []ᶜ = []ᶜ ∷ []
split_at sep (c ∷ᶜ s) =
    let rest = split_at sep s in if eqb (code c) (code sep) then []ᶜ ∷ rest else onto c rest

unfoldable pub trim_start : String → String
trim_start []ᶜ = []ᶜ
trim_start (c ∷ᶜ s) = if is_white_space (code c) then trim_start s else c ∷ᶜ s

unfoldable pub trim_end : String → String
unfolding is_blank
trim_end []ᶜ = []ᶜ
trim_end (c ∷ᶜ s) = if is_blank (c ∷ᶜ s) then []ᶜ else c ∷ᶜ trim_end s

-- `s.trim()`
unfoldable pub trim : String → String
unfolding trim_start trim_end
trim s = trim_end (trim_start s)

trim_start-le : (s : String) → text_length (trim_start s) ≤ text_length s
unfolding trim_start text_length
trim_start-le []ᶜ = omega arith
trim_start-le (c ∷ᶜ s) = let rest = trim_start-le s in ground arith

trim_end-le : (s : String) → text_length (trim_end s) ≤ text_length s
unfolding trim_end text_length
trim_end-le []ᶜ = omega arith
trim_end-le (c ∷ᶜ s) =
    let rest = trim_end-le s in
    elim (Bool-cases (is_blank (c ∷ᶜ s))) [
      | inl blank ↦ rw blank (omega arith)
      | inr kept ↦ rw kept (omega arith)
    ]

-- What is left of a text is no longer than it.
pub trim-le : (s : String) → text_length (trim s) ≤ text_length s
unfolding trim
trim-le s = let at_end = trim_end-le (trim_start s) in let at_start = trim_start-le s in omega arith
