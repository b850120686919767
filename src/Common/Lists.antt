-- ===== src/Common/Lists.antt =====
-- Lists: length over the native numbers, the last element, tests over all elements.
use Prim.Native.Nat.{ℕ, suc, ◌+◌}
use mathlib.Core.Path.{◌≡◌, refl}
use mathlib.Core.Bool.{Bool, true, false, ◌&&◌, ◌||◌}
use mathlib.Core.Logic.{◌≢◌}
use mathlib.Core.Option.{Option, none, some}
use mathlib.Core.List.{List, [], ◌∷◌, ◌++◌}
use native.Mathlib.Omega.{arith}
use mathlib.Core.Bool.{false≢true}
use mathlib.Core.List.{Memᴰ}
use mathlib.Core.List.Memᴰ
use mathlib.Core.Logic.{inl, inr}
use ensen_flow.Common.Tests.{if◌then◌else◌, Bool-cases}

module _ {ℓ} {A : Type ℓ} where
  abbrev pub length : List A → ℕ
  length [] = 0
  length (x ∷ xs) = suc (length xs)

  pub length-append : (xs ys : List A) → length (xs ++ ys) ≡ length xs + length ys
  length-append [] ys = omega arith
  length-append (x ∷ xs) ys = omega (arith, length-append xs ys)

  -- `xs.at(-1)`
  abbrev pub last : List A → Option A
  last [] = none
  last (x ∷ []) = some x
  last (x ∷ (y ∷ ys)) = last (y ∷ ys)

  -- `xs.some(p)`
  abbrev pub any : (A → Bool) → List A → Bool
  any p [] = false
  any p (x ∷ xs) = p x || any p xs

  -- `xs.every(p)`
  abbrev pub all : (A → Bool) → List A → Bool
  all p [] = true
  all p (x ∷ xs) = p x && all p xs

  -- `xs.find(p)`
  abbrev pub find? : (A → Bool) → List A → Option A
  find? p [] = none
  find? p (x ∷ xs) = if p x then some x else find? p xs

  last-concat : (xs : List A) (x : A) → last (xs ++ x ∷ []) ≡ some x
  last-concat [] x = refl
  last-concat (y ∷ []) x = refl
  last-concat (y ∷ (z ∷ zs)) x = last-concat (z ∷ zs) x

module _ {ℓ} {A : Type ℓ} where
  pub last-eq-none : (xs : List A) → last xs ≡ none → xs ≡ []
  last-eq-none [] h = refl
  last-eq-none (x ∷ []) h = cc
  last-eq-none (x ∷ (y ∷ ys)) h = cc (last-eq-none (y ∷ ys) h)

  last-eq-some-ne-nil : (xs : List A) {x : A} → last xs ≡ some x → xs ≢ []
  last-eq-some-ne-nil [] h = cc
  last-eq-some-ne-nil (x ∷ xs) h = cc

module _ {ℓ κ} {A : Type ℓ} (P : A → Type κ) where
  abbrev pub All : List A → Type κ
  All [] = Unit
  All (x ∷ xs) = P x × All xs

  All-append : (xs ys : List A) → All xs → All ys → All (xs ++ ys)
  All-append [] ys h k = k
  All-append (x ∷ xs) ys h k = (h.0, All-append xs ys h.1 k)

pub All-map {ℓ κ κ'} :
    {A : Type ℓ} {P : A → Type κ} {Q : A → Type κ'} (xs : List A)
    → ((x : A) → P x → Q x)
    → All P xs
    → All Q xs
All-map [] f h = tt
All-map (x ∷ xs) f h = (f x h.0, All-map xs f h.1)

module _ {ℓ} {A : Type ℓ} where
  -- `xs.some(p)` holds exactly if an element passes.
  pub any-Mem : (p : A → Bool) (xs : List A) → any p xs ≡ true → (x : A) × Memᴰ x xs × (p x ≡ true)
  any-Mem p [] h = absurd (false≢true h)
  any-Mem p (x ∷ xs) h =
      let more = any-Mem p xs in
      elim (Bool-cases (p x)) [
        | inl y ↦ (x, Memᴰ.head refl, y)
        | inr n ↦ let (x', m, y) = more (ground arith) in (x', Memᴰ.tail m, y)
      ]

  pub Mem-any : (p : A → Bool) (xs : List A) (x : A) → Memᴰ x xs → p x ≡ true → any p xs ≡ true
  Mem-any p [] x m h = absurd (Memᴰ.not-nil m)
  Mem-any p (x' ∷ xs) x (Memᴰ.head e) h = let first : p x' ≡ true = rw (← e) h in ground arith
  Mem-any p (x' ∷ xs) x (Memᴰ.tail m) h = let rest = Mem-any p xs x m h in ground arith
