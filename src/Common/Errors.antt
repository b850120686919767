-- ===== src/Common/Errors.antt =====
-- A computation that returns or throws.
use mathlib.Core.Path.{◌≡◌, refl}
use mathlib.Core.Logic.{◌⊎◌, inl, inr}
use mathlib.Core.Bool.{Bool, true, false}

pub data Result {ℓ κ} (E : Type κ) (A : Type ℓ) : Type (ℓ ⊔ κ) where
  ok : A → Result E A
  err : E → Result E A

infixl 5 ◌>>=◌ ◌>>◌
abbrev pub ◌>>=◌ {ℓ κ μ} :
    {E : Type μ} {A : Type ℓ} {B : Type κ} → Result E A → (A → Result E B) → Result E B
ok a >>= f = f a
err e >>= f = err e

abbrev pub ◌>>◌ {ℓ μ} : {E : Type μ} {B : Type ℓ} → Result E (Unit {0}) → Result E B → Result E B
m >> k = m >>= λ _. k

-- `if (!b) throw e`
abbrev pub require {μ} : {E : Type μ} → Bool → E → Result E (Unit {0})
require true e = ok tt
require false e = err e

module _ {ℓ κ μ} {E : Type μ} {A : Type ℓ} {B : Type κ} where
  -- A chain that returns is one whose first part returned.
  pub >>=-eq-ok :
      (first : Result E A) (next : A → Result E B) {out : B}
      → (first >>= next) ≡ ok out
      → (mid : A) × (first ≡ ok mid) × (next mid ≡ ok out)
  >>=-eq-ok (ok mid) next returned = (mid, refl, returned)
  >>=-eq-ok (err thrown) next returned = cc

pub Result-cases {ℓ κ} :
    {E : Type κ} {A : Type ℓ} (m : Result E A) → ((a : A) × (m ≡ ok a)) ⊎ ((e : E) × (m ≡ err e))
Result-cases (ok a) = inl (a, refl)
Result-cases (err e) = inr (e, refl)

pub require-eq {μ} : {E : Type μ} (b : Bool) (e : E) → require b e ≡ ok tt → b ≡ true
require-eq true e h = refl
require-eq false e h = absurd (cc)

-- A test at the head of a chain that returns is passed.
pub require->>-eq-ok {ℓ μ} :
    {E : Type μ} {B : Type ℓ} (b : Bool) (e : E) (next : Result E B) {out : B}
    → (require b e >> next) ≡ ok out
    → (b ≡ true) × (next ≡ ok out)
require->>-eq-ok true e next returned = (refl, returned)
require->>-eq-ok false e next returned = cc
