-- ===== src/Common/Dict.antt =====
-- An object used as a dictionary: keys in insertion order.
use Prim.Native.String.{String}
use mathlib.Core.Path.{◌≡◌, refl}
use mathlib.Core.Option.{Option, none, some}
use mathlib.Core.List.{List, [], ◌∷◌, ◌++◌}
use native.Mathlib.Omega.{arith}
use text.Mathlib.Text.{◌==◌}
use text.Mathlib.TextEquality.{eq_iff}
use ensen_flow.Common.Tests.{if◌then◌else◌}

module _ {ℓ} {V : Type ℓ} where
  -- `dict[key]`
  unfoldable pub lookup : String → List (String × V) → Option V
  lookup key [] = none
  lookup key ((here, value) ∷ dict) = if here == key then some value else lookup key dict

  -- `dict[key] = value`: a key that is there keeps its place
  unfoldable pub insert : String → V → List (String × V) → List (String × V)
  insert key value [] = (key, value) ∷ []
  insert key value ((here, old) ∷ dict) =
      if here == key then (here, value) ∷ dict else (here, old) ∷ insert key value dict

  -- `Object.keys(m)`
  abbrev pub keys : List (String × V) → List String
  keys [] = []
  keys ((k, v) ∷ m) = k ∷ keys m

  pub lookup-insert :
      (key other : String) (value : V) (dict : List (String × V))
      → lookup other (insert key value dict)
        ≡ (if key == other then some value else lookup other dict)
  unfolding lookup insert
  lookup-insert key other value [] = refl
  lookup-insert key other value ((here, old) ∷ dict) =
      let later = lookup-insert key other value dict in
      ground (arith, later, eq_iff here key, eq_iff here other, eq_iff key other)

  pub keys-insert_old :
      (k : String) (v w : V) (m : List (String × V))
      → lookup k m ≡ some w
      → keys (insert k v m) ≡ keys m
  unfolding lookup insert
  keys-insert_old k v w [] h = cc
  keys-insert_old k v w ((i, u) ∷ m) h = ground (arith, eq_iff i k, keys-insert_old k v w m)

  pub keys-insert_new :
      (k : String) (v : V) (m : List (String × V))
      → lookup k m ≡ none
      → keys (insert k v m) ≡ keys m ++ k ∷ []
  unfolding lookup insert
  keys-insert_new k v [] h = refl
  keys-insert_new k v ((i, u) ∷ m) h = ground (arith, eq_iff i k, keys-insert_new k v m)
