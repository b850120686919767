-- ===== src/Value.antt =====
-- The values that the TypeScript sources call `unknown`, `object` and `number`, and the helpers
-- `isRecord`, `"k" in value` and `value[k]` that each source file declares for itself.
-- A value is a finite tree: a circular object has no counterpart. A key that is absent and one
-- whose value is `undefined` are told apart. `exotic` is an object with a prototype other than
-- `Object.prototype` and `null` (an instance of a class); `other` is a function, a symbol or a
-- bigint. Fields are in the order of `Object.entries`.
use ensen_flow.Common.{
  ℕ, String, Bool, true, false, Option, none, some, List, [], ◌∷◌, ◌==◌, lookup, is_some, any,
}

-- A double, as far as the program looks at it: integers, finite numbers that are no integers
-- (by their text), and NaN or an infinity. `neg n` is -(n + 1).
pub data Number : Type 0 where
  nat neg : ℕ → Number
  fraction : String → Number
  not_finite : Number

mutual
  pub data Value : Type 0 where
    undefined null : Value
    bool : Bool → Value
    num : Number → Value
    str : String → Value
    arr : Items → Value
    obj : Fields → Value
    exotic : Fields → Value
    other : Value

  pub data Items : Type 0 where
    nil : Items
    cons : Value → Items → Items

  pub data Fields : Type 0 where
    end : Fields
    field : String → Value → Fields → Fields

abbrev pub items : Items → List Value
items nil = []
items (cons v vs) = v ∷ items vs

abbrev pub entries : Fields → List (String × Value)
entries end = []
entries (field k v fs) = (k, v) ∷ entries fs

abbrev pub from_entries : List (String × Value) → Fields
from_entries [] = end
from_entries ((k, v) ∷ fs) = field k v (from_entries fs)

abbrev pub from_items : List Value → Items
from_items [] = nil
from_items (v ∷ vs) = cons v (from_items vs)

-- `isRecord(value)`, with the fields that it gives access to
abbrev pub record_of : Value → Option (List (String × Value))
record_of (obj fs) = some (entries fs)
record_of (exotic fs) = some (entries fs)
record_of _ = none

-- `Array.isArray(value)`
abbrev pub array_of : Value → Option (List Value)
array_of (arr vs) = some (items vs)
array_of _ = none

-- `typeof value === "string"`
abbrev pub string_of : Value → Option String
string_of (str s) = some s
string_of _ = none

abbrev or_undefined : Option Value → Value
or_undefined none = undefined
or_undefined (some v) = v

module _ (fs : List (String × Value)) where
  -- `value[k]`, of a key that `Object.prototype` does not have
  abbrev pub get : String → Value
  get k = or_undefined (lookup k fs)

  -- `k in value`, of such a key
  abbrev pub has : String → Bool
  has k = is_some (lookup k fs)

-- `value === "s"`
abbrev pub is_text : String → Value → Bool
is_text s (str t) = t == s
is_text s _ = false

abbrev pub is_boolean : Value → Bool
is_boolean (bool b) = true
is_boolean _ = false

-- `set.has(s)`, for a set of strings that is written out
abbrev pub one_of : List String → String → Bool
one_of names s = any (λ n. n == s) names

-- `typeof value !== "string" || !set.has(value)`, negated
abbrev pub is_one_of : List String → Value → Bool
is_one_of names (str s) = one_of names s
is_one_of names _ = false
