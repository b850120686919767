-- ===== src/RunState/Table.antt =====
-- A codec for the tests that knows the records of a table, each by a text of its own.
use ensen_flow.Common.{
  ℕ, String, ◌≡◌, refl, Option, none, some, List, [], ◌∷◌, ok, err, ◌==◌, if◌then◌else◌, Result,
}
use ensen_flow.RunState.{Event}
use ensen_flow.RunState.Samples.{Event-discrete}
use ensen_flow.RunState.Store.{StoreError, malformed, Codec}

abbrev named : {A : Type 0} → Dec A → String → String → String
named (yes _) name other = name
named (no _) name other = other

abbrev checked : {A : Type 0} → ℕ → Dec A → Result StoreError (Unit {0})
checked line (yes _) = ok tt
checked line (no _) = err (malformed line "unknown")

abbrev pub found : ℕ → Option Event → Result StoreError Event
found line none = err (malformed line "unknown")
found line (some e) = ok e

unfoldable pub name_in : Event → List (String × Event) → String
unfolding Event-discrete
name_in e [] = ""
name_in e ((name, x) ∷ t) = named (Event-discrete e x) name (name_in e t)

unfoldable pub event_in : String → List (String × Event) → Option Event
event_in l [] = none
event_in l ((name, x) ∷ t) = let rest = event_in l t in if l == name then some x else rest

unfoldable pub validate_by : ℕ → Event → Option Event → Result StoreError (Unit {0})
unfolding Event-discrete
validate_by line e none = err (malformed line "unknown")
validate_by line e (some x) = checked line (Event-discrete x e)

pub validate_by-found :
    (m n : ℕ) (e : Event) (o : Option Event) → validate_by m e o ≡ ok tt → found n o ≡ ok e
unfolding validate_by
validate_by-found m n e none h = cc
validate_by-found m n e (some x) h = same (Event-discrete x e) h
  where
    same : (d : Dec (x ≡ e)) → checked m d ≡ ok tt → found n (some x) ≡ ok e
    same (yes p) h = rw p refl
    same (no _) h = cc

-- The records of the table, and no others, are read and written.
abbrev pub table_codec : List (String × Event) → Codec
table_codec t = record {
  parse = λ line l. found line (event_in l t);
  stringify = λ e. name_in e t;
  validate = λ line e. validate_by line e (event_in (name_in e t) t);
  parse-stringify = λ m n e h. validate_by-found m n e (event_in (name_in e t) t) h;
}
