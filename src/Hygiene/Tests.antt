-- ===== src/Hygiene/Tests.antt =====
-- The search at concrete values.
use ensen_flow.Common.{
  String, Bool, false, ◌≡◌, ◌↔◌, inl, inr, Option, none, some, ◌==◌, eq_iff, if◌then◌else◌,
  Bool-cases, arith,
}
use ensen_flow.Common.Codes.{codes, includes, text_length}
use ensen_flow.Value.{Value, str, arr, obj, nil, cons, end, field}
use ensen_flow.Hygiene.{
  Pattern, Runtime, token_assignment, longest, find_unsafe_workflow_artifact_value,
}
use ensen_flow.Hygiene.Laws.{IsSafe, IsShrinking, find_unsafe_workflow_artifact_value-IsSafe}

abbrev boxed : String
boxed = "[\"token: x\"]"

-- a runtime that knows one JSON text, and one pattern
abbrev small_test : Pattern → String → Bool
small_test token_assignment s = includes (codes "token:") (codes s)
small_test _ s = false

abbrev small_parse : String → Option Value
small_parse s = if s == boxed then some (arr (cons (str "token: x") nil)) else none

abbrev small : Runtime
small = record {
  test = small_test;
  json_parse = small_parse;
  number_text = λ n. "0";
  json_string = λ s. s;
}

small-IsShrinking : IsShrinking small
unfolding longest text_length
small-IsShrinking s v h = elim (Bool-cases (s == boxed)) [
  | inl same ↦
      let text : s ≡ boxed = (eq_iff s boxed).0 same in
      let value : arr (cons (str "token: x") nil) ≡ v = ground arith in
      rw (text, ← value) (omega arith)
  | inr other ↦ absurd (ground arith)
]

-- an object with a text that is JSON
abbrev note : Value
note = obj (field "note" (str boxed) end)

find_unsafe_workflow_artifact_value-IsSafe_example :
    (find_unsafe_workflow_artifact_value small note "result" ≡ none) ↔ IsSafe small note
find_unsafe_workflow_artifact_value-IsSafe_example =
    find_unsafe_workflow_artifact_value-IsSafe small small-IsShrinking note "result"
