-- ===== src/Definition/Fields.antt =====
-- src/workflow-definition.ts: the helpers that look at one field of a record and report an error.
use ensen_flow.Common.{
  String, Bool, true, false, not, ◌&&◌, Option, none, some, List, [], ◌∷◌, ◌++◌, ltb, if◌then◌else◌,
  is_blank, is_some,
}
use ensen_flow.Value.{Value, num, nat, string_of, record_of, get, has, is_text, one_of}
use ensen_flow.Definition.Errors.{
  Segment, key, ValidationError, below_or_workflow, error_at, must_be_literal, must_be_stable_id,
  must_be_non_empty_string, must_be_string, must_be_object, outside_boundary,
  unsupported_protocol_version,
}
use ensen_flow.Definition.Patterns.{is_stable_id}

-- `typeof value === "string" && STABLE_ID_PATTERN.test(value)`, with the text
unfoldable pub stable_id_of : Value → Option String
stable_id_of (Value.str s) = if is_stable_id s then some s else none
stable_id_of _ = none

abbrev pub is_non_empty : Value → Bool
is_non_empty (Value.str s) = not (is_blank s)
is_non_empty _ = false

unfoldable pub is_positive_integer : Value → Bool
is_positive_integer (num (nat n)) = ltb 0 n
is_positive_integer _ = false

unfoldable pub is_non_negative_integer : Value → Bool
is_non_negative_integer (num (nat n)) = true
is_non_negative_integer _ = false

module _ (value : List (String × Value)) where
  abbrev pub require_literal : String → String → List ValidationError
  require_literal k expected =
      if is_text expected (get value k)
      then []
      else error_at (key "workflow" ∷ (key k ∷ [])) (must_be_literal expected)

  abbrev pub require_stable_id : String → List Segment → List ValidationError
  require_stable_id k path =
      if is_some (stable_id_of (get value k)) then [] else error_at path must_be_stable_id

  abbrev pub require_non_empty_string : String → List Segment → List ValidationError
  require_non_empty_string k path =
      if is_non_empty (get value k) then [] else error_at path must_be_non_empty_string

  abbrev pub optional_string : String → List Segment → List ValidationError
  optional_string k path =
      if has value k && not (is_some (string_of (get value k)))
      then error_at path must_be_string
      else []

  abbrev pub optional_record : String → List Segment → List ValidationError
  optional_record k path =
      if has value k && not (is_some (record_of (get value k)))
      then error_at path must_be_object
      else []

  abbrev reject_keys : List String → List Segment → List ValidationError
  reject_keys [] path = []
  reject_keys (k ∷ ks) path =
      (if has value k then error_at (below_or_workflow path k) outside_boundary else [])
      ++ reject_keys ks path

  abbrev pub reject_ensen_loop_specific_fields : List Segment → List ValidationError
  reject_ensen_loop_specific_fields path =
      reject_keys ("ensenLoop" ∷ "ensenLoopField" ∷ "loopQueue" ∷ "executorConnector" ∷ []) path

  abbrev pub reject_unsupported_eip_protocol_version : List ValidationError
  reject_unsupported_eip_protocol_version =
      if has value "protocolVersion" && not (is_text "0.2.0" (get value "protocolVersion"))
      then error_at (key "workflow" ∷ (key "protocolVersion" ∷ []))
          (unsupported_protocol_version (get value "protocolVersion"))
      else []

abbrev pub reject_unknown_keys :
    List (String × Value) → List String → List Segment → List ValidationError
reject_unknown_keys [] allowed path = []
reject_unknown_keys ((k, v) ∷ fields) allowed path =
    (if one_of allowed k then [] else error_at (below_or_workflow path k) outside_boundary)
    ++ reject_unknown_keys fields allowed path
