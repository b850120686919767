-- ===== src/Definition/Parts.antt =====
-- src/workflow-definition.ts: the validation of idempotency keys, retry policies and actions.
use ensen_flow.Common.{String, not, ◌&&◌, none, some, List, [], ◌∷◌, ◌++◌, if◌then◌else◌, is_some}
use ensen_flow.Value.{Value, record_of, get, has, is_text, is_boolean, is_one_of}
use ensen_flow.Definition.Errors.{
  Segment, ValidationError, below, error_at, must_be_object, must_be_boolean, must_be_known_type,
  must_be_positive_integer, must_be_non_negative_integer,
}
use ensen_flow.Definition.Fields.{
  is_positive_integer, is_non_negative_integer, require_non_empty_string, reject_unknown_keys,
}

-- the keys that an idempotency key of this source may have
pub idempotency_allowed_keys : Value → List String
idempotency_allowed_keys source =
    if is_text "input" source
    then "source" ∷ "field" ∷ "required" ∷ []
    else if is_text "workflow" source
    then "source" ∷ "template" ∷ []
    else if is_text "static" source
    then "source" ∷ "value" ∷ []
    else "source" ∷ "field" ∷ "required" ∷ "template" ∷ "value" ∷ []

pub idempotency_fields : List (String × Value) → List Segment → List ValidationError
idempotency_fields fs path =
    let source = get fs "source" in
    if not (is_one_of ("input" ∷ "workflow" ∷ "static" ∷ []) source)
    then error_at (below path "source") must_be_known_type
    else (if is_text "input" source
        then require_non_empty_string fs "field" (below path "field")
          ++ (if has fs "required" && not (is_boolean (get fs "required"))
              then error_at (below path "required") must_be_boolean
              else [])
        else [])
      ++ (if is_text "workflow" source
          then require_non_empty_string fs "template" (below path "template")
          else [])
      ++ (if is_text "static" source
          then require_non_empty_string fs "value" (below path "value")
          else [])

unfoldable pub validate_idempotency_key : Value → List Segment → List ValidationError
unfolding idempotency_allowed_keys idempotency_fields
validate_idempotency_key value path = elim (record_of value) [
  | none ↦ error_at path must_be_object
  | some fs ↦
      reject_unknown_keys fs (idempotency_allowed_keys (get fs "source")) path
      ++ idempotency_fields fs path
]

pub backoff_allowed_keys : Value → List String
backoff_allowed_keys strategy =
    if is_text "none" strategy
    then "strategy" ∷ []
    else if is_text "fixed" strategy
    then "strategy" ∷ "delayMs" ∷ []
    else if is_text "exponential" strategy
    then "strategy" ∷ "initialDelayMs" ∷ "maxDelayMs" ∷ []
    else "strategy" ∷ "delayMs" ∷ "initialDelayMs" ∷ "maxDelayMs" ∷ []

pub require_delay : List (String × Value) → String → List Segment → List ValidationError
require_delay fs k path =
    if is_non_negative_integer (get fs k)
    then []
    else error_at (below path k) must_be_non_negative_integer

unfoldable pub validate_backoff : Value → List Segment → List ValidationError
unfolding backoff_allowed_keys require_delay
validate_backoff value path = elim (record_of value) [
  | none ↦ error_at path must_be_object
  | some fs ↦
      let strategy = get fs "strategy" in
      reject_unknown_keys fs (backoff_allowed_keys strategy) path
      ++ (if not (is_one_of ("none" ∷ "fixed" ∷ "exponential" ∷ []) strategy)
          then error_at (below path "strategy") must_be_known_type
          else (if is_text "fixed" strategy then require_delay fs "delayMs" path else [])
            ++ (if is_text "exponential" strategy
                then require_delay fs "initialDelayMs" path ++ require_delay fs "maxDelayMs" path
                else []))
]

unfoldable pub retry_fields : List (String × Value) → List Segment → List ValidationError
retry_fields fs path =
    reject_unknown_keys fs ("maxAttempts" ∷ "backoff" ∷ []) path
    ++ (if is_positive_integer (get fs "maxAttempts")
        then []
        else error_at (below path "maxAttempts") must_be_positive_integer)
    ++ validate_backoff (get fs "backoff") (below path "backoff")

unfoldable pub validate_retry_policy : Value → List Segment → List ValidationError
validate_retry_policy value path = elim (record_of value) [
  | none ↦ error_at path must_be_object
  | some fs ↦ retry_fields fs path
]

unfoldable pub validate_action : Value → List Segment → List ValidationError
validate_action value path = elim (record_of value) [
  | none ↦ error_at path must_be_object
  | some fs ↦
      reject_unknown_keys fs ("type" ∷ "name" ∷ "with" ∷ []) path
      ++ (if is_one_of ("local" ∷ "approval" ∷ "notification" ∷ []) (get fs "type")
          then []
          else error_at (below path "type") must_be_known_type)
      ++ require_non_empty_string fs "name" (below path "name")
      ++ (if has fs "with" && not (is_some (record_of (get fs "with")))
          then error_at (below path "with") must_be_object
          else [])
]
