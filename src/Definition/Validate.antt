-- ===== src/Definition/Validate.antt =====
-- src/workflow-definition.ts: `validateWorkflowDefinition` and the checks that it is made of. Each
-- returns the errors that the source pushes, in their order; no error is `valid`.
pub mod Fits
pub mod Ids
pub mod Laws
use Prim.Native.String
use ensen_flow.Common.{
  ℕ, suc, String, Bool, true, false, not, ◌&&◌, ◌||◌, Option, none, some, List, [], ◌∷◌, ◌++◌, ◌==◌,
  if◌then◌else◌, is_blank, is_some, or_else,
}
use ensen_flow.Value.{
  Value, string_of, record_of, array_of, get, has, is_text, is_boolean, one_of, is_one_of,
}
use ensen_flow.Definition.Errors.{
  Segment, key, index, ValidationError, below, error_at, must_be_object, must_be_unique,
  must_be_stable_id, must_be_boolean, must_be_array, must_have_a_step, must_be_known_type,
  must_be_cron, cannot_reference_itself, must_reference_existing_step, must_be_positive_integer,
  must_be_non_negative_integer,
}
use ensen_flow.Definition.Patterns.{is_valid_schedule_cron_expression}
use ensen_flow.Definition.Fields.{
  stable_id_of, is_non_empty, is_positive_integer, is_non_negative_integer, require_literal,
  require_stable_id, require_non_empty_string, optional_string, optional_record,
  reject_ensen_loop_specific_fields, reject_unsupported_eip_protocol_version, reject_unknown_keys,
}
use ensen_flow.Definition.Parts.{
  idempotency_allowed_keys, idempotency_fields, validate_idempotency_key, backoff_allowed_keys,
  require_delay, validate_backoff, retry_fields, validate_retry_policy, validate_action,
}

-- `trigger.cron`: a text that is not blank has to be an expression
pub validate_cron : List (String × Value) → List ValidationError
validate_cron fs =
    let path = key "trigger" ∷ (key "cron" ∷ []) in
    require_non_empty_string fs "cron" path ++ elim (string_of (get fs "cron")) [
      | none ↦ []
      | some s ↦
          if is_blank s || is_valid_schedule_cron_expression s
          then []
          else error_at path must_be_cron
    ]

pub trigger_allowed_keys : Value → List String
trigger_allowed_keys type =
    if is_text "manual" type
    then "type" ∷ "idempotencyKey" ∷ []
    else if is_text "schedule" type
    then "type" ∷ "cron" ∷ "idempotencyKey" ∷ []
    else if is_text "webhook" type
    then "type" ∷ "path" ∷ "idempotencyKey" ∷ []
    else "type" ∷ "cron" ∷ "path" ∷ "idempotencyKey" ∷ []

pub optional_idempotency_key : List (String × Value) → List Segment → List ValidationError
optional_idempotency_key fs path =
    if has fs "idempotencyKey"
    then validate_idempotency_key (get fs "idempotencyKey") (below path "idempotencyKey")
    else []

pub trigger_fields : List (String × Value) → List ValidationError
unfolding validate_cron optional_idempotency_key
trigger_fields fs =
    let type = get fs "type" in
    let path = key "trigger" ∷ [] in
    if not (is_one_of ("manual" ∷ "schedule" ∷ "webhook" ∷ []) type)
    then error_at (below path "type") must_be_known_type
    else (if is_text "schedule" type then validate_cron fs else [])
      ++ (if is_text "webhook" type
          then require_non_empty_string fs "path" (below path "path")
          else [])
      ++ optional_idempotency_key fs path

unfoldable pub validate_trigger : Value → List ValidationError
unfolding trigger_allowed_keys trigger_fields
validate_trigger value =
    let path = key "trigger" ∷ [] in
    elim (record_of value) [
      | none ↦ error_at path must_be_object
      | some fs ↦
          reject_ensen_loop_specific_fields fs path
          ++ reject_unknown_keys fs (trigger_allowed_keys (get fs "type")) path
          ++ trigger_fields fs
    ]

unfoldable pub validate_dependency :
    List String → Value → Value → List Segment → List ValidationError
validate_dependency step_ids current dependency path = elim (stable_id_of dependency) [
  | none ↦ error_at path must_be_stable_id
  | some d ↦
      if is_text d current
      then error_at path cannot_reference_itself
      else if one_of step_ids d
      then []
      else error_at path must_reference_existing_step
]

unfoldable pub dependency_errors :
    List String → Value → ℕ → List Value → List Segment → List ValidationError
dependency_errors step_ids current i [] path = []
dependency_errors step_ids current i (d ∷ ds) path =
    validate_dependency step_ids current d (path ++ index i ∷ [])
    ++ dependency_errors step_ids current (suc i) ds path

unfoldable pub validate_dependencies :
    List String → Value → Value → List Segment → List ValidationError
validate_dependencies step_ids current Value.undefined path = []
validate_dependencies step_ids current value path = elim (array_of value) [
  | none ↦ error_at path must_be_array
  | some ds ↦ dependency_errors step_ids current 0 ds path
]

abbrev pub step_path : ℕ → List Segment
step_path i = key "steps" ∷ (index i ∷ [])

-- `step.id` and the set of the ids that came before: the error, if it is one of them, and the set
-- after it
unfoldable pub collect_id : List String → Value → List Segment → List ValidationError × List String
collect_id step_ids id path = elim (stable_id_of id) [
  | none ↦ ([], step_ids)
  | some s ↦ (
    (if one_of step_ids s then error_at (below path "id") must_be_unique else []),
    (if one_of step_ids s then step_ids else s ∷ step_ids),
  )
]

unfoldable pub step_keys : List (String × Value) → List Segment → List ValidationError
step_keys fs path =
    reject_ensen_loop_specific_fields fs path
    ++ reject_unknown_keys fs
        ("id" ∷ "name" ∷ "dependsOn" ∷ "action" ∷ "retry" ∷ "idempotencyKey" ∷ "metadata" ∷ []) path
    ++ require_stable_id fs "id" (below path "id")

-- the first `forEach`
unfoldable pub validate_step_ids : ℕ → List String → List Value → List ValidationError × List String
validate_step_ids i step_ids [] = ([], step_ids)
validate_step_ids i step_ids (step ∷ steps) = elim (record_of step) [
  | none ↦
      let (errors, ids) = validate_step_ids (suc i) step_ids steps in
      (error_at (step_path i) must_be_object ++ errors, ids)
  | some fs ↦
      let (repeated, known) = collect_id step_ids (get fs "id") (step_path i) in
      let (errors, ids) = validate_step_ids (suc i) known steps in
      (step_keys fs (step_path i) ++ repeated ++ errors, ids)
]

unfoldable pub step_fields :
    List String → List (String × Value) → List Segment → List ValidationError
unfolding optional_idempotency_key
step_fields step_ids fs path =
    optional_string fs "name" (below path "name")
    ++ optional_record fs "metadata" (below path "metadata")
    ++ validate_dependencies step_ids (get fs "id") (get fs "dependsOn") (below path "dependsOn")
    ++ validate_action (get fs "action") (below path "action")
    ++ (if has fs "retry" then validate_retry_policy (get fs "retry") (below path "retry") else [])
    ++ optional_idempotency_key fs path

unfoldable pub validate_step : List String → ℕ → Value → List ValidationError
validate_step step_ids i step = elim (record_of step) [
  | none ↦ []
  | some fs ↦ step_fields step_ids fs (step_path i)
]

-- the second `forEach`
unfoldable pub step_errors : List String → ℕ → List Value → List ValidationError
step_errors step_ids i [] = []
step_errors step_ids i (step ∷ steps) =
    validate_step step_ids i step ++ step_errors step_ids (suc i) steps

unfoldable pub validate_step_list : List Value → List ValidationError
validate_step_list [] = error_at (key "steps" ∷ []) must_have_a_step
validate_step_list (step ∷ steps) =
    let (errors, step_ids) = validate_step_ids 0 [] (step ∷ steps) in
    errors ++ step_errors step_ids 0 (step ∷ steps)

unfoldable pub validate_steps : Value → List ValidationError
validate_steps value = elim (array_of value) [
  | none ↦ error_at (key "steps" ∷ []) must_have_a_step
  | some steps ↦ validate_step_list steps
]

unfoldable pub workflow_fields : List (String × Value) → List ValidationError
workflow_fields fs =
    reject_ensen_loop_specific_fields fs []
    ++ reject_unsupported_eip_protocol_version fs
    ++ reject_unknown_keys fs
        ("protocolVersion" ∷ "schemaVersion" ∷ "id" ∷ "name" ∷ "description" ∷ "metadata"
          ∷ "trigger" ∷ "steps" ∷ [])
        []
    ++ require_literal fs "schemaVersion" "flow.workflow.v1"
    ++ require_stable_id fs "id" (key "workflow" ∷ (key "id" ∷ []))
    ++ optional_string fs "name" (key "workflow" ∷ (key "name" ∷ []))
    ++ optional_string fs "description" (key "workflow" ∷ (key "description" ∷ []))
    ++ optional_record fs "metadata" (key "workflow" ∷ (key "metadata" ∷ []))
    ++ validate_trigger (get fs "trigger")
    ++ validate_steps (get fs "steps")

unfoldable pub validate_workflow_definition : Value → List ValidationError
validate_workflow_definition value = elim (record_of value) [
  | none ↦ error_at (key "workflow" ∷ []) must_be_object
  | some fs ↦ workflow_fields fs
]
