-- ===== src/RunState/Record.antt =====
-- src/workflow-run-state.ts: `validateWorkflowRunEvent` and the checks that it is made of. A check
-- returns, or throws the message that the source gives, without the number of the line.
-- The records are finite trees, so `validateJsonContainer` finds no circular reference.
pub mod Shape
mod Tests
use Prim.Native.String.{◌++◌ as ◌<>◌}
use ensen_flow.Common.{
  ℕ, suc, String, Bool, false, not, Option, none, some, List, [], ◌∷◌, ltb, if◌then◌else◌, is_blank,
  Result, ok, err, ◌>>=◌, ◌>>◌, require, is_some,
}
use ensen_flow.Value.{
  Value, Items, Fields, Number, nat, record_of, get, has, is_text, is_boolean, is_one_of, one_of,
}
use ensen_flow.Hygiene.{
  Finding, Runtime, find_unsafe_workflow_artifact_value, format_unsafe_workflow_artifact_diagnostic,
}
use ensen_flow.Timestamps.{is_strict_iso_timestamp}

abbrev pub Checked : Type 0
Checked = Result String (Unit {0})

-- What the checks use of other code: whether `Date.parse` makes a number of a text; what the search
-- for unsafe artifact values uses; whether `artifactHygiene` is `"skip"`.
pub record Checks : Type 0 where
  pub parses_date : String → Bool
  pub js : Runtime
  pub skips_hygiene : Bool

abbrev pub is_non_empty_text : Value → Bool
is_non_empty_text (Value.str s) = not (is_blank s)
is_non_empty_text _ = false

-- `requirePositiveInteger`
abbrev pub is_positive : Value → Bool
is_positive (Value.num (nat n)) = ltb 0 n
is_positive _ = false

abbrev pub reject_unknown_keys : List (String × Value) → List String → Checked
reject_unknown_keys [] allowed = ok tt
reject_unknown_keys ((k, v) ∷ fields) allowed =
    let rest = reject_unknown_keys fields allowed in
    if one_of allowed k
    then rest
    else err (k <> " is outside the workflow run state schema boundary")

abbrev pub require_non_empty_string : List (String × Value) → String → Checked
require_non_empty_string fs k =
    require (is_non_empty_text (get fs k)) (k <> " must be a non-empty string")

abbrev pub require_positive_integer : List (String × Value) → String → Checked
require_positive_integer fs k =
    require (is_positive (get fs k)) (k <> " must be a positive integer")

abbrev pub require_record : Value → String → Result String (List (String × Value))
require_record v message = elim (record_of v) [ none ↦ err message | some fs ↦ ok fs ]

-- `if (k in value) check(value[k])`
abbrev pub when_has : List (String × Value) → String → (Value → Checked) → Checked
when_has fs k check = if has fs k then check (get fs k) else ok tt

abbrev pub event_types : List String
event_types =
    "run.created" ∷ "step.attempt.started" ∷ "step.attempt.completed" ∷ "step.attempt.failed"
    ∷ "run.completed" ∷ []

-- `typeof value === "string" && RECOVERY_STATES.has(value)`
unfoldable pub is_recovery_state : Value → Bool
is_recovery_state =
    is_one_of
      ("approval-required" ∷ "retryable" ∷ "blocked" ∷ "abandoned" ∷ "manual-repair-needed" ∷ [])

-- `typeof value === "string" && RECOVERY_DECISIONS.has(value)`
unfoldable pub is_recovery_decision : Value → Bool
is_recovery_decision = is_one_of (
    "await-human-approval" ∷ "retry-step" ∷ "block-run" ∷ "abandon-run" ∷ "manual-repair-needed"
    ∷ [])

-- `typeof value === "string" && TERMINAL_STATES.has(value)`
unfoldable pub is_terminal_state : Value → Bool
is_terminal_state = is_one_of ("succeeded" ∷ "failed" ∷ "canceled" ∷ "retryable-failed" ∷ [])

module _ (checks : Checks) where
  abbrev pub is_timestamp_value : Value → Bool
  is_timestamp_value (Value.str s) = is_strict_iso_timestamp checks.parses_date s
  is_timestamp_value _ = false

  abbrev pub require_timestamp : List (String × Value) → String → Checked
  require_timestamp fs k =
      require (is_timestamp_value (get fs k)) (k <> " must be an ISO timestamp string")

  abbrev pub reject_finding : Option Finding → Checked
  reject_finding none = ok tt
  reject_finding (some finding) = err (format_unsafe_workflow_artifact_diagnostic finding)

  unfoldable pub reject_unsafe_workflow_artifact_values : Value → String → Checked
  unfolding find_unsafe_workflow_artifact_value format_unsafe_workflow_artifact_diagnostic
  reject_unsafe_workflow_artifact_values v path =
      if checks.skips_hygiene
      then ok tt
      else reject_finding (find_unsafe_workflow_artifact_value checks.js v path)

  unfoldable mutual
    pub validate_json_serializable_value : Value → String → Checked
    validate_json_serializable_value Value.null path = ok tt
    validate_json_serializable_value (Value.str s) path = ok tt
    validate_json_serializable_value (Value.bool b) path = ok tt
    validate_json_serializable_value (Value.num Number.not_finite) path =
        err (path <> " must contain only finite numbers")
    validate_json_serializable_value (Value.num n) path = ok tt
    validate_json_serializable_value (Value.arr vs) path = json_items vs 0 path
    validate_json_serializable_value (Value.obj fs) path = json_fields fs path
    validate_json_serializable_value v path =
        err (path <> " must contain only JSON-serializable values")

    pub json_items : Items → ℕ → String → Checked
    json_items Items.nil i path = ok tt
    json_items (Items.cons v vs) i path =
        validate_json_serializable_value v (path <> ("[" <> (checks.js.number_text i <> "]")))
        >> json_items vs (suc i) path

    pub json_fields : Fields → String → Checked
    json_fields Fields.end path = ok tt
    json_fields (Fields.field k v fs) path =
        validate_json_serializable_value v (path <> ("." <> k)) >> json_fields fs path

  unfoldable pub validate_result_metadata : Value → Checked
  validate_result_metadata v = do
    _ ← require_record v "result must be an object"
    validate_json_serializable_value v "result"
    reject_unsafe_workflow_artifact_values v "result"

  unfoldable pub validate_recovery_decision_metadata : Value → Checked
  validate_recovery_decision_metadata v = do
    fs ← require_record v "recovery must be an object"
    reject_unknown_keys fs ("state" ∷ "decision" ∷ "reason" ∷ [])
    require (is_recovery_state (get fs "state"))
        "recovery.state must be approval-required, retryable, blocked, abandoned, or manual-repair-needed"
    require (is_recovery_decision (get fs "decision"))
        "recovery.decision must be await-human-approval, retry-step, block-run, abandon-run, or manual-repair-needed"
    require_non_empty_string fs "reason"
    reject_unsafe_workflow_artifact_values (get fs "reason") "recovery.reason"

  unfoldable pub validate_retry_metadata : Value → Checked
  validate_retry_metadata v = do
    fs ← require_record v "retry must be an object"
    reject_unknown_keys fs ("retryable" ∷ "nextAttemptAt" ∷ "reason" ∷ [])
    require (is_boolean (get fs "retryable")) "retry.retryable must be boolean"
    when_has fs "nextAttemptAt" (λ _. require_timestamp fs "nextAttemptAt")
    when_has fs "reason"
        (λ r. require (is_non_empty_text r) "retry.reason must be a non-empty string")
    when_has fs "reason" (λ r. reject_unsafe_workflow_artifact_values r "retry.reason")

  unfoldable pub validate_idempotency_metadata : Value → Checked
  validate_idempotency_metadata v = do
    fs ← require_record v "trigger.idempotencyKey must be an object"
    reject_unknown_keys fs ("source" ∷ "key" ∷ [])
    require (is_one_of ("input" ∷ "workflow" ∷ "static" ∷ []) (get fs "source"))
        "idempotencyKey.source must be input, workflow, or static"
    require_non_empty_string fs "key"
    reject_unsafe_workflow_artifact_values (get fs "key") "idempotencyKey.key"

  unfoldable pub validate_trigger_context : Value → Checked
  validate_trigger_context v = do
    fs ← require_record v "trigger must be an object"
    reject_unknown_keys fs ("type" ∷ "receivedAt" ∷ "context" ∷ "idempotencyKey" ∷ [])
    require_non_empty_string fs "type"
    require_timestamp fs "receivedAt"
    when_has fs "context" (λ c. require (is_some (record_of c)) "trigger.context must be an object")
    when_has fs "context" (λ c. validate_json_serializable_value c "trigger.context")
    when_has fs "context" (λ c. reject_unsafe_workflow_artifact_values c "trigger.context")
    when_has fs "idempotencyKey" validate_idempotency_metadata

  unfoldable pub validate_created : List (String × Value) → Checked
  validate_created fs = do
    reject_unknown_keys fs
        ("type" ∷ "runId" ∷ "workflowId" ∷ "workflowVersion" ∷ "trigger" ∷ "occurredAt" ∷ [])
    require_non_empty_string fs "runId"
    require_non_empty_string fs "workflowId"
    require_non_empty_string fs "workflowVersion"
    require_timestamp fs "occurredAt"
    validate_trigger_context (get fs "trigger")

  unfoldable pub validate_completed : List (String × Value) → Checked
  validate_completed fs = do
    reject_unknown_keys fs ("type" ∷ "runId" ∷ "terminalState" ∷ "occurredAt" ∷ "recovery" ∷ [])
    require_non_empty_string fs "runId"
    require_timestamp fs "occurredAt"
    require (is_terminal_state (get fs "terminalState"))
        "terminalState must be succeeded, failed, canceled, or retryable-failed"
    when_has fs "recovery" validate_recovery_decision_metadata

  unfoldable pub validate_step_attempt : List (String × Value) → Checked
  validate_step_attempt fs = do
    reject_unknown_keys fs (
        "type" ∷ "runId" ∷ "stepId" ∷ "attempt" ∷ "occurredAt" ∷ "retry" ∷ "result" ∷ "recovery"
        ∷ [])
    require_non_empty_string fs "runId"
    require_non_empty_string fs "stepId"
    require_positive_integer fs "attempt"
    require_timestamp fs "occurredAt"
    when_has fs "retry" validate_retry_metadata
    when_has fs "result" (λ r.
        require (not (is_text "step.attempt.started" (get fs "type")))
          "result is only allowed on terminal step attempt events")
    when_has fs "result" validate_result_metadata
    when_has fs "recovery" validate_recovery_decision_metadata

  unfoldable pub validate_workflow_run_event : Value → Checked
  validate_workflow_run_event v = do
    fs ← require_record v "record must be an object"
    require (is_one_of event_types (get fs "type"))
        "type must be run.created, step.attempt.started, step.attempt.completed, step.attempt.failed, or run.completed"
    if is_text "run.created" (get fs "type")
        then validate_created fs
        else if is_text "run.completed" (get fs "type")
        then validate_completed fs
        else validate_step_attempt fs
