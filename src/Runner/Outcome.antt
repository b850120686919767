-- ===== src/Runner/Outcome.antt =====
-- src/workflow-runner.ts: what a step handler's result or error means for the run.
-- The texts of a `TypeError` are those of V8.
pub mod Backoff
use ensen_flow.Common.{
  ℕ, ◌+◌, ◌-◌, ◌*◌, ◌^◌, min, String, Bool, true, false, not, Option, none, some, List,
  if◌then◌else◌, is_blank, Result, ok, err, ◌==◌, ◌&&◌, eqb, leb,
}
use ensen_flow.Value.{Value, undefined, null, str, obj, field, end, record_of, string_of, get}
use ensen_flow.RunState.{RecoveryState, RecoveryDecision, RecoveryDecisionMetadata}
use ensen_flow.Definition.{RetryPolicy, RetryBackoffPolicy, no_backoff, fixed, exponential}
use ensen_flow.Runner.Exec.{ExecutorStatus, StepResult, Thrown}
use Prim.Native.String
use ensen_flow.RunState.Store.{StoreError}

-- `isExecutorTerminalOrProgressStatus`, with the status that it narrows the text to
unfoldable pub executor_status : String → Option ExecutorStatus
executor_status s =
    if s == "accepted"
    then some ExecutorStatus.accepted
    else if s == "running"
    then some ExecutorStatus.running
    else if s == "succeeded"
    then some ExecutorStatus.succeeded
    else if s == "failed"
    then some ExecutorStatus.failed
    else if s == "cancelled"
    then some ExecutorStatus.cancelled
    else if s == "approval-required"
    then some ExecutorStatus.approval_required
    else if s == "blocked"
    then some ExecutorStatus.blocked
    else if s == "needs-review"
    then some ExecutorStatus.needs_review
    else none

unfoldable pub status_text : ExecutorStatus → String
status_text ExecutorStatus.accepted = "accepted"
status_text ExecutorStatus.running = "running"
status_text ExecutorStatus.succeeded = "succeeded"
status_text ExecutorStatus.failed = "failed"
status_text ExecutorStatus.cancelled = "cancelled"
status_text ExecutorStatus.approval_required = "approval-required"
status_text ExecutorStatus.blocked = "blocked"
status_text ExecutorStatus.needs_review = "needs-review"

snapshot_status : Option String → Option String → Option ExecutorStatus
unfolding executor_status
snapshot_status (some request_id) (some status) = executor_status status
snapshot_status _ _ = none

snapshot_fields : Option (List (String × Value)) → Option ExecutorStatus
unfolding snapshot_status
snapshot_fields none = none
snapshot_fields (some fs) =
    snapshot_status (string_of (get fs "requestId")) (string_of (get fs "status"))

-- `isExecutorStatusSnapshot`, with the status
unfoldable pub executor_snapshot_status : Value → Option ExecutorStatus
unfolding snapshot_fields
executor_snapshot_status v = snapshot_fields (record_of v)

-- `result.executor` of a record
abbrev executor_field : Value → Value
executor_field v = elim (record_of v) [ none ↦ undefined | some fs ↦ get fs "executor" ]

normalize_nested : Value → Option ExecutorStatus → Result Thrown (Option StepResult)
normalize_nested nested none =
    err (Thrown.error "stepHandler must return an ExecutorConnectorStatusSnapshot or { executor }")
normalize_nested nested (some status) = ok (some (record { executor = nested; status = status }))

normalize_direct : Value → Option ExecutorStatus → Result Thrown (Option StepResult)
unfolding normalize_nested executor_snapshot_status
normalize_direct v (some status) = ok (some (record { executor = v; status = status }))
normalize_direct v none =
    normalize_nested (executor_field v) (executor_snapshot_status (executor_field v))

unfoldable pub normalize_step_handler_result : Value → Result Thrown (Option StepResult)
unfolding normalize_direct executor_snapshot_status
normalize_step_handler_result undefined = ok none
normalize_step_handler_result v = normalize_direct v (executor_snapshot_status v)

-- the object that is written as `result`
abbrev pub result_value : StepResult → Value
result_value r = obj (field "executor" r.executor end)

unfoldable pub error_step_result : Thrown → Option StepResult
error_step_result (Thrown.outcome message result) = some result
error_step_result _ = none

unfoldable pub is_workflow_step_non_retryable_error : Thrown → Bool
is_workflow_step_non_retryable_error (Thrown.non_retryable message) = true
is_workflow_step_non_retryable_error (Thrown.audit_validation message) = true
is_workflow_step_non_retryable_error _ = false

default_failure : StepResult → String
unfolding status_text
default_failure r =
    String.◌++◌ "executor status "
      (String.◌++◌ (status_text r.status) " did not complete successfully")

reason_of_summary : StepResult → Value → Result Thrown String
unfolding default_failure is_blank
reason_of_summary r undefined = ok (default_failure r)
reason_of_summary r (str s) = if not (is_blank s) then ok s else ok (default_failure r)
reason_of_summary r null = err (Thrown.error "Cannot read properties of null (reading 'trim')")
reason_of_summary r _ = err (Thrown.error "resultSummary.trim is not a function")

-- `o?.k`, for an `o` that is read as an object
abbrev chained : String → Value → Value
chained k v = elim (record_of v) [ none ↦ undefined | some fs ↦ get fs k ]

unfoldable pub executor_failure_reason : StepResult → Result Thrown String
unfolding reason_of_summary
executor_failure_reason r = reason_of_summary r (chained "summary" (chained "result" r.executor))

nonblank_or_default : String → String
unfolding is_blank
nonblank_or_default s = if not (is_blank s) then s else "step handler failed"

-- `errorReason`; `store_message` gives the text of an error of the state file.
module _ (store_message : StoreError → String) where
  unfoldable pub error_reason : Thrown → String
  unfolding nonblank_or_default
  error_reason (Thrown.error m) = nonblank_or_default m
  error_reason (Thrown.non_retryable m) = nonblank_or_default m
  error_reason (Thrown.audit_validation m) = nonblank_or_default m
  error_reason (Thrown.outcome m r) = nonblank_or_default m
  error_reason (Thrown.store e) = nonblank_or_default (store_message e)
  error_reason (Thrown.text s) = nonblank_or_default s
  error_reason Thrown.anything = "step handler failed"

unfoldable pub recovery_of_status : ExecutorStatus → String → Option RecoveryDecisionMetadata
recovery_of_status ExecutorStatus.approval_required reason = some (record {
  state = RecoveryState.approval_required;
  decision = RecoveryDecision.await_human_approval;
  reason = reason;
})
recovery_of_status ExecutorStatus.blocked reason = some (record {
  state = RecoveryState.blocked;
  decision = RecoveryDecision.block_run;
  reason = reason;
})
recovery_of_status ExecutorStatus.needs_review reason = some (record {
  state = RecoveryState.manual_repair_needed;
  decision = RecoveryDecision.manual_repair_needed;
  reason = reason;
})
recovery_of_status _ reason = none

unfoldable pub recovery_decision_from_step_result :
    Option StepResult → String → Option RecoveryDecisionMetadata
unfolding recovery_of_status
recovery_decision_from_step_result none reason = none
recovery_decision_from_step_result (some r) reason = recovery_of_status r.status reason

pub data AuditOutcome : Type 0 where
  succeeded failed approval_required blocked manual_repair_needed : AuditOutcome

unfoldable pub audit_outcome_status_from_recovery : Option RecoveryDecisionMetadata → AuditOutcome
audit_outcome_status_from_recovery none = AuditOutcome.failed
audit_outcome_status_from_recovery (some r) = elim r.state [
  | RecoveryState.approval_required ↦ AuditOutcome.approval_required
  | RecoveryState.blocked ↦ AuditOutcome.blocked
  | RecoveryState.manual_repair_needed ↦ AuditOutcome.manual_repair_needed
  | _ ↦ AuditOutcome.failed
]

-- `new Date(ms).toISOString()`, which throws a `RangeError` where `ms` is not a time
abbrev pub time_text : Option String → Result Thrown (Option String)
time_text none = err (Thrown.error "Invalid time value")
time_text (some text) = ok (some text)

-- Whether `Date.parse` of a text is finite; and `toISOString` of the date that many milliseconds after
-- it, none out of the range of dates.
module _ (is_date : String → Bool) (date_after : String → ℕ → Option String) where
  -- The wait of the retry after attempt number `attempt`, in milliseconds, none where it is `NaN`. A
  -- product with a power of 2 is exact or infinite, and the least one is then the maximal delay; from
  -- the exponent 1024 on the power is infinite, and 0 times it is `NaN`.
  unfoldable pub backoff_delay : RetryBackoffPolicy → ℕ → Option ℕ
  backoff_delay no_backoff attempt = some 0
  backoff_delay (fixed delay_ms) attempt = some delay_ms
  backoff_delay (exponential initial_delay_ms max_delay_ms) attempt =
      if eqb initial_delay_ms 0 && leb 1024 (attempt - 1)
      then none
      else some (min (initial_delay_ms * 2 ^ (attempt - 1)) max_delay_ms)

  abbrev time_after : String → Option ℕ → Option String
  time_after failed_at none = none
  time_after failed_at (some ms) = date_after failed_at ms

  next_attempt_from : String → RetryBackoffPolicy → ℕ → Result Thrown (Option String)
  unfolding backoff_delay
  next_attempt_from failed_at no_backoff attempt = ok (some failed_at)
  next_attempt_from failed_at policy attempt =
      time_text (time_after failed_at (backoff_delay policy attempt))

  unfoldable pub calculate_next_attempt_at :
      String → RetryPolicy → ℕ → Result Thrown (Option String)
  unfolding next_attempt_from
  calculate_next_attempt_at failed_at policy attempt =
      if is_date failed_at then next_attempt_from failed_at policy.backoff attempt else ok none
