-- ===== src/Runner/Checkpoint.antt =====
-- src/workflow-runner.ts: what the output of a step says of an approval, as the runner takes it for
-- the audit log, and the customer workflow's boundary on it. `validate` is
-- `validateNeutralAuditApprovalContext` of src/audit-event-writer.ts, by the message it throws.
use Prim.Native.String.{◌++◌}
use ensen_flow.Common.{
  String, Bool, false, ◌||◌, Option, none, some, List, ◌==◌, Result, ok, err, ◌>>=◌, ◌>>◌, require,
}
use ensen_flow.Value.{
  Value, undefined, str, obj, Fields, field, end, get, record_of, string_of, is_text,
}
use ensen_flow.CustomerWorkflow.{property}
use ensen_flow.CustomerWorkflow.Approval.{
  ApprovalError, approval_message, assert_customer_workflow_approval_boundary,
}
use ensen_flow.Runner.Exec.{ExecutorStatus, StepResult, Thrown}

abbrev bounded : Result ApprovalError (Unit {0}) → Result Thrown (Unit {0})
bounded (ok t) = ok t
bounded (err e) = err (Thrown.error (approval_message e))

abbrev executor_of : Option StepResult → Option Value
executor_of none = none
executor_of (some r) = some r.executor

-- `assertCustomerWorkflowApprovalBoundary`, as the runner calls it
unfoldable pub approval_boundary : Value → Option StepResult → Result Thrown (Unit {0})
unfolding assert_customer_workflow_approval_boundary approval_message
approval_boundary context r =
    bounded (assert_customer_workflow_approval_boundary context (executor_of r))

unfoldable pub approval_state_for_executor_status : ExecutorStatus → Option String
approval_state_for_executor_status ExecutorStatus.succeeded = some "approved"
approval_state_for_executor_status ExecutorStatus.approval_required = some "approval-required"
approval_state_for_executor_status ExecutorStatus.blocked = some "rejected"
approval_state_for_executor_status _ = none

-- `executor.result.output.approvalCheckpoint`, if it is a record
unfoldable pub approval_checkpoint : Value → Option (List (String × Value))
approval_checkpoint executor = elim (record_of (property "result" executor)) [
  | none ↦ none
  | some result ↦ elim (record_of (get result "output")) [
    | none ↦ none
    | some output ↦ record_of (get output "approvalCheckpoint")
  ]
]

abbrev pub invalid : String → Thrown
invalid message = Thrown.audit_validation ("step handler approvalCheckpoint " ++ message)

-- `typeof approval[k] !== "string"` throws
abbrev pub text_at : List (String × Value) → String → Result Thrown String
text_at approval k = elim (string_of (get approval k)) [
  | none ↦ err (invalid "has malformed audit fields")
  | some s ↦ ok s
]

-- a field that may be absent
abbrev pub optional_text : List (String × Value) → String → String → Result Thrown (Option String)
optional_text approval k message = elim (get approval k) [
  | undefined ↦ ok none
  | str s ↦ ok (some s)
  | _ ↦ err (invalid message)
]

abbrev pub with_field : String → Option String → Fields → Fields
with_field k none fs = fs
with_field k (some s) fs = field k (str s) fs

-- `auditContext`
abbrev pub context_from :
    String → String → String → String → String → Option String → Option String → Value
context_from checkpoint_id state reason input_ref input_fingerprint decided_by decided_at = obj (
    field "checkpointId" (str checkpoint_id) (
      field "state" (str state) (
        field "reason" (str reason) (
          field "inputRef" (str input_ref) (
            field "inputFingerprint" (str input_fingerprint)
              (with_field "decidedBy" decided_by (with_field "decidedAt" decided_at end)))))))

abbrev pub is_state : String → Bool
is_state s = s == "approval-required" || s == "approved" || s == "rejected"

abbrev pub is_expected : Option String → String → Bool
is_expected none s = false
is_expected (some t) s = s == t

abbrev pub validated : Result String (Unit {0}) → Result Thrown (Unit {0})
validated (ok t) = ok t
validated (err reason) = err (invalid ("is invalid: " ++ reason))

module _ (validate : Value → Result String (Unit {0})) where
  -- from the record `approvalCheckpoint` and `executor.status`
  unfoldable pub audit_context_of : List (String × Value) → ExecutorStatus → Result Thrown Value
  unfolding approval_state_for_executor_status
  audit_context_of approval status = do
    require (is_text "flow.approval-checkpoint.v1" (get approval "schemaVersion"))
        (invalid "schemaVersion is invalid")
    checkpoint_id ← text_at approval "checkpointId"
    state ← text_at approval "state"
    reason ← text_at approval "reason"
    input_ref ← text_at approval "inputRef"
    input_fingerprint ← text_at approval "inputFingerprint"
    require (is_state state) (invalid "state is invalid")
    decided_by ← optional_text approval "decidedBy" "decidedBy is invalid"
    decided_at ← optional_text approval "decidedAt" "decidedAt is invalid"
    let context =
        context_from checkpoint_id state reason input_ref input_fingerprint decided_by decided_at
    require (is_expected (approval_state_for_executor_status status) state)
        (invalid "state must match executor.status")
    validated (validate context)
    ok context

  abbrev pub wrapped : Result Thrown Value → Result Thrown (Option Value)
  wrapped (ok v) = ok (some v)
  wrapped (err e) = err e

  -- `approvalAuditContextFromStepResult`; a step result holds a status snapshot
  unfoldable pub approval_audit_context : Option StepResult → Result Thrown (Option Value)
  unfolding approval_checkpoint audit_context_of
  approval_audit_context none = ok none
  approval_audit_context (some r) = elim (approval_checkpoint r.executor) [
    | none ↦ ok none
    | some approval ↦ wrapped (audit_context_of approval r.status)
  ]
