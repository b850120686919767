-- ===== src/Audit.antt =====
-- src/audit-event-writer.ts: audit events and their validation. The texts of an event that TypeScript
-- confines to a few words are strings here, as the code looks at them.
pub mod Sequence
pub mod Numbering
pub mod Writer
mod Tests
use ensen_flow.Common.{
  ℕ, String, Bool, true, false, not, ◌&&◌, ◌||◌, ◌==◌, Option, none, some, List, [], ◌∷◌, leb,
  is_some, is_blank, Result, ok, err, ◌>>=◌, ◌>>◌, require,
}
use Prim.Native.String.{◌++◌}
use ensen_flow.Value.{Number, nat, str, one_of}
use ensen_flow.Hygiene.{
  Finding, Runtime, find_unsafe_workflow_artifact_value, format_unsafe_workflow_artifact_diagnostic,
}
use ensen_flow.Timestamps.{is_strict_utc_millis_timestamp}

-- `NeutralAuditActorContext` and `NeutralAuditSourceContext`
pub record Party : Type 0 where
  pub type : String
  pub id : String

pub record WorkflowReference : Type 0 where
  pub id : String
  pub version : String

pub record StepReference : Type 0 where
  pub id : String
  pub attempt : Number

pub record RetryContext : Type 0 where
  pub retryable : Bool
  pub reason : String
  pub next_attempt_at : Option String

pub record OutcomeContext : Type 0 where
  pub status : String
  pub reason : Option String

pub record ApprovalContext : Type 0 where
  pub checkpoint_id : String
  pub state : String
  pub reason : String
  pub input_ref : String
  pub input_fingerprint : String
  pub decided_by : Option String
  pub decided_at : Option String

-- `CreateNeutralAuditEventInput`
pub record EventInput : Type 0 where
  pub type : String
  pub occurred_at : String
  pub step : Option StepReference
  pub retry : Option RetryContext
  pub outcome : Option OutcomeContext
  pub approval : Option ApprovalContext

-- `NeutralAuditEvent`: the input, and what the writer adds to it; `run` is the run's id
pub record NeutralAuditEvent : Type 0 where
  pub id : String
  pub actor : Party
  pub source : Party
  pub workflow : WorkflowReference
  pub run : String
  pub input : EventInput

abbrev pub Checked : Type 0
Checked = Result String (Unit {0})

abbrev neutral_audit_event_types : List String
neutral_audit_event_types =
    "workflow.started" ∷ "step.started" ∷ "step.completed" ∷ "step.failed" ∷ "step.retry.scheduled"
    ∷ "workflow.completed" ∷ "workflow.failed" ∷ []

abbrev neutral_audit_outcome_statuses : List String
neutral_audit_outcome_statuses =
    "succeeded" ∷ "failed" ∷ "canceled" ∷ "retryable-failed" ∷ "approval-required" ∷ "blocked"
    ∷ "manual-repair-needed" ∷ []

unfoldable pub require_non_empty_string : String → String → Checked
unfolding is_blank
require_non_empty_string value label =
    require (not (is_blank value)) (label ++ " must be a non-empty string")

unfoldable pub require_iso_timestamp : String → String → Checked
unfolding is_strict_utc_millis_timestamp
require_iso_timestamp value label =
    require (is_strict_utc_millis_timestamp value) (label ++ " must be an ISO timestamp string")

-- a check of a field, if it is there
abbrev when_there : {A : Type 0} → Option A → (A → Checked) → Checked
when_there none check = ok tt
when_there (some a) check = check a

abbrev is_positive_integer : Number → Bool
is_positive_integer (nat n) = leb 1 n
is_positive_integer _ = false

abbrev is_decided : String → Bool
is_decided state = (state == "approved") || (state == "rejected")

module _ (js : Runtime) where
  abbrev reject_finding : Option Finding → Checked
  reject_finding none = ok tt
  reject_finding (some finding) = err (format_unsafe_workflow_artifact_diagnostic finding)

  unfoldable pub reject_unsafe_audit_artifact_values : String → String → Checked
  unfolding find_unsafe_workflow_artifact_value format_unsafe_workflow_artifact_diagnostic
  reject_unsafe_audit_artifact_values value path =
      reject_finding (find_unsafe_workflow_artifact_value js (str value) path)

  -- both checks of a text
  abbrev safe_text : String → String → Checked
  safe_text value label = do
    require_non_empty_string value label
    reject_unsafe_audit_artifact_values value label

  unfoldable pub validate_neutral_audit_approval_context : ApprovalContext → Checked
  unfolding require_non_empty_string require_iso_timestamp reject_unsafe_audit_artifact_values
  validate_neutral_audit_approval_context approval = do
    safe_text approval.checkpoint_id "audit event approval.checkpointId"
    require ((approval.state == "approval-required") || is_decided approval.state)
        "audit event approval.state must be approval-required, approved, or rejected"
    require_non_empty_string approval.reason "audit event approval.reason"
    require_non_empty_string approval.input_ref "audit event approval.inputRef"
    require_non_empty_string approval.input_fingerprint "audit event approval.inputFingerprint"
    reject_unsafe_audit_artifact_values approval.reason "audit event approval.reason"
    reject_unsafe_audit_artifact_values approval.input_ref "audit event approval.inputRef"
    reject_unsafe_audit_artifact_values approval.input_fingerprint
        "audit event approval.inputFingerprint"
    when_there approval.decided_by (λ v. safe_text v "audit event approval.decidedBy")
    when_there approval.decided_at (λ v. require_iso_timestamp v "audit event approval.decidedAt")
    require (not (is_decided approval.state) || is_some approval.decided_by)
        "audit event approval.decidedBy is required for approved or rejected approval states"
    require (not (is_decided approval.state) || is_some approval.decided_at)
        "audit event approval.decidedAt is required for approved or rejected approval states"

  abbrev validate_step : StepReference → Checked
  validate_step step = do
    require_non_empty_string step.id "audit event step.id"
    require (is_positive_integer step.attempt) "audit event step.attempt must be a positive integer"

  abbrev validate_retry : RetryContext → Checked
  validate_retry retry = do
    safe_text retry.reason "audit event retry.reason"
    when_there retry.next_attempt_at
        (λ v. require_iso_timestamp v "audit event retry.nextAttemptAt")

  abbrev validate_outcome : OutcomeContext → Checked
  validate_outcome outcome = do
    require (one_of neutral_audit_outcome_statuses outcome.status)
        "audit event outcome.status must be succeeded, failed, canceled, retryable-failed, approval-required, blocked, or manual-repair-needed"
    when_there outcome.reason (λ v. safe_text v "audit event outcome.reason")

  unfoldable pub validate_neutral_audit_event : NeutralAuditEvent → Checked
  unfolding validate_neutral_audit_approval_context
  validate_neutral_audit_event event = do
    require (one_of neutral_audit_event_types event.input.type) "audit event type is invalid"
    require_non_empty_string event.id "audit event id"
    require_iso_timestamp event.input.occurred_at "audit event occurredAt"
    require (event.actor.type == "system") "audit event actor.type must be system"
    require_non_empty_string event.actor.id "audit event actor.id"
    require (event.source.type == "runner") "audit event source.type must be runner"
    require_non_empty_string event.source.id "audit event source.id"
    require_non_empty_string event.workflow.id "audit event workflow.id"
    require_non_empty_string event.workflow.version "audit event workflow.version"
    require_non_empty_string event.run "audit event run.id"
    when_there event.input.step validate_step
    when_there event.input.retry validate_retry
    when_there event.input.outcome validate_outcome
    when_there event.input.approval validate_neutral_audit_approval_context
