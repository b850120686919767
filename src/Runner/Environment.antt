-- ===== src/Runner/Environment.antt =====
-- src/workflow-runner.ts: what a run calls of other components, and its audit events.
use ensen_flow.Common.{Bool, ℕ, String, Option, List, Result}
use ensen_flow.Value.{Value}
use ensen_flow.RunState.{RetryMetadata, RunState}
use ensen_flow.RunState.Store.{StoreError, Codec}
use ensen_flow.Definition.{WorkflowDefinition, WorkflowStep}
use ensen_flow.Runner.Exec.{Thrown, World}
use ensen_flow.Runner.Outcome.{AuditOutcome}

pub data AuditType : Type 0 where
  workflow_started workflow_completed workflow_failed : AuditType
  step_started step_completed step_failed step_retry_scheduled : AuditType

pub record AuditOutcomeContext : Type 0 where
  pub status : AuditOutcome
  pub reason : Option String

-- `NeutralAuditEventInput`, as far as the runner fills it
pub record AuditEvent : Type 0 where
  pub type : AuditType
  pub occurred_at : String
  pub step : Option (String × ℕ)
  pub retry : Option RetryMetadata
  pub outcome : Option AuditOutcomeContext
  pub approval : Option Value

abbrev pub RunWorld : Type 0
RunWorld = World AuditEvent

pub record WorkflowStepHandlerInput : Type 0 where
  pub definition : WorkflowDefinition
  pub step : WorkflowStep
  pub attempt : ℕ
  pub trigger_context : Value
  pub run_state : RunState

-- What the runner calls: the state file's codec; `now`, by the number of the call; the step handler,
-- by the number of the call; `validateNeutralAuditApprovalContext`; the audit writer, if there is
-- one, on the log; the texts of the state file's errors; whether a text is a
-- date, and the text of the date so many milliseconds after it, none out of the range of dates.
pub record Environment : Type 0 where
  pub codec : Codec
  pub now : ℕ → String
  pub step_handler : ℕ → WorkflowStepHandlerInput → Result Thrown Value
  pub validate_approval : Value → Result String (Unit {0})
  pub write_audit : AuditEvent → List AuditEvent → Result Thrown (List AuditEvent)
  pub store_message : StoreError → String
  pub is_date : String → Bool
  pub date_after : String → ℕ → Option String

-- how the `try` and the `catch` of a round leave it
pub data Flow : Type 0 where
  -- `break`
  leave : Flow
  -- the next round
  again : Flow
  -- `return readCurrentRunState()`
  return : RunState → Flow
