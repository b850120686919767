-- ===== src/RunState.antt =====
-- src/workflow-run-state.ts: the records of the append-only run state and the projected state.
pub mod Record
pub mod StepEvents
pub mod Project
pub mod Store
pub mod Report
pub mod Recovery
pub mod Samples
pub mod Table
mod Tests
use ensen_flow.Common.{ℕ, String, Bool, Option, List}
use ensen_flow.Value.{Value}

pub data TerminalState : Type 0 where
  succeeded failed canceled retryable_failed : TerminalState

-- `"created" | "running" | WorkflowRunTerminalState`
pub data RunStatus : Type 0 where
  created running : RunStatus
  ended : TerminalState → RunStatus

pub data AttemptStatus : Type 0 where
  running succeeded failed retryable_failed approval_required blocked manual_repair_needed :
      AttemptStatus

pub data IdempotencySource : Type 0 where
  input workflow static : IdempotencySource

pub record IdempotencyMetadata : Type 0 where
  pub source : IdempotencySource
  pub key : String

pub record TriggerContext : Type 0 where
  pub type : String
  pub received_at : String
  pub context : Option Value
  pub idempotency_key : Option IdempotencyMetadata

pub record RetryMetadata : Type 0 where
  pub retryable : Bool
  pub next_attempt_at : Option String
  pub reason : Option String

pub data RecoveryState : Type 0 where
  approval_required retryable blocked abandoned manual_repair_needed : RecoveryState

pub data RecoveryDecision : Type 0 where
  await_human_approval retry_step block_run abandon_run manual_repair_needed : RecoveryDecision

pub record RecoveryDecisionMetadata : Type 0 where
  pub state : RecoveryState
  pub decision : RecoveryDecision
  pub reason : String

pub record CreatedEvent : Type 0 where
  pub run_id : String
  pub workflow_id : String
  pub workflow_version : String
  pub trigger : TriggerContext
  pub occurred_at : String

-- `step.attempt.started`, `step.attempt.completed`, `step.attempt.failed`
pub data StepEventType : Type 0 where
  started completed failed : StepEventType

pub record StepAttemptEvent : Type 0 where
  pub type : StepEventType
  pub run_id : String
  pub step_id : String
  pub attempt : ℕ
  pub occurred_at : String
  pub retry : Option RetryMetadata
  pub result : Option Value
  pub recovery : Option RecoveryDecisionMetadata

pub record CompletedEvent : Type 0 where
  pub run_id : String
  pub terminal_state : TerminalState
  pub occurred_at : String
  pub recovery : Option RecoveryDecisionMetadata

pub data Event : Type 0 where
  run_created : CreatedEvent → Event
  step_attempt : StepAttemptEvent → Event
  run_completed : CompletedEvent → Event

-- `event.runId`, which every record has
abbrev pub run_id_of : Event → String
run_id_of (run_created e) = e.run_id
run_id_of (step_attempt e) = e.run_id
run_id_of (run_completed e) = e.run_id

pub record RunRecord : Type 0 where
  pub run_id : String
  pub workflow_id : String
  pub workflow_version : String
  pub trigger : TriggerContext
  pub created_at : String
  pub updated_at : String
  pub status : RunStatus
  pub terminal_state : Option TerminalState

pub record AttemptState : Type 0 where
  pub attempt : ℕ
  pub started_at : Option String
  pub completed_at : Option String
  pub failed_at : Option String
  pub retry : Option RetryMetadata
  pub result : Option Value
  pub recovery : Option RecoveryDecisionMetadata
  pub status : AttemptStatus

-- `Record<string, WorkflowStepAttemptState[]>`
abbrev pub StepAttempts : Type 0
StepAttempts = List (String × List AttemptState)

pub record RunState : Type 0 where
  pub run : RunRecord
  pub events : List Event
  pub step_attempts : StepAttempts
