-- ===== src/Definition.antt =====
-- src/workflow-definition.ts: the records of a workflow definition that was validated.
pub mod Errors
pub mod Patterns
pub mod Fields
pub mod Parts
pub mod Validate
mod Tests
use ensen_flow.Common.{ℕ, String, Bool, Option, List}
use ensen_flow.Value.{Value}

pub data IdempotencyKeyDefinition : Type 0 where
  input : (field : String) (required : Option Bool) → IdempotencyKeyDefinition
  workflow : (template : String) → IdempotencyKeyDefinition
  static : (value : String) → IdempotencyKeyDefinition

pub data RetryBackoffPolicy : Type 0 where
  no_backoff : RetryBackoffPolicy
  fixed : (delay_ms : ℕ) → RetryBackoffPolicy
  exponential : (initial_delay_ms max_delay_ms : ℕ) → RetryBackoffPolicy

pub record RetryPolicy : Type 0 where
  pub max_attempts : ℕ
  pub backoff : RetryBackoffPolicy

pub data ActionType : Type 0 where
  local approval notification : ActionType

pub record WorkflowAction : Type 0 where
  pub type : ActionType
  pub name : String
  pub with_fields : Option Value

pub record WorkflowStep : Type 0 where
  pub id : String
  pub name : Option String
  pub depends_on : Option (List String)
  pub action : WorkflowAction
  pub retry : Option RetryPolicy
  pub idempotency_key : Option IdempotencyKeyDefinition
  pub metadata : Option Value

pub data TriggerType : Type 0 where
  manual : TriggerType
  schedule : (cron : String) → TriggerType
  webhook : (path : String) → TriggerType

pub record WorkflowTrigger : Type 0 where
  pub type : TriggerType
  pub idempotency_key : Option IdempotencyKeyDefinition

pub record WorkflowDefinition : Type 0 where
  pub protocol_version : Option String
  pub id : String
  pub name : Option String
  pub description : Option String
  pub metadata : Option Value
  pub trigger : WorkflowTrigger
  pub steps : List WorkflowStep
