-- ===== src/Runner/Start/TakeUp.antt =====
-- src/workflow-runner.ts: the checks of `runWorkflow` on a run that the state file holds.
use ensen_flow.Common.{
  String, Option, none, some, List, or_else, is_some, if◌then◌else◌, Result, ok, ◌>>◌,
}
use ensen_flow.Value.{Value, obj, end}
use ensen_flow.RunState.{RunState, IdempotencyMetadata}
use ensen_flow.Definition.{WorkflowDefinition, WorkflowStep}
use ensen_flow.Runner.Exec.{Thrown}
use ensen_flow.Runner.Start.{
  Texts, assert_existing_run_matches, assert_requested_customer_workflow_allowlisted,
  assert_persisted_run_customer_workflow_allowlisted, assert_existing_run_recoverable,
}

-- the part of `RunWorkflowInput` that is not in the environment
pub record RunWorkflowInput : Type 0 where
  pub definition : WorkflowDefinition
  pub run_id : Option String
  pub trigger_context : Option Value
  pub existing_run_state_guard : RunState → Result Thrown (Unit {0})
  pub recover_approval_required_step_ids : List String

-- `input.triggerContext ?? {}`
abbrev pub context_of : RunWorkflowInput → Value
context_of input = or_else input.trigger_context (obj end)

-- the state, if the run is over
unfoldable pub take_up :
    Texts
    → RunWorkflowInput
    → String
    → Option IdempotencyMetadata
    → List WorkflowStep
    → RunState
    → Result Thrown (Option RunState)
unfolding assert_existing_run_matches assert_persisted_run_customer_workflow_allowlisted
    assert_requested_customer_workflow_allowlisted assert_existing_run_recoverable
take_up texts input run_id key ordered s = do
  assert_existing_run_matches s input.definition run_id key
  assert_persisted_run_customer_workflow_allowlisted s input.definition
  assert_requested_customer_workflow_allowlisted input.definition (context_of input)
  input.existing_run_state_guard s
  if is_some s.run.terminal_state then ok (some s) else (do
    assert_existing_run_recoverable texts s ordered input.recover_approval_required_step_ids
    ok none)
