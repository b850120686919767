-- ===== src/Runner/Attempt.antt =====
-- src/workflow-runner.ts: one round of the loop over the attempts of a step in `runWorkflow`, its
-- `try` and its `catch`. What the run uses of other components is the record `Environment`.
pub mod Keeps
pub mod Ensures
pub mod Ends
use ensen_flow.Runner.Checkpoint.{approval_boundary, approval_audit_context}
use ensen_flow.Runner.Environment.{again}
use ensen_flow.Runner.Environment.{return}
use ensen_flow.Runner.Environment.{leave}
use ensen_flow.Common.{
  ℕ, ◌+◌, String, Bool, true, false, not, ◌&&◌, Option, none, some, List, [], ◌∷◌, ◌++◌,
  if◌then◌else◌, ltb, or_else, is_some, Result, ok, err,
}
use ensen_flow.Value.{Value, obj, end}
use ensen_flow.RunState.{
  TerminalState, StepEventType, RetryMetadata, RecoveryState, RecoveryDecisionMetadata, RunState,
  Event, run_completed, step_attempt,
}
use ensen_flow.RunState.Store.{
  StoreError, Codec, Disk, read_workflow_run_state, append_workflow_run_event,
}
use ensen_flow.Definition.{WorkflowDefinition, WorkflowStep, RetryPolicy}
use ensen_flow.Runner.Exec.{
  ExecutorStatus, StepResult, Thrown, World, Exec, pure, raise, lift, ◌>>=◌, ◌>>◌, catch,
}
use ensen_flow.Runner.Outcome.{
  normalize_step_handler_result, result_value, error_step_result,
  is_workflow_step_non_retryable_error, executor_failure_reason, error_reason,
  recovery_decision_from_step_result, AuditOutcome, audit_outcome_status_from_recovery,
  calculate_next_attempt_at,
}
use ensen_flow.Runner.Environment.{
  AuditType, AuditOutcomeContext, AuditEvent, RunWorld, WorkflowStepHandlerInput, Environment, Flow,
}

abbrev pub from_store : Result StoreError RunState → Result Thrown RunState
from_store (ok s) = ok s
from_store (err e) = err (Thrown.store e)

abbrev pub written : RunWorld → Result StoreError Disk → Result Thrown (Unit {0}) × RunWorld
written w (ok disk) = (ok tt, record w { disk = disk })
written w (err e) = (err (Thrown.store e), w)

abbrev pub logged : RunWorld → Result Thrown (List AuditEvent) → Result Thrown (Unit {0}) × RunWorld
logged w (ok audit) = (ok tt, record w { audit = audit })
logged w (err e) = (err e, w)

-- the decision that the `catch` takes for a failed attempt
pub record Failure : Type 0 where
  pub result : Option StepResult
  pub error : Thrown
  pub approval : Option Value

pub failure_of : Thrown → Option StepResult → Result Thrown (Option Value) → Failure
failure_of e result (ok approval) = record { result = result; error = e; approval = approval }
failure_of e result (err e') = record { result = none; error = e'; approval = none }

-- `recovery?.state` is `approval-required` or `manual-repair-needed`
unfoldable pub awaits_operator : Option RecoveryDecisionMetadata → Bool
awaits_operator none = false
awaits_operator (some r) = elim r.state [
  | RecoveryState.approval_required ↦ true
  | RecoveryState.manual_repair_needed ↦ true
  | _ ↦ false
]

module _ (env : Environment) where
  unfoldable pub now : Exec RunWorld String
  now w = (ok (env.now w.ticks), record w { ticks = w.ticks + 1 })

  unfoldable pub read_current_run_state : Exec RunWorld RunState
  read_current_run_state w = (from_store (read_workflow_run_state env.codec w.disk), w)

  unfoldable pub append_run_event : Event → Exec RunWorld (Unit {0})
  append_run_event e w = written w (append_workflow_run_event env.codec e w.disk)

  pub write_audit_event : AuditEvent → Exec RunWorld (Unit {0})
  write_audit_event e w = logged w (env.write_audit e w.audit)

  unfoldable pub call_step_handler : WorkflowStepHandlerInput → Exec RunWorld Value
  call_step_handler input w = (env.step_handler w.calls input, record w { calls = w.calls + 1 })

  unfoldable pub write_step_audit_event :
      AuditType
      → String
      → String
      → ℕ
      → Option RetryMetadata
      → Option AuditOutcomeContext
      → Option Value
      → Exec RunWorld (Unit {0})
  unfolding write_audit_event
  write_step_audit_event type occurred_at step_id attempt retry outcome approval =
      write_audit_event (record {
        type = type;
        occurred_at = occurred_at;
        step = some (step_id, attempt);
        retry = retry;
        outcome = outcome;
        approval = approval;
      })

  abbrev pub step_event :
      StepEventType
      → String
      → String
      → ℕ
      → String
      → Option RetryMetadata
      → Option StepResult
      → Option RecoveryDecisionMetadata
      → Event
  step_event type run_id step_id attempt occurred_at retry result recovery = step_attempt (record {
    type = type;
    run_id = run_id;
    step_id = step_id;
    attempt = attempt;
    occurred_at = occurred_at;
    retry = retry;
    result = elim result [ none ↦ none | some r ↦ some (result_value r) ];
    recovery = recovery;
  })

  -- `if (stepResult?.executor !== undefined && status !== "succeeded") throw …`
  require_status : StepResult → ExecutorStatus → Exec RunWorld (Unit {0})
  require_status r ExecutorStatus.succeeded = pure tt
  require_status r _ = do reason ← lift (executor_failure_reason r); raise (Thrown.outcome reason r)

  unfoldable pub require_succeeded : Option StepResult → Exec RunWorld (Unit {0})
  unfolding require_status
  require_succeeded none = pure tt
  require_succeeded (some r) = require_status r r.status

  module _ (definition : WorkflowDefinition) (run_id : String) (step : WorkflowStep) where
    -- the body of the `try`
    unfoldable pub try_attempt : ℕ → Exec RunWorld Flow
    try_attempt attempt = do
      current ← read_current_run_state
      let context = or_else current.run.trigger.context (obj end)
      value ← call_step_handler (record {
        definition = definition;
        step = step;
        attempt = attempt;
        trigger_context = context;
        run_state = current;
      })
      result ← lift (normalize_step_handler_result value)
      require_succeeded result
      lift (approval_boundary context result)
      approval ← lift (approval_audit_context env.validate_approval result)
      completed_at ← now
      append_run_event
          (step_event StepEventType.completed run_id step.id attempt completed_at none result none)
      write_step_audit_event AuditType.step_completed completed_at step.id attempt none
          (some (record { status = AuditOutcome.succeeded; reason = none })) approval
      pure leave

    -- `return` after a failure that ends the run
    pub fail_run : Failure → Option RecoveryDecisionMetadata → Exec RunWorld Flow
    fail_run failure recovery = do
      completed_at ← now
      append_run_event (
          run_completed (record {
            run_id = run_id;
            terminal_state = TerminalState.failed;
            occurred_at = completed_at;
            recovery = recovery;
          }))
      write_audit_event (record {
        type = AuditType.workflow_failed;
        occurred_at = completed_at;
        step = none;
        retry = none;
        outcome = some (record {
          status = audit_outcome_status_from_recovery recovery;
          reason = some (error_reason env.store_message failure.error);
        });
        approval = none;
      })
      state ← read_current_run_state
      pure (return state)

    -- the `catch` after the record of the failed attempt
    pub after_failure :
        ℕ → Failure → Option RecoveryDecisionMetadata → String → RetryMetadata → Exec RunWorld Flow
    after_failure attempt failure recovery failed_at retry =
        if awaits_operator recovery
        then (do state ← read_current_run_state; pure (return state))
        else if not retry.retryable
        then fail_run failure recovery
        else do
          write_step_audit_event AuditType.step_retry_scheduled failed_at step.id attempt
              (some retry) none none
          pure again

    -- `retryable`
    abbrev pub may_retry : RetryPolicy → ℕ → Failure → Option RecoveryDecisionMetadata → Bool
    may_retry policy attempt failure recovery =
        not (is_some recovery)
        && not (is_workflow_step_non_retryable_error failure.error)
        && ltb attempt policy.max_attempts

    abbrev pub retry_metadata : Bool → Option String → String → RetryMetadata
    retry_metadata retryable next reason = record {
      retryable = retryable;
      next_attempt_at = next;
      reason = some reason;
    }

    -- the time of the next attempt, if there may be one
    unfoldable pub next_attempt_at : Bool → String → RetryPolicy → ℕ → Exec RunWorld (Option String)
    unfolding calculate_next_attempt_at
    next_attempt_at retryable failed_at policy attempt = lift (
        if retryable
        then calculate_next_attempt_at env.is_date env.date_after failed_at policy attempt
        else ok none)

    -- the `catch`
    pub catch_failure : RetryPolicy → ℕ → Failure → Exec RunWorld Flow
    catch_failure policy attempt failure = do
      let reason = error_reason env.store_message failure.error
      let recovery = recovery_decision_from_step_result failure.result reason
      let retryable = may_retry policy attempt failure recovery
      failed_at ← now
      next ← next_attempt_at retryable failed_at policy attempt
      let retry = retry_metadata retryable next reason
      append_run_event (
          step_event StepEventType.failed run_id step.id attempt failed_at (some retry)
            failure.result recovery)
      write_step_audit_event AuditType.step_failed failed_at step.id attempt (some retry)
          (some
            (record { status = audit_outcome_status_from_recovery recovery; reason = some reason }))
          failure.approval
      after_failure attempt failure recovery failed_at retry

    -- the failure that the `catch` reads from an error
    pub failure_from : Thrown → Failure
    unfolding failure_of error_step_result approval_audit_context
    failure_from e =
        failure_of e (error_step_result e)
          (approval_audit_context env.validate_approval (error_step_result e))

    -- a round of the loop
    unfoldable pub run_attempt : RetryPolicy → ℕ → Exec RunWorld Flow
    run_attempt policy attempt = do
      started_at ← now
      append_run_event
          (step_event StepEventType.started run_id step.id attempt started_at none none none)
      write_step_audit_event AuditType.step_started started_at step.id attempt none none none
      catch (try_attempt attempt) (λ e. catch_failure policy attempt (failure_from e))
