-- ===== src/Runner/Steps.antt =====
-- src/workflow-runner.ts: the loops of `runWorkflow` over the steps and over the attempts of a step.
pub mod Writing
pub mod Latest
pub mod Success
use Prim.Native.String.{◌++◌}
use ensen_flow.Common.{
  ℕ, zero, suc, ◌+◌, ◌-◌, String, Bool, true, false, not, ◌&&◌, ◌||◌, Option, none, some, List, [],
  ◌∷◌, if◌then◌else◌, ltb, or_else, any, last, ◌==◌, Result, ok, err,
}
use ensen_flow.RunState.{
  TerminalState, AttemptStatus, AttemptState, StepAttempts, RunState, run_completed,
}
use ensen_flow.RunState.Project.{attempts_of}
use ensen_flow.RunState.StepEvents.{is_inherited}
use ensen_flow.Definition.{WorkflowDefinition, WorkflowStep, RetryPolicy, no_backoff}
use ensen_flow.Runner.Exec.{Thrown, Exec, pure, raise, lift, ◌>>=◌, ◌>>◌}
use ensen_flow.Runner.Outcome.{AuditOutcome}
use ensen_flow.Runner.Attempt.{
  now, read_current_run_state, append_run_event, write_audit_event, run_attempt,
}
use ensen_flow.Runner.Environment.{AuditType, RunWorld, Environment, Flow, leave, again, return}

-- `latestStepAttempt(state.stepAttempts[stepId])`; an inherited name gives no array, and V8's text
-- of the `TypeError`.
unfoldable pub latest_step_attempt : String → StepAttempts → Result Thrown (Option AttemptState)
unfolding is_inherited
latest_step_attempt step_id m =
    if is_inherited step_id
    then err (Thrown.error "attempts?.at is not a function")
    else ok (last (attempts_of step_id m))

abbrev pub has_status : (AttemptStatus → Bool) → Option AttemptState → Bool
has_status p none = false
has_status p (some a) = p a.status

unfoldable pub is_succeeded : AttemptStatus → Bool
is_succeeded AttemptStatus.succeeded = true
is_succeeded _ = false

unfoldable pub is_retryable_failed : AttemptStatus → Bool
is_retryable_failed AttemptStatus.retryable_failed = true
is_retryable_failed _ = false

unfoldable pub awaits_approval : AttemptStatus → Bool
awaits_approval AttemptStatus.approval_required = true
awaits_approval _ = false

-- `step.retry ?? { maxAttempts: 1, backoff: { strategy: "none" } }`
abbrev pub retry_policy : WorkflowStep → RetryPolicy
retry_policy step = or_else step.retry (record { max_attempts = 1; backoff = no_backoff })

abbrev number_of : Option AttemptState → ℕ
number_of none = 0
number_of (some a) = a.attempt

-- `resumeAfterApprovalRequired`
unfoldable pub resumes_after_approval : List String → String → Option AttemptState → Bool
unfolding awaits_approval
resumes_after_approval recover step_id latest =
    has_status awaits_approval latest && any (λ i. i == step_id) recover

unfoldable pub first_attempt : Bool → Option AttemptState → ℕ
unfolding is_retryable_failed
first_attempt resumes latest =
    if has_status is_retryable_failed latest || resumes then number_of latest + 1 else 1

unfoldable pub final_attempt : Bool → ℕ → RetryPolicy → ℕ
final_attempt resumes first policy = if resumes then first else policy.max_attempts

module _ (env : Environment) (definition : WorkflowDefinition) (run_id : String) where
  -- `for (let attempt = first; attempt <= final; attempt += 1)`, with the rounds that are left
  unfoldable pub attempts_loop : WorkflowStep → RetryPolicy → ℕ → ℕ → Exec RunWorld Flow
  attempts_loop step policy zero attempt = pure leave
  attempts_loop step policy (suc rounds) attempt = do
    flow ← run_attempt env definition run_id step policy attempt
    elim flow [
      | leave ↦ pure leave
      | return state ↦ pure (return state)
      | again ↦ attempts_loop step policy rounds (attempt + 1)
    ]

  -- the attempts that are still allowed
  unfoldable pub run_remaining : WorkflowStep → Bool → Option AttemptState → Exec RunWorld Flow
  unfolding first_attempt final_attempt
  run_remaining step resumes latest =
      let policy = retry_policy step in
      let first = first_attempt resumes latest in
      let final = final_attempt resumes first policy in
      if ltb policy.max_attempts first && not resumes
      then raise (
          Thrown.error (
            "existing workflow run state cannot resume "
            ++ (step.id ++ "; retry policy has no remaining attempts")))
      else attempts_loop step policy (final + 1 - first) first

  -- the body of the loop over the steps
  unfoldable pub run_step : List String → WorkflowStep → Exec RunWorld Flow
  unfolding latest_step_attempt is_succeeded resumes_after_approval
  run_step recover step = do
    state ← read_current_run_state env
    latest ← lift (latest_step_attempt step.id state.step_attempts)
    if has_status is_succeeded latest
        then pure leave
        else run_remaining step (resumes_after_approval recover step.id latest) latest

  -- the end of `runWorkflow`
  unfoldable pub complete_run : Exec RunWorld RunState
  complete_run = do
    completed_at ← now env
    append_run_event env (
        run_completed (record {
          run_id = run_id;
          terminal_state = TerminalState.succeeded;
          occurred_at = completed_at;
          recovery = none;
        }))
    write_audit_event env (record {
      type = AuditType.workflow_completed;
      occurred_at = completed_at;
      step = none;
      retry = none;
      outcome = some (record { status = AuditOutcome.succeeded; reason = none });
      approval = none;
    })
    read_current_run_state env

  unfoldable pub run_steps : List String → List WorkflowStep → Exec RunWorld RunState
  run_steps recover [] = complete_run
  run_steps recover (step ∷ steps) = do
    flow ← run_step recover step
    elim flow [ return state ↦ pure state | _ ↦ run_steps recover steps ]
