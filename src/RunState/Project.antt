-- ===== src/RunState/Project.antt =====
-- src/workflow-run-state.ts: `projectWorkflowRunEvents` and `applyStepAttemptEvent`, which fold a
-- stream of records into the state of a run, or throw at the first record that does not fit.
-- Every message of a thrown `Error` is a constructor of `StateError` with what the message names.
pub mod Chain
pub mod Attempts
pub mod Ending
pub mod Accepted
pub mod Invariant
pub mod Extension
pub mod Final
use ensen_flow.RunState.StepEvents.{run_id_mismatch}
use ensen_flow.RunState.StepEvents.{created_twice}
use ensen_flow.RunState.StepEvents.{first_not_created}
use ensen_flow.RunState.StepEvents.{after_run_completed}
use ensen_flow.RunState.StepEvents.{no_records}
use ensen_flow.RunState.StepEvents.{not_an_array}
use ensen_flow.Common.{
  ℕ, suc, ◌+◌, String, Bool, true, false, not, ◌&&◌, ◌||◌, Option, none, some, List, [], ◌∷◌, ◌++◌,
  ◌==◌, eqb, leb, if◌then◌else◌, is_some, or_else, length, last, any, find?, lookup, insert, Result,
  ok, err, ◌>>=◌, ◌>>◌, require,
}
use ensen_flow.RunState.{
  RunStatus, TerminalState, AttemptStatus, RecoveryState, RetryMetadata, RecoveryDecisionMetadata,
  StepEventType, CreatedEvent, StepAttemptEvent, CompletedEvent, Event, run_created, step_attempt,
  run_completed, RunRecord, AttemptState, StepAttempts, RunState,
}
use ensen_flow.RunState.StepEvents.{
  StateError, prototype_names, is_inherited, is_running, is_terminal_status, may_be_followed,
  find_attempt, find_running, insert_by_attempt, sort_by_attempt, update_attempt, recovery_state,
  is_retryable, status_from_failed, started_attempt, complete, fail, expected_attempt, follows_ok,
  none_running, none_with_number, start_attempt, finish_found, finish_attempt, apply_to_attempts,
}

-- `stepAttempts[event.stepId] ??= []`
abbrev pub attempts_of : String → StepAttempts → List AttemptState
attempts_of k m = or_else (lookup k m) []

unfoldable pub apply_step_attempt_event :
    StepAttempts → StepAttemptEvent → ℕ → Result StateError StepAttempts
unfolding apply_to_attempts is_inherited
apply_step_attempt_event m event line =
    if is_inherited event.step_id then err (not_an_array event.step_id) else do
      attempts ← apply_to_attempts event.type line event (attempts_of event.step_id m)
      ok (insert event.step_id attempts m)

unfoldable pub created_run : CreatedEvent → RunRecord
created_run e = record {
  run_id = e.run_id;
  workflow_id = e.workflow_id;
  workflow_version = e.workflow_version;
  trigger = e.trigger;
  created_at = e.occurred_at;
  updated_at = e.occurred_at;
  status = RunStatus.created;
  terminal_state = none;
}

-- The variables that the loop of `projectWorkflowRunEvents` writes.
pub record Projection : Type 0 where
  pub run : RunRecord
  pub step_attempts : StepAttempts

unfoldable pub project_event : ℕ → Projection → Event → Result StateError Projection
project_event line p (run_created e) =
    if is_some p.run.terminal_state
    then err (after_run_completed line)
    else err (created_twice line)
project_event line p (run_completed e) =
    if is_some p.run.terminal_state
    then err (after_run_completed line)
    else if not (e.run_id == p.run.run_id)
    then err (run_id_mismatch line)
    else ok (record p {
      run = record p.run {
        updated_at = e.occurred_at;
        status = RunStatus.ended e.terminal_state;
        terminal_state = some e.terminal_state;
      };
    })
project_event line p (step_attempt e) =
    if is_some p.run.terminal_state
    then err (after_run_completed line)
    else if not (e.run_id == p.run.run_id)
    then err (run_id_mismatch line)
    else do
      m ← apply_step_attempt_event p.step_attempts e line
      ok (record {
        run = record p.run { updated_at = e.occurred_at; status = RunStatus.running };
        step_attempts = m;
      })

unfoldable pub project_events : ℕ → Projection → List Event → Result StateError Projection
project_events line p [] = ok p
project_events line p (e ∷ es) = project_event line p e >>= λ q. project_events (line + 1) q es

-- `run` and `stepAttempts` before the loop
unfoldable pub initial_projection : CreatedEvent → Projection
unfolding created_run
initial_projection e = record { run = created_run e; step_attempts = [] }

unfoldable pub project_workflow_run_events : List Event → Result StateError RunState
project_workflow_run_events [] = err no_records
project_workflow_run_events (run_created e ∷ rest) = do
  p ← project_events 2 (initial_projection e) rest
  ok (record { run = p.run; events = run_created e ∷ rest; step_attempts = p.step_attempts })
project_workflow_run_events (_ ∷ rest) = err first_not_created
