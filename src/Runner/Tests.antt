-- ===== src/Runner/Tests.antt =====
-- src/workflow-runner.ts: runs of the theorems on a definition of two steps, of which the first
-- that is listed depends on the other.
use ensen_flow.Runner.Attempt.{require_succeeded}
use ensen_flow.Runner.Attempt.{call_step_handler}
use ensen_flow.Runner.Attempt.{try_attempt}
use ensen_flow.Runner.Attempt.{append_run_event}
use ensen_flow.Runner.Attempt.{now}
use ensen_flow.Runner.Attempt.{write_step_audit_event}
use ensen_flow.Runner.Attempt.{run_attempt}
use ensen_flow.Runner.Steps.{attempts_loop}
use ensen_flow.Runner.Steps.{run_remaining}
use ensen_flow.Runner.Attempt.{read_current_run_state}
use ensen_flow.Runner.Steps.{run_step}
use mathlib.Core.List.{Memᴰ, Perm}
use ensen_flow.Common.{
  ltb, err, if◌then◌else◌, true, String, ◌≡◌, refl, ◌≢◌, none, some, List, [], ◌∷◌, ok, err, Option,
  Result,
}
use ensen_flow.RunState.{
  run_created, run_completed, TerminalState, RunState, Event, RunRecord, RunStatus, AttemptState,
  AttemptStatus,
}
use ensen_flow.RunState.Table.{table_codec}
use ensen_flow.Runner.Exec.{Thrown}
use ensen_flow.Runner.Outcome.{result_value}
use ensen_flow.RunState.Store.{Codec}
use ensen_flow.RunState.Samples.{sample_created, sample_step, pair_codec}
use ensen_flow.RunState.{step_attempt, StepEventType}
use ensen_flow.Definition.{WorkflowStep}
use ensen_flow.Runner.Order.{order_steps, out_of_fuel, has_id, is_ready}
use ensen_flow.Common.{ℕ, ◌≤◌}
use ensen_flow.Definition.{RetryPolicy, exponential}
use ensen_flow.Runner.Outcome.{calculate_next_attempt_at}
use ensen_flow.Runner.Outcome.Backoff.{calculate_next_attempt_at-exponential}
use ensen_flow.Runner.Order.Laws.{DependenciesFirst, order_steps-Ordered}
use ensen_flow.Runner.Order.Progress.{Linearizes, order_steps-fuel}
use ensen_flow.Runner.Order.Complete.{order_steps_complete}
use ensen_flow.Runner.Environment.{RunWorld}
use ensen_flow.Runner.Steps.{run_steps}
use ensen_flow.Common.{All}
use ensen_flow.RunState.{ended}
use ensen_flow.RunState.Project.{attempts_of}
use ensen_flow.RunState.Project.Final.{EndedWith}
use ensen_flow.RunState.Store.{read_workflow_run_state}
use ensen_flow.Runner.Steps.Success.{run_steps-Succeeded}
use ensen_flow.Runner.Samples.{build, ship, two_steps, table, on_table, ended_run, created_world}

order_steps-Ordered_example :
    Perm (build ∷ ship ∷ []) (ship ∷ build ∷ []) × DependenciesFirst [] (build ∷ ship ∷ [])
unfolding order_steps has_id
order_steps-Ordered_example =
    order_steps-Ordered (ship ∷ build ∷ []) (build ∷ ship ∷ []) (refl, (refl, tt)) refl

order_steps-fuel_example : order_steps (ship ∷ build ∷ []) ≢ err out_of_fuel
order_steps-fuel_example = order_steps-fuel (ship ∷ build ∷ [])

linearized : Linearizes (build ∷ ship ∷ []) (ship ∷ build ∷ [])
unfolding is_ready has_id
linearized = record {
  first = (refl, (refl, tt));
  listed = (Memᴰ.tail (Memᴰ.head refl), (Memᴰ.head refl, tt));
  covered = (refl, (refl, tt));
}

order_steps_complete_example :
    (out : List WorkflowStep) × (order_steps (ship ∷ build ∷ []) ≡ ok out)
unfolding has_id
order_steps_complete_example =
    order_steps_complete (ship ∷ build ∷ []) (build ∷ ship ∷ []) (refl, (refl, tt)) linearized

abbrev started_world : RunWorld
started_world = record { disk = some ("1" ∷ []); audit = []; ticks = 0; calls = 0 }

abbrev doubling : RetryPolicy
doubling = record { max_attempts = 5; backoff = exponential 100 250 }

-- the times are written as the wait, `later` from 200 ms on
abbrev clock : String → ℕ → Option String
clock failed_at ms = some (if ltb ms 200 then "soon" else "later")

calculate_next_attempt_at-exponential_example :
    (first second : ℕ) × (clock "now" first ≡ some "soon")
    × (clock "now" second ≡ some "later")
    × (first ≤ second)
    × (second ≤ 250)
unfolding calculate_next_attempt_at
calculate_next_attempt_at-exponential_example =
    calculate_next_attempt_at-exponential (λ s. true) clock "now" doubling 100 250 1 "soon" "later"
      refl refl refl

-- no wait, after so many attempts that the power of two is infinite
no_time :
    calculate_next_attempt_at
      (λ s. true)
      clock
      "now"
      (record { max_attempts = 2000; backoff = exponential 0 250 })
      1025
    ≡ err (Thrown.error "Invalid time value")
unfolding calculate_next_attempt_at
no_time = refl

run_steps-Succeeded_example :
    (read_workflow_run_state (table_codec table) (some ("0" ∷ "1" ∷ "2" ∷ "3" ∷ "4" ∷ "5" ∷ []))
      ≡ ok ended_run)
    × All
        (λ (step : WorkflowStep).
          EndedWith AttemptStatus.succeeded (attempts_of step.id ended_run.step_attempts))
        (build ∷ ship ∷ [])
unfolding append_run_event attempts_loop call_step_handler now read_current_run_state
    require_succeeded run_attempt run_remaining run_step run_steps try_attempt
    write_step_audit_event ensen_flow.RunState.Store.read_workflow_run_state
    ensen_flow.RunState.Store.parse_lines ensen_flow.RunState.Table.event_in
    ensen_flow.RunState.Project.project_workflow_run_events
    ensen_flow.RunState.Project.project_events ensen_flow.Common.lookup
    ensen_flow.RunState.Project.initial_projection
    ensen_flow.RunState.Store.append_workflow_run_event ensen_flow.RunState.Table.validate_by
    ensen_flow.RunState.Table.name_in ensen_flow.RunState.Samples.String-discrete
    native.Mathlib.Decide.ℕ_discrete ensen_flow.RunState.Project.project_event
    ensen_flow.RunState.Project.apply_step_attempt_event ensen_flow.RunState.Store.append_line
    ensen_flow.Runner.Outcome.normalize_step_handler_result
    ensen_flow.RunState.Samples.Value-discrete ensen_flow.Common.insert ensen_flow.Common.is_blank
    ensen_flow.RunState.Project.created_run ensen_flow.RunState.Samples.Event-discrete
    ensen_flow.RunState.StepEvents.apply_to_attempts ensen_flow.RunState.StepEvents.complete
    ensen_flow.RunState.StepEvents.expected_attempt ensen_flow.RunState.StepEvents.fail
    ensen_flow.RunState.StepEvents.find_attempt ensen_flow.RunState.StepEvents.find_running
    ensen_flow.RunState.StepEvents.finish_attempt ensen_flow.RunState.StepEvents.insert_by_attempt
    ensen_flow.RunState.StepEvents.is_inherited ensen_flow.RunState.StepEvents.is_running
    ensen_flow.RunState.StepEvents.sort_by_attempt ensen_flow.RunState.StepEvents.start_attempt
    ensen_flow.RunState.StepEvents.started_attempt ensen_flow.RunState.StepEvents.status_from_failed
    ensen_flow.Runner.Outcome.executor_failure_reason
    ensen_flow.Runner.Outcome.executor_snapshot_status ensen_flow.Runner.Outcome.executor_status
    ensen_flow.Runner.Outcome.status_text ensen_flow.Runner.Steps.awaits_approval
    ensen_flow.Runner.Steps.final_attempt ensen_flow.Runner.Steps.first_attempt
    ensen_flow.Runner.Steps.is_retryable_failed ensen_flow.Runner.Steps.is_succeeded
    ensen_flow.Runner.Steps.latest_step_attempt ensen_flow.Runner.Steps.resumes_after_approval
    ensen_flow.Runner.Steps.complete_run ensen_flow.Runner.Checkpoint.approval_boundary
    ensen_flow.Runner.Checkpoint.approval_audit_context
run_steps-Succeeded_example =
    run_steps-Succeeded on_table two_steps "r1" (build ∷ ship ∷ []) created_world _ ended_run refl
      refl
