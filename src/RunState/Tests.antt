-- ===== src/RunState/Tests.antt =====
-- Runs of the definitions of src/workflow-run-state.ts on small inputs, and the theorems at inputs
-- that meet their hypotheses.
use ensen_flow.Common.{
  ℕ, String, ◌≡◌, refl, ◌≢◌, ◌↔◌, true, none, some, List, [], ◌∷◌, ◌++◌, last, All, ok, err, lookup,
  insert,
}
use ensen_flow.RunState.{
  RunStatus, AttemptStatus, StepEventType, RunState, Event, run_created, step_attempt,
}
use ensen_flow.RunState.Project.{
  Projection, project_event, project_events, initial_projection, project_workflow_run_events,
  apply_step_attempt_event,
}
use ensen_flow.RunState.StepEvents.{started_follows, attempt_not_next}
use ensen_flow.RunState.Project.Invariant.{IsWellFormed, project_workflow_run_events-IsWellFormed}
use ensen_flow.RunState.Project.Final.{project-ended}
use ensen_flow.RunState.Project.Ending.{is_final}
use ensen_flow.RunState.Project.Extension.{extended}
use ensen_flow.RunState.Store.{
  Codec, Disk, parse_lines, read_workflow_run_state, create_workflow_run, append_workflow_run_event,
}
use ensen_flow.RunState.Store.Laws.{Appended, append-Appended, append-eq-ok}
use ensen_flow.RunState.Store.Reachable.{
  Writes, here, next, append, create, IsReadable, Writes-IsReadable, lines_of, Writes-lines,
}
use ensen_flow.RunState.Project.{initial_projection}
use ensen_flow.RunState.Recovery.{StopInput, stop_event, inspect_state, stop_workflow_run_recovery}
use ensen_flow.RunState.Report.{Classification, Report}
use ensen_flow.RunState.Recovery.Laws.{Resumes, inspect_state-recoverable_iff}
use ensen_flow.RunState.Recovery.Stop.{canceled, Stopped, stop-open, stop-Stopped, stop-stop}
use ensen_flow.RunState.Samples.{
  sample_created, sample_step, pair_codec, pair_parse, pair_stringify, pair_stringify_first,
  pair_validate_first, pair_validate_second,
}

projecting : Unit {0}
unfolding project_workflow_run_events project_events project_event initial_projection
    apply_step_attempt_event lookup insert
projecting = tt

abbrev created : Event
created = run_created sample_created

abbrev started : ℕ → Event
started n = step_attempt (sample_step StepEventType.started n)

abbrev failed_retryable : ℕ → Event
failed_retryable n = step_attempt (record (sample_step StepEventType.failed n) {
  retry = some (record { retryable = true; next_attempt_at = none; reason = none });
})

abbrev completed : ℕ → Event
completed n = step_attempt (sample_step StepEventType.completed n)

abbrev canceling : StopInput
canceling = record { run_id = "r1"; stopped_at = "2026-01-01T00:00:09Z" }

abbrev retried : List Event
retried = created ∷ started 1 ∷ failed_retryable 1 ∷ started 2 ∷ completed 2 ∷ []

-- the state that a stream projects to, or the bare run
abbrev state_or : List Event → RunState → RunState
unfolding projecting
state_or events s = elim (project_workflow_run_events events) [ ok t ↦ t | err e ↦ s ]

abbrev bare : RunState
bare = record {
  run = record {
    run_id = "r1";
    workflow_id = "w1";
    workflow_version = "flow.workflow.v1";
    trigger = sample_created.trigger;
    created_at = "2026-01-01T00:00:00Z";
    updated_at = "2026-01-01T00:00:00Z";
    status = RunStatus.created;
    terminal_state = none;
  };
  events = created ∷ [];
  step_attempts = [];
}

projects_bare : project_workflow_run_events (created ∷ []) ≡ ok bare
unfolding projecting
projects_bare = refl

rejections :
    (project_workflow_run_events (created ∷ started 2 ∷ []) ≡ err (attempt_not_next 2 "build" 2))
    × (project_workflow_run_events (created ∷ started 1 ∷ completed 1 ∷ started 2 ∷ [])
        ≡ err (started_follows 4 "build" 2 AttemptStatus.succeeded))
unfolding projecting
rejections = (refl, refl)

retried_state : RunState
unfolding projecting
retried_state = state_or retried bare

project_workflow_run_events-IsWellFormed_example : IsWellFormed retried_state
unfolding projecting retried_state
project_workflow_run_events-IsWellFormed_example =
    project_workflow_run_events-IsWellFormed retried retried_state refl

project-ended_example : project_workflow_run_events (retried ++ started 3 ∷ []) ≢ ok retried_state
unfolding projecting retried_state is_final
project-ended_example =
    project-ended retried retried_state retried_state (sample_step StepEventType.started 3)
      AttemptStatus.succeeded refl refl (record { latest = _; is_last = refl; has = refl })

canceled_state : RunState
unfolding projecting
canceled_state = state_or (created ∷ stop_event canceling ∷ []) bare

abbrev codec : Codec
codec = pair_codec created (started 1)

abbrev one_line : Disk
one_line = some ("1" ∷ [])

reads_bare :
    (second : Event) → read_workflow_run_state (pair_codec created second) one_line ≡ ok bare
unfolding projecting read_workflow_run_state parse_lines pair_parse
reads_bare second = refl

abbrev started_projection : Projection
started_projection = record {
  run = record bare.run { updated_at = "2026-01-01T00:00:01Z"; status = RunStatus.running };
  step_attempts =
      (
        "build",
        record {
          attempt = 1;
          started_at = some "2026-01-01T00:00:01Z";
          completed_at = none;
          failed_at = none;
          retry = none;
          result = none;
          recovery = none;
          status = AttemptStatus.running;
        }
            ∷ [],
      )
      ∷ [];
}

append-eq-ok_example :
    append_workflow_run_event codec (started 1) one_line
    ≡ ok (some ("1" ∷ pair_stringify created (started 1) (started 1) ∷ []))
unfolding projecting
append-eq-ok_example =
    append-eq-ok codec (started 1) ("1" ∷ []) bare started_projection
      (pair_validate_second created (started 1) 1) (reads_bare (started 1)) refl

append-Appended_example :
    Appended codec
      (started 1)
      one_line
      (some ("1" ∷ pair_stringify created (started 1) (started 1) ∷ []))
append-Appended_example =
    append-Appended codec (started 1) one_line
      (some ("1" ∷ pair_stringify created (started 1) (started 1) ∷ [])) append-eq-ok_example

abbrev no_file : Disk
no_file = none

created_file : create_workflow_run codec sample_created none ≡ ok one_line
unfolding create_workflow_run
created_file =
    rw (pair_validate_first created (started 1) 1)
      (rw (pair_stringify_first created (started 1)) refl)

written : Writes codec none (some ("1" ∷ pair_stringify created (started 1) (started 1) ∷ []))
written =
    next (next here (create sample_created created_file)) (append (started 1) append-eq-ok_example)

Writes-IsReadable_example :
    IsReadable codec (some ("1" ∷ pair_stringify created (started 1) (started 1) ∷ []))
Writes-IsReadable_example = Writes-IsReadable codec written

Writes-lines_example :
    (more : List String) × (lines_of codec
        (some ("1" ∷ pair_stringify created (started 1) (started 1) ∷ []))
      ≡ lines_of codec none ++ more)
Writes-lines_example = Writes-lines codec written

inspect_state-recoverable_iff_example :
    ((inspect_state retried_state).classification ≡ Classification.recoverable) ↔ (
      (retried_state.run.terminal_state ≡ none)
      × All (λ e. Resumes (last e.1)) retried_state.step_attempts)
inspect_state-recoverable_iff_example =
    inspect_state-recoverable_iff retried_state project_workflow_run_events-IsWellFormed_example

abbrev stop_codec : Codec
stop_codec = pair_codec created (stop_event canceling)

abbrev stopped_disk : Disk
stopped_disk =
    some ("1" ∷ pair_stringify created (stop_event canceling) (stop_event canceling) ∷ [])

stop-open_example :
    (report : Report) × (stop_workflow_run_recovery stop_codec canceling one_line
      ≡ ok (report, stopped_disk))
    × (report.classification ≡ Classification.terminal)
    × (read_workflow_run_state stop_codec stopped_disk
        ≡ ok (extended bare (stop_event canceling ∷ []) (canceled canceling bare)))
stop-open_example =
    stop-open stop_codec canceling ("1" ∷ []) bare
      (pair_validate_second created (stop_event canceling) 1) (reads_bare (stop_event canceling))
      refl refl

stop-Stopped_example : Stopped stop_codec canceling one_line stop-open_example.0 stopped_disk
stop-Stopped_example =
    stop-Stopped stop_codec canceling one_line stopped_disk stop-open_example.0 stop-open_example.1

stop-stop_example :
    stop_workflow_run_recovery stop_codec canceling stopped_disk
    ≡ ok (stop-open_example.0, stopped_disk)
stop-stop_example =
    stop-stop stop_codec canceling one_line stopped_disk stop-open_example.0 stop-open_example.1
