-- ===== src/Runner/Schedule/Tests.antt =====
-- src/schedule-trigger.ts: the trigger at a time whose run is over.
use ensen_flow.Common.{ℕ, String, ◌≡◌, refl, some, none}
use ensen_flow.RunState.{TerminalState}
use ensen_flow.Definition.{WorkflowDefinition, schedule}
use ensen_flow.Runner.Samples.{on_table, two_steps, ended_run}
use ensen_flow.Runner.Schedule.{
  Calendar, compact_timestamp, canonical_input, evaluate_schedule_trigger,
}
use ensen_flow.Runner.Schedule.Laws.{Served, evaluate_schedule_trigger-Served}
use ensen_flow.Runner.Workflow.Tests.{texts, alone, ended_world}

-- a calendar that knows one time
abbrev calendar : Calendar String
calendar = record {
  date_of = λ t. some t;
  to_iso = λ t. "2026-01-01T00:00:00.000Z";
  utc_minutes = λ t. 0;
  utc_hours = λ t. 0;
  utc_date = λ t. 1;
  utc_month = λ t. 0;
  utc_day = λ t. 4;
}

abbrev hourly : WorkflowDefinition
hourly = record two_steps {
  trigger = record { type = schedule "0 * * * *"; idempotency_key = none };
}

evaluate_schedule_trigger-Served_example :
    Served calendar hourly "2026-01-01T00:00:00Z" ended_run ended_world (
      evaluate_schedule_trigger calendar on_table texts alone hourly "2026-01-01T00:00:00Z"
        ended_world)
unfolding ensen_flow.Common.lookup ensen_flow.RunState.Store.read_workflow_run_state
    ensen_flow.RunState.Store.parse_lines ensen_flow.RunState.Table.event_in
    ensen_flow.RunState.Project.project_workflow_run_events
    ensen_flow.RunState.Project.project_events ensen_flow.RunState.Project.project_event
    ensen_flow.RunState.Project.initial_projection
    ensen_flow.RunState.Project.apply_step_attempt_event ensen_flow.Common.insert
evaluate_schedule_trigger-Served_example =
    evaluate_schedule_trigger-Served calendar on_table texts alone hourly "2026-01-01T00:00:00Z"
      ended_world ended_run TerminalState.succeeded refl refl

-- The pattern takes a time without fractions, and the id of a run has no separators.
time_canonical : canonical_input "2026-01-01T00:00:00Z" ≡ some "2026-01-01T00:00:00.000Z"
unfolding canonical_input
time_canonical = refl

time_compact : compact_timestamp "2026-01-01T00:00:00.000Z" ≡ "20260101T000000000Z"
unfolding compact_timestamp
time_compact = refl
