-- ===== src/Runner/Samples.antt =====
-- Sample definitions, steps and environments for the tests.
use ensen_flow.Common.{true, String, none, some, List, [], ◌∷◌, ok, Option}
use ensen_flow.Value.{Value, str, obj, field, end}
use ensen_flow.RunState.{
  run_created, run_completed, TerminalState, RunState, Event, AttemptState, AttemptStatus,
}
use ensen_flow.RunState.Table.{table_codec}
use ensen_flow.RunState.Store.{Codec}
use ensen_flow.RunState.Samples.{sample_created, sample_step, pair_codec}
use ensen_flow.RunState.{step_attempt, StepEventType}
use ensen_flow.Definition.{WorkflowStep, WorkflowDefinition, TriggerType, ActionType}
use ensen_flow.Runner.Environment.{RunWorld, Environment}
use ensen_flow.RunState.{ended}

abbrev pub sample : String → Option (List String) → WorkflowStep
sample id depends_on = record {
  id = id;
  name = none;
  depends_on = depends_on;
  action = record { type = ActionType.local; name = "act"; with_fields = none };
  retry = none;
  idempotency_key = none;
  metadata = none;
}

abbrev pub build : WorkflowStep
build = sample "build" none

abbrev pub ship : WorkflowStep
ship = sample "ship" (some ("build" ∷ []))

abbrev pub codec : Codec
codec = pair_codec (run_created sample_created) (step_attempt (sample_step StepEventType.started 1))

abbrev pub snapshot : Value
snapshot = obj (field "requestId" (str "q1") (field "status" (str "succeeded") end))

-- a step handler that returns a snapshot of success, and an audit log that takes every event
abbrev pub environment : Environment
environment = record {
  codec = codec;
  now = λ n. "2026-01-01T00:00:01Z";
  step_handler = λ n input. ok snapshot;
  validate_approval = λ v. ok tt;
  write_audit = λ e log. ok (e ∷ log);
  store_message = λ e. "state error";
  is_date = λ s. true;
  date_after = λ s ms. some "2026-01-01T00:00:02Z";
}

abbrev pub two_steps : WorkflowDefinition
two_steps = record {
  protocol_version = none;
  id = "w1";
  name = none;
  description = none;
  metadata = none;
  trigger = record { type = TriggerType.manual; idempotency_key = none };
  steps = ship ∷ build ∷ [];
}

abbrev pub build_result : Option Value
build_result = some (obj (field "executor" snapshot end))

abbrev pub on_step : StepEventType → String → Option Value → Event
on_step type step_id result = step_attempt (record {
  type = type;
  run_id = "r1";
  step_id = step_id;
  attempt = 1;
  occurred_at = "2026-01-01T00:00:01Z";
  retry = none;
  result = result;
  recovery = none;
})

abbrev pub finished : Event
finished = run_completed (record {
  run_id = "r1";
  terminal_state = TerminalState.succeeded;
  occurred_at = "2026-01-01T00:00:01Z";
  recovery = none;
})

abbrev pub table : List (String × Event)
table =
    ("0", run_created sample_created)
    ∷ ("1", on_step StepEventType.started "build" none)
    ∷ ("2", on_step StepEventType.completed "build" build_result)
    ∷ ("3", on_step StepEventType.started "ship" none)
    ∷ ("4", on_step StepEventType.completed "ship" build_result)
    ∷ ("5", finished)
    ∷ []

abbrev pub on_table : Environment
on_table = record environment { codec = table_codec table }

abbrev pub ended_attempt : AttemptState
ended_attempt = record {
  attempt = 1;
  started_at = some "2026-01-01T00:00:01Z";
  completed_at = some "2026-01-01T00:00:01Z";
  failed_at = none;
  retry = none;
  result = build_result;
  recovery = none;
  status = AttemptStatus.succeeded;
}

abbrev pub ended_run : RunState
ended_run = record {
  run = record {
    run_id = "r1";
    workflow_id = "w1";
    workflow_version = "flow.workflow.v1";
    trigger = sample_created.trigger;
    created_at = "2026-01-01T00:00:00Z";
    updated_at = "2026-01-01T00:00:01Z";
    status = ended TerminalState.succeeded;
    terminal_state = some TerminalState.succeeded;
  };
  events =
      run_created sample_created
      ∷ on_step StepEventType.started "build" none
      ∷ on_step StepEventType.completed "build" build_result
      ∷ on_step StepEventType.started "ship" none
      ∷ on_step StepEventType.completed "ship" build_result
      ∷ finished
      ∷ [];
  step_attempts = ("build", ended_attempt ∷ []) ∷ ("ship", ended_attempt ∷ []) ∷ [];
}

abbrev pub created_world : RunWorld
created_world = record { disk = some ("0" ∷ []); audit = []; ticks = 0; calls = 0 }
