-- ===== src/Intake/Tests.antt =====
-- A webhook request that comes again once its run is over.
use ensen_flow.Common.{ℕ, String, false, ◌≡◌, refl, none, some, List, [], ◌∷◌, ok, err}
use ensen_flow.Value.{Value, str, obj, field, end}
use ensen_flow.Hygiene.{Runtime}
use ensen_flow.RunState.{
  Event, run_created, run_completed, TerminalState, RunState, ended, CreatedEvent, CompletedEvent,
}
use ensen_flow.RunState.Table.{table_codec}
use ensen_flow.Definition.{WorkflowDefinition, webhook}
use ensen_flow.Runner.Samples.{on_table, two_steps}
use ensen_flow.Runner.Environment.{RunWorld, Environment}
use ensen_flow.Runner.Workflow.Tests.{texts, alone}
use ensen_flow.Intake.{WebRuntime}
use ensen_flow.Intake.Fingerprint.{create_webhook_run_id}
use ensen_flow.Intake.Consume.{ConsumeOptions, consume_webhook_input}
use ensen_flow.Intake.Laws.{Replays, consume_webhook_input-Replays}

abbrev js : WebRuntime
js = record {
  to_lower_case = λ s. s;
  number_text = λ n. "0";
  iso_of_date = λ s. some s;
  less = λ a b. false;
  json = λ v. "json";
  sha256 = λ s. "f1";
}

abbrev hygiene : Runtime
hygiene = record {
  test = λ p s. false;
  json_parse = λ s. none;
  number_text = λ n. "0";
  json_string = λ s. s;
}

abbrev payload : Value
payload = obj (field "order" (str "seven") end)

abbrev received : String
received = "2026-01-01T00:00:00.000Z"

abbrev orders : WorkflowDefinition
orders = record two_steps { trigger = record { type = webhook "/orders"; idempotency_key = none } }

abbrev options : ConsumeOptions
options = record {
  definition = orders;
  input = obj (
      field "schemaVersion" (str "flow.webhook.input.v1") (
        field "requestId" (str "req-1") (
          field "path" (str "/orders")
            (field "receivedAt" (str received) (field "payload" payload end)))));
  additional_trigger_context = none;
  existing_run_state_guard = λ s. ok tt;
  recover_approval_required_step_ids = [];
}

run_id_made : create_webhook_run_id js "w1" "Req 1!" ≡ "w1-webhook-eq-1-f1"
unfolding create_webhook_run_id
run_id_made = refl

abbrev created : CreatedEvent
created = record {
  run_id = "w1-webhook-req-1-f1";
  workflow_id = "w1";
  workflow_version = "flow.workflow.v1";
  trigger = record {
    type = "webhook";
    received_at = received;
    context = some (
        obj (
          field "requestId" (str "req-1")
            (field "webhook" (obj (field "inputFingerprint" (str "f1") end)) end)));
    idempotency_key = none;
  };
  occurred_at = received;
}

abbrev completed : CompletedEvent
completed = record {
  run_id = "w1-webhook-req-1-f1";
  terminal_state = TerminalState.succeeded;
  occurred_at = received;
  recovery = none;
}

abbrev records : List (String × Event)
records = ("0", run_created created) ∷ ("1", run_completed completed) ∷ []

abbrev environment : Environment
environment = record on_table { codec = table_codec records }

abbrev world : RunWorld
world = record { disk = some ("0" ∷ "1" ∷ []); audit = []; ticks = 0; calls = 0 }

abbrev run : RunState
run = record {
  run = record {
    run_id = "w1-webhook-req-1-f1";
    workflow_id = "w1";
    workflow_version = "flow.workflow.v1";
    trigger = created.trigger;
    created_at = received;
    updated_at = received;
    status = ended TerminalState.succeeded;
    terminal_state = some TerminalState.succeeded;
  };
  step_attempts = [];
  events = run_created created ∷ run_completed completed ∷ [];
}

consume_webhook_input-Replays_example :
    Replays js options run world
      (consume_webhook_input js hygiene environment texts alone options world)
unfolding ensen_flow.Common.lookup ensen_flow.RunState.Store.read_workflow_run_state
    ensen_flow.RunState.Store.parse_lines ensen_flow.RunState.Table.event_in
    ensen_flow.RunState.Project.project_workflow_run_events
    ensen_flow.RunState.Project.project_events ensen_flow.RunState.Project.project_event
    ensen_flow.RunState.Project.initial_projection
    ensen_flow.RunState.Project.apply_step_attempt_event ensen_flow.Common.insert
consume_webhook_input-Replays_example =
    consume_webhook_input-Replays js options hygiene environment texts alone world run
      TerminalState.succeeded refl refl refl

-- the request gets the run back, and nothing is changed
comes_again :
    consume_webhook_input js hygiene environment texts alone options world ≡ (ok run, world)
unfolding consume_webhook_input ensen_flow.Common.lookup
    ensen_flow.RunState.Store.read_workflow_run_state ensen_flow.RunState.Store.parse_lines
    ensen_flow.RunState.Table.event_in ensen_flow.RunState.Project.project_workflow_run_events
    ensen_flow.RunState.Project.project_events ensen_flow.RunState.Project.project_event
    ensen_flow.RunState.Project.initial_projection
comes_again = refl
