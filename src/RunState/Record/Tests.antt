-- ===== src/RunState/Record/Tests.antt =====
-- src/workflow-run-state.ts: runs of `validateWorkflowRunEvent` on small records.
use ensen_flow.Common.{String, ◌≡◌, refl, true, false, none, some, List, ok, err, is_blank, lookup}
use ensen_flow.Value.{Value, Fields, field, end, str, num, nat, bool, obj, record_of}
use ensen_flow.RunState.Record.{
  Checks, is_recovery_state, is_recovery_decision, validate_recovery_decision_metadata,
  validate_retry_metadata, validate_step_attempt, reject_unsafe_workflow_artifact_values,
  validate_workflow_run_event,
}
use ensen_flow.Common.Codes.{text_length}
use ensen_flow.Hygiene.{parse_json_formatted_container, classify_unsafe_workflow_artifact_string}
use ensen_flow.Timestamps.{is_strict_iso_timestamp}
use ensen_flow.RunState.Record.Shape.{IsEvent}
use ensen_flow.RunState.Record.Shape.Accepted.{validate_workflow_run_event-IsEvent}

-- every date can be parsed, and no value is unsafe
abbrev lenient : Checks
lenient = record {
  parses_date = λ s. true;
  js = record {
    test = λ p s. false;
    json_parse = λ s. none;
    number_text = λ n. "0";
    json_string = λ s. s;
  };
  skips_hygiene = false;
}

abbrev step_fields : String → Fields → Fields
step_fields type rest = field "type" (str type) (
    field "runId" (str "r1") (
      field "stepId" (str "build")
        (field "attempt" (num (nat 1)) (field "occurredAt" (str "2026-01-01T00:00:01Z") rest))))

abbrev failed : Value
failed = obj (
    step_fields "step.attempt.failed" (
      field "retry" (obj (field "retryable" (bool true) end)) (
        field "recovery"
          (obj (
            field "state" (str "blocked")
              (field "decision" (str "block-run") (field "reason" (str "blocked") end))))
          end)))

accepts : validate_workflow_run_event lenient failed ≡ ok tt
unfolding validate_workflow_run_event validate_step_attempt validate_retry_metadata
    validate_recovery_decision_metadata is_recovery_state is_recovery_decision
    reject_unsafe_workflow_artifact_values is_blank lookup is_strict_iso_timestamp text_length
    parse_json_formatted_container classify_unsafe_workflow_artifact_string
accepts = refl

validate_workflow_run_event-IsEvent_example :
    (fs : List (String × Value)) × (record_of failed ≡ some fs) × IsEvent lenient fs
validate_workflow_run_event-IsEvent_example =
    validate_workflow_run_event-IsEvent lenient failed accepts

rejects_result :
    validate_workflow_run_event lenient
      (obj (step_fields "step.attempt.started" (field "result" (obj end) end)))
    ≡ err "result is only allowed on terminal step attempt events"
unfolding validate_workflow_run_event validate_step_attempt is_blank lookup is_strict_iso_timestamp
rejects_result = refl
