-- ===== src/Intake/Consume.antt =====
-- src/webhook-intake.ts: `consumeWebhookInput`, on a definition that `validateWorkflowDefinition`
-- accepts; the file is the one of the run. Other processes may change it between its two reads.
use Prim.Native.String.{◌++◌}
use ensen_flow.Common.{
  ℕ, String, not, Option, none, some, List, [], ◌∷◌, ◌++◌ as ◌++ᴸ◌, ◌==◌, if◌then◌else◌, Result, ok,
  err, ◌>>◌ as ◌>>ᴿ◌, require,
}
use ensen_flow.Common.Codes.{codes}
use ensen_flow.Value.{Value, str, obj, Fields, end, field, entries, from_entries, one_of}
use ensen_flow.Hygiene.{
  Finding, Runtime, find_unsafe_workflow_artifact_value, format_unsafe_workflow_artifact_diagnostic,
}
use ensen_flow.RunState.{RunState}
use ensen_flow.RunState.Store.{Disk}
use ensen_flow.Definition.{WorkflowDefinition, TriggerType, manual, schedule, webhook}
use ensen_flow.Runner.Exec.{Thrown, Exec, lift, ◌>>=◌, ◌>>◌}
use ensen_flow.Runner.Environment.{RunWorld, Environment}
use ensen_flow.Runner.Start.{Texts}
use ensen_flow.Runner.Start.TakeUp.{RunWorkflowInput}
use ensen_flow.Runner.Workflow.{wait, read_existing_run_state, run_workflow}
use ensen_flow.Intake.{
  WebRuntime, WebhookInput, Checked, is_webhook_path, reject_credential_shaped_value,
  normalize_webhook_input,
}
use ensen_flow.Intake.Fingerprint.{
  headers_field, create_webhook_input_fingerprint, existing_fingerprint, create_webhook_run_id,
}

-- `ConsumeWebhookInputOptions`, without what the environment has
pub record ConsumeOptions : Type 0 where
  pub definition : WorkflowDefinition
  pub input : Value
  pub additional_trigger_context : Option Fields
  pub existing_run_state_guard : RunState → Result Thrown (Unit {0})
  pub recover_approval_required_step_ids : List String

-- a `WebhookIntakeRejectedError`
abbrev pub rejected : {A : Type 0} → Result String A → Result Thrown A
rejected (ok a) = ok a
rejected (err message) = err (Thrown.error message)

unfoldable pub path_of : TriggerType → Result String String
unfolding is_webhook_path codes
path_of (webhook path) =
    if is_webhook_path (codes path)
    then ok path
    else err "webhook trigger.path must be a local absolute path with stable kebab-case segments"
path_of manual = err "consumeWebhookInput requires a webhook trigger workflow"
path_of (schedule cron) = err "consumeWebhookInput requires a webhook trigger workflow"

unfoldable pub reject_keys : List (String × Value) → Checked
reject_keys [] = ok tt
reject_keys ((key, v) ∷ fs) =
    require (not (one_of ("requestId" ∷ "webhook" ∷ []) key))
      (key ++ " is reserved for normalized webhook trigger metadata")
    >>ᴿ reject_keys fs

unfoldable pub reject_reserved_additional_trigger_context_keys : Option Fields → Checked
unfolding reject_keys
reject_reserved_additional_trigger_context_keys none = ok tt
reject_reserved_additional_trigger_context_keys (some fs) = reject_keys (entries fs)

abbrev reject_found : Option Finding → Checked
reject_found none = ok tt
reject_found (some finding) = err (format_unsafe_workflow_artifact_diagnostic finding)

unfoldable pub reject_unsafe_webhook_artifact_values : Runtime → Value → String → Checked
unfolding find_unsafe_workflow_artifact_value format_unsafe_workflow_artifact_diagnostic
reject_unsafe_webhook_artifact_values hygiene v path =
    reject_found (find_unsafe_workflow_artifact_value hygiene v path)

abbrev additional : Option Fields → List (String × Value)
additional none = []
additional (some fs) = entries fs

abbrev pub same_fingerprint : Option String → String → Checked
same_fingerprint none fingerprint =
    err "webhook requestId reuse must keep normalized input unchanged"
same_fingerprint (some existing) fingerprint =
    require (existing == fingerprint) "webhook requestId reuse must keep normalized input unchanged"

module _ (js : WebRuntime) (hygiene : Runtime) where
  unfoldable pub assert_webhook_input_matches_state : RunState → String → Checked
  unfolding existing_fingerprint
  assert_webhook_input_matches_state s fingerprint =
      same_fingerprint (existing_fingerprint js s) fingerprint

  -- `options.existingRunStateGuard` after the comparison of the fingerprints
  abbrev pub guard_of : ConsumeOptions → String → RunState → Result Thrown (Unit {0})
  guard_of options fingerprint s =
      rejected (assert_webhook_input_matches_state s fingerprint)
      >>ᴿ options.existing_run_state_guard s

  -- the checks on the run that is there, or of a new payload
  unfoldable pub check_existing :
      ConsumeOptions → WebhookInput → String → Option RunState → Result Thrown (Unit {0})
  unfolding assert_webhook_input_matches_state reject_credential_shaped_value
      reject_unsafe_webhook_artifact_values
  check_existing options input fingerprint (some s) = guard_of options fingerprint s
  check_existing options input fingerprint none = rejected (
      reject_credential_shaped_value js input.payload "webhook input payload"
      >>ᴿ reject_unsafe_webhook_artifact_values hygiene input.payload "webhook input payload")

  -- what `runWorkflow` is called with
  unfoldable pub webhook_run_input : ConsumeOptions → WebhookInput → String → RunWorkflowInput
  unfolding assert_webhook_input_matches_state create_webhook_run_id
  webhook_run_input options input fingerprint = record {
    definition = options.definition;
    run_id = some (create_webhook_run_id js options.definition.id input.request_id);
    trigger_context = some (
        obj (
          from_entries (
            additional options.additional_trigger_context
            ++ᴸ ("requestId", str input.request_id)
              ∷ (
                "webhook",
                obj (
                    field "inputFingerprint" (str fingerprint) (
                      field "path" (str input.path) (
                        field "receivedAt" (str input.received_at)
                          (headers_field js input.headers (field "payload" input.payload end))))),
              )
              ∷ [])));
    existing_run_state_guard = guard_of options fingerprint;
    recover_approval_required_step_ids = options.recover_approval_required_step_ids;
  }

  module _ (env : Environment) (texts : Texts) (others : ℕ → Disk → Disk) where
    -- once the input is normalized
    unfoldable pub consume_normalized : ConsumeOptions → WebhookInput → Exec RunWorld RunState
    unfolding create_webhook_input_fingerprint check_existing webhook_run_input
        reject_reserved_additional_trigger_context_keys read_existing_run_state wait run_workflow
    consume_normalized options input = do
      let fingerprint = create_webhook_input_fingerprint js input
      state ← read_existing_run_state env texts others
      lift (check_existing options input fingerprint state)
      lift (
          rejected
            (reject_reserved_additional_trigger_context_keys options.additional_trigger_context))
      wait env texts others 5
      run_workflow env texts others (webhook_run_input options input fingerprint)

    unfoldable pub consume_webhook_input : ConsumeOptions → Exec RunWorld RunState
    unfolding path_of normalize_webhook_input consume_normalized
    consume_webhook_input options = do
      path ← lift (rejected (path_of options.definition.trigger.type))
      input ← lift (rejected (normalize_webhook_input js options.input path))
      consume_normalized options input
