-- ===== src/Runner/Start.antt =====
-- src/workflow-runner.ts: what `runWorkflow` looks at before its loops: the key of the trigger, and
-- whether a run that the state file holds may go on.
pub mod Recoverable
pub mod TakeUp
use Prim.Native.String.{◌++◌}
use native.Mathlib.Decide.{ℕ_discrete}
use ensen_flow.Common.{
  ℕ, String, Bool, true, false, not, ◌&&◌, ◌||◌, Option, none, some, List, [], ◌∷◌, ◌==◌, any,
  is_some, or_else, last, Result, ok, err, ◌>>=◌, ◌>>◌, require, if◌then◌else◌,
}
use ensen_flow.Value.{
  Number, nat, Value, undefined, null, bool, num, str, obj, other, end, get, has, record_of,
}
use ensen_flow.RunState.StepEvents.{is_inherited}
use ensen_flow.RunState.{
  AttemptStatus, AttemptState, StepAttempts, RunState, IdempotencyMetadata, IdempotencySource,
}
use ensen_flow.Definition.{
  IdempotencyKeyDefinition, TriggerType, WorkflowStep, WorkflowDefinition, manual, schedule,
  webhook,
}
use ensen_flow.CustomerWorkflow.{property}
use ensen_flow.CustomerWorkflow.Allowlist.{
  AllowlistError, allowlist_message, assert_customer_workflow_allowlisted,
}
use ensen_flow.Runner.Exec.{Thrown}
use ensen_flow.Runner.Steps.{latest_step_attempt}

-- `String(n)`, `text.replaceAll(pattern, replacement)` and `JSON.stringify`
pub record Texts : Type 0 where
  pub number_text : Number → String
  pub replace_all : String → String → String → String
  pub json : Value → String

abbrev pub trigger_text : TriggerType → String
trigger_text manual = "manual"
trigger_text (schedule cron) = "schedule"
trigger_text (webhook path) = "webhook"

-- the errors that `assertExistingRunRecoverable` throws
pub data RecoverError : Type 0 where
  after_incomplete unknown_step : (step_id : String) → RecoverError
  active approval_needed blocked_step repair_needed failed_step :
      (step_id : String) (attempt : ℕ) → RecoverError

-- `a === b` on the keys' JSON; a key has its fields in the order in which the runner writes them
abbrev pub same_source : IdempotencySource → IdempotencySource → Bool
same_source IdempotencySource.input IdempotencySource.input = true
same_source IdempotencySource.workflow IdempotencySource.workflow = true
same_source IdempotencySource.static IdempotencySource.static = true
same_source _ _ = false

unfoldable pub same_key : Option IdempotencyMetadata → Option IdempotencyMetadata → Bool
same_key none none = true
same_key (some a) (some b) = same_source a.source b.source && (a.key == b.key)
same_key _ _ = false

unfoldable pub assert_existing_run_matches :
    RunState → WorkflowDefinition → String → Option IdempotencyMetadata → Result Thrown (Unit {0})
unfolding same_key
assert_existing_run_matches s d run_id key = do
  require (s.run.workflow_id == d.id)
      (Thrown.error "existing workflow run state has a different workflowId")
  require (same_key s.run.trigger.idempotency_key key)
      (Thrown.error "existing workflow run state has a different idempotency key")
  require (s.run.run_id == run_id)
      (Thrown.error "existing workflow run state has a different runId")

abbrev allowlisted : Result AllowlistError (Unit {0}) → Result Thrown (Unit {0})
allowlisted (ok t) = ok t
allowlisted (err e) = err (Thrown.error (allowlist_message e))

unfoldable pub assert_requested_customer_workflow_allowlisted :
    WorkflowDefinition → Value → Result Thrown (Unit {0})
unfolding assert_customer_workflow_allowlisted allowlist_message
assert_requested_customer_workflow_allowlisted d context =
    allowlisted (assert_customer_workflow_allowlisted d context)

unfoldable pub assert_persisted_run_customer_workflow_allowlisted :
    RunState → WorkflowDefinition → Result Thrown (Unit {0})
unfolding assert_requested_customer_workflow_allowlisted
assert_persisted_run_customer_workflow_allowlisted s d =
    assert_requested_customer_workflow_allowlisted d (or_else s.run.trigger.context (obj end))

abbrev pub succeeded_latest : Option AttemptState → Bool
succeeded_latest none = false
succeeded_latest (some a) = elim a.status [ AttemptStatus.succeeded ↦ true | _ ↦ false ]

-- a round of the first loop of `assertExistingRunRecoverable`, with `sawIncompleteStep`
unfoldable pub keeps_order : Bool → String → Option AttemptState → Result RecoverError Bool
keeps_order saw id latest =
    if succeeded_latest latest
    then if saw then err (after_incomplete id) else ok saw
    else if is_some latest && saw
    then err (after_incomplete id)
    else ok true

-- one round of the second loop, past the search for the step
unfoldable pub may_go_on :
    List String → String → Option AttemptState → Result RecoverError (Unit {0})
may_go_on recover id none = ok tt
may_go_on recover id (some a) = elim a.status [
  | AttemptStatus.running ↦ err (active id a.attempt)
  | AttemptStatus.approval_required ↦
      require (any (λ i. i == id) recover) (approval_needed id a.attempt)
  | AttemptStatus.blocked ↦ err (blocked_step id a.attempt)
  | AttemptStatus.manual_repair_needed ↦ err (repair_needed id a.attempt)
  | AttemptStatus.failed ↦ err (failed_step id a.attempt)
  | _ ↦ ok tt
]

-- The second loop. `Object.entries` is in another order where an id reads as an integer; that
-- order only chooses the error.
unfoldable pub entries_go_on :
    List WorkflowStep → List String → StepAttempts → Result RecoverError (Unit {0})
unfolding may_go_on
entries_go_on ordered recover [] = ok tt
entries_go_on ordered recover ((id, attempts) ∷ es) = do
  require (any (λ (s : WorkflowStep). s.id == id) ordered) (unknown_step id)
  may_go_on recover id (last attempts)
  entries_go_on ordered recover es

module _ (texts : Texts) where
  unfoldable pub recover_message : RecoverError → String
  recover_message (after_incomplete id) =
      "existing workflow run state references step "
      ++ (id ++ " after an incomplete earlier step; manual repair is required before recovery")
  recover_message (unknown_step id) =
      "existing workflow run state references unknown step "
      ++ (id ++ "; manual repair is required before recovery")
  recover_message (active id n) =
      "existing workflow run state has active step attempt "
      ++ (id
          ++ ("#" ++ (texts.number_text (nat n) ++ "; manual repair is required before recovery")))
  recover_message (approval_needed id n) =
      "existing workflow run state has approval-required step "
      ++ (id
          ++ ("#" ++ (texts.number_text (nat n) ++ "; human approval is required before recovery")))
  recover_message (blocked_step id n) =
      "existing workflow run state has blocked step "
      ++ (id
          ++ ("#"
              ++ (texts.number_text (nat n) ++ "; operator review is required before recovery")))
  recover_message (repair_needed id n) =
      "existing workflow run state has manual-repair-needed step "
      ++ (id
          ++ ("#" ++ (texts.number_text (nat n) ++ "; manual repair is required before recovery")))
  recover_message (failed_step id n) =
      "existing workflow run state has failed non-terminal step "
      ++ (id
          ++ ("#" ++ (texts.number_text (nat n) ++ "; manual repair is required before recovery")))

  pub recovered : {A : Type 0} → Result RecoverError A → Result Thrown A
  unfolding recover_message
  recovered (ok a) = ok a
  recovered (err e) = err (Thrown.error (recover_message e))

  -- The first loop: it looks up the latest attempt of a step, which may throw, and then tests it.
  unfoldable pub in_order : StepAttempts → Bool → List WorkflowStep → Result Thrown (Unit {0})
  unfolding latest_step_attempt keeps_order recovered
  in_order m saw [] = ok tt
  in_order m saw (s ∷ ss) = do
    latest ← latest_step_attempt s.id m
    saw_now ← recovered (keeps_order saw s.id latest)
    in_order m saw_now ss

  unfoldable pub assert_existing_run_recoverable :
      RunState → List WorkflowStep → List String → Result Thrown (Unit {0})
  unfolding in_order entries_go_on recovered
  assert_existing_run_recoverable s ordered recover = do
    in_order s.step_attempts false ordered
    recovered (entries_go_on ordered recover s.step_attempts)

  scalar_text : Value → Option String
  scalar_text (str s) = some s
  scalar_text (num n) = some (texts.number_text n)
  scalar_text _ = none

  unfoldable pub resolve_scheduled_for : Value → String
  unfolding scalar_text
  resolve_scheduled_for context = elim (record_of (property "schedule" context)) [
    | none ↦ ""
    | some fs ↦ or_else (scalar_text (get fs "scheduledFor")) ""
  ]

  unfoldable pub resolve_trigger_key : Value → String
  unfolding scalar_text
  resolve_trigger_key context = or_else (scalar_text (property "requestId" context)) ""

  -- `required !== false`
  abbrev is_required : Option Bool → Bool
  is_required none = true
  is_required (some b) = b

  missing : String → Option Bool → Result Thrown (Option IdempotencyMetadata)
  missing field required =
      if is_required required
      then err (Thrown.error ("required idempotency input " ++ (field ++ " is missing")))
      else ok none

  abbrev keyed : IdempotencySource → String → Result Thrown (Option IdempotencyMetadata)
  keyed source key = ok (some (record { source = source; key = key }))

  input_key : String → Option Bool → Value → Result Thrown (Option IdempotencyMetadata)
  unfolding missing
  input_key field required undefined = missing field required
  input_key field required null = missing field required
  input_key field required (str s) =
      if s == "" then missing field required else keyed IdempotencySource.input s
  input_key field required (num n) = keyed IdempotencySource.input (texts.number_text n)
  input_key field required (bool true) = keyed IdempotencySource.input "true"
  input_key field required (bool false) = keyed IdempotencySource.input "false"
  input_key field required _ =
      err (Thrown.error ("idempotency input " ++ (field ++ " must be a scalar value")))

  -- `triggerContext[field]`: a name that every object inherits finds a function or an object
  abbrev field_of : String → Value → Value
  field_of field context = elim (record_of context) [
    | none ↦ undefined
    | some fs ↦
        if has fs field then get fs field else if is_inherited field then other else undefined
  ]

  -- with `step` undefined, as `runWorkflow` calls it
  unfoldable pub resolve_idempotency_key :
      Option IdempotencyKeyDefinition
      → WorkflowDefinition
      → Value
      → Result Thrown (Option IdempotencyMetadata)
  unfolding input_key resolve_scheduled_for resolve_trigger_key is_inherited
  resolve_idempotency_key none d context = ok none
  resolve_idempotency_key (some (IdempotencyKeyDefinition.static value)) d context =
      keyed IdempotencySource.static value
  resolve_idempotency_key (some (IdempotencyKeyDefinition.input field required)) d context =
      input_key field required (field_of field context)
  resolve_idempotency_key (some (IdempotencyKeyDefinition.workflow template)) d context =
      let replace = texts.replace_all in
      let t1 = replace template "{workflow.id}" d.id in
      let t2 = replace t1 "{step.id}" "" in
      let t3 = replace t2 "{trigger.type}" (trigger_text d.trigger.type) in
      let t4 = replace t3 "{trigger.scheduledFor}" (resolve_scheduled_for context) in
      let t5 = replace t4 "{trigger.idempotencyKey}" (resolve_trigger_key context) in
      keyed IdempotencySource.workflow t5

  unfoldable pub assert_supported_workflow_eip_protocol_version :
      Option String → Result Thrown (Unit {0})
  assert_supported_workflow_eip_protocol_version none = ok tt
  assert_supported_workflow_eip_protocol_version (some v) = require (v == "0.2.0") (
      Thrown.error (
        "unsupported EIP protocolVersion "
        ++ (texts.json (str v)
            ++ "; fail-closed until an explicit Ensen-flow connector boundary supports the new EIP major version")))
