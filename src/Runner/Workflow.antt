-- ===== src/Runner/Workflow.antt =====
-- src/workflow-runner.ts: `runWorkflow` on a definition that `validateWorkflowDefinition` accepts.
-- While it waits, other processes may have changed the state file; `others` says how.
pub mod Laws
pub mod Refusal
pub mod Tests
use Prim.Native.String.{◌++◌}
use ensen_flow.Common.{
  ℕ, zero, suc, ◌+◌, String, Bool, true, false, Option, none, some, List, [], ◌∷◌, or_else, is_some,
  if◌then◌else◌, Result, ok, err,
}
use ensen_flow.Runner.Start.TakeUp.{RunWorkflowInput, context_of, take_up}
use ensen_flow.Value.{Value, obj, end}
use ensen_flow.RunState.{RunState, CreatedEvent, IdempotencyMetadata}
use ensen_flow.RunState.StepEvents.{no_records}
use ensen_flow.RunState.Store.{
  StoreError, Disk, not_found, already_exists, bad_stream, read_workflow_run_state,
  create_workflow_run,
}
use ensen_flow.Definition.{WorkflowDefinition, WorkflowStep}
use ensen_flow.Runner.Exec.{Thrown, Exec, pure, raise, lift, ◌>>=◌, ◌>>◌, catch}
use ensen_flow.Runner.Order.{OrderError, cannot_be_ordered, out_of_fuel, order_steps}
use ensen_flow.Runner.Environment.{RunWorld, Environment, AuditType}
use ensen_flow.Runner.Attempt.{now, written, read_current_run_state, write_audit_event}
use ensen_flow.Runner.Steps.{run_steps}
use ensen_flow.Runner.Start.{
  Texts, assert_existing_run_matches, assert_requested_customer_workflow_allowlisted,
  assert_persisted_run_customer_workflow_allowlisted, assert_existing_run_recoverable,
  resolve_idempotency_key, assert_supported_workflow_eip_protocol_version, trigger_text,
}

-- how an attempt to create the run ends
pub data Creation : Type 0 where
  created_new_run : Creation
  -- another process created it; the state, if there is nothing left to do
  competes : Option RunState → Creation

abbrev pub ordered_steps : Result OrderError (List WorkflowStep) → Result Thrown (List WorkflowStep)
ordered_steps (ok steps) = ok steps
ordered_steps (err cannot_be_ordered) =
    err (Thrown.error "workflow definition dependencies cannot be ordered")
ordered_steps (err out_of_fuel) = err Thrown.anything

-- the handler of `readExistingRunState`
abbrev pub existing : Result StoreError RunState → Result Thrown (Option RunState)
existing (ok s) = ok (some s)
existing (err not_found) = ok none
existing (err e) = err (Thrown.store e)

unfoldable pub is_transient_run_creation_read : Thrown → Bool
is_transient_run_creation_read (Thrown.store (bad_stream no_records)) = true
is_transient_run_creation_read _ = false

abbrev pub is_already_exists : Thrown → Bool
is_already_exists (Thrown.store already_exists) = true
is_already_exists _ = false

module _ (env : Environment) (texts : Texts) (others : ℕ → Disk → Disk) where
  unfoldable pub wait : ℕ → Exec RunWorld (Unit {0})
  wait n w = (ok tt, record w { disk = others n w.disk })

  unfoldable pub read_existing_run_state : Exec RunWorld (Option RunState)
  read_existing_run_state w = (existing (read_workflow_run_state env.codec w.disk), w)

  unfoldable pub create_run : CreatedEvent → Exec RunWorld (Unit {0})
  create_run e w = written w (create_workflow_run env.codec e w.disk)

  -- `readCompetingRunState`, with the attempts that are left after this one
  unfoldable pub read_competing_run_state : ℕ → Exec RunWorld RunState
  unfolding is_transient_run_creation_read wait
  read_competing_run_state zero = read_current_run_state env
  read_competing_run_state (suc left) =
      let more = read_competing_run_state left in
      catch (read_current_run_state env)
        (λ e. if is_transient_run_creation_read e then wait (suc left) >> more else raise e)

  module _ (input : RunWorkflowInput) where
    pub created_event : String → Option IdempotencyMetadata → String → String → CreatedEvent
    created_event run_id key received created = record {
      run_id = run_id;
      workflow_id = input.definition.id;
      workflow_version = "flow.workflow.v1";
      trigger = record {
        type = trigger_text input.definition.trigger.type;
        received_at = received;
        context = some (context_of input);
        idempotency_key = key;
      };
      occurred_at = created;
    }

    -- the `catch` around `createWorkflowRun`
    unfoldable pub compete :
        String → Option IdempotencyMetadata → List WorkflowStep → Thrown → Exec RunWorld Creation
    unfolding read_competing_run_state take_up
    compete run_id key ordered e =
        if is_already_exists e
        then (do
          s ← read_competing_run_state 4
          over ← lift (take_up texts input run_id key ordered s)
          pure (competes over))
        else raise e

    -- the `try` around `createWorkflowRun`
    unfoldable pub create_or_compete :
        String
        → Option IdempotencyMetadata
        → List WorkflowStep
        → String
        → String
        → Exec RunWorld Creation
    unfolding create_run compete created_event
    create_or_compete run_id key ordered received created =
        catch (create_run (created_event run_id key received created) >> pure created_new_run)
          (compete run_id key ordered)

    -- `if (createdNewRun)`; the state, if there is nothing left to do
    unfoldable pub log_creation : String → Creation → Exec RunWorld (Option RunState)
    log_creation created (competes over) = pure over
    log_creation created created_new_run = do
      write_audit_event env (record {
        type = AuditType.workflow_started;
        occurred_at = created;
        step = none;
        retry = none;
        outcome = none;
        approval = none;
      })
      pure none

    -- the branch of a run that does not exist
    unfoldable pub start_new_run :
        String → Option IdempotencyMetadata → List WorkflowStep → Exec RunWorld (Option RunState)
    unfolding assert_requested_customer_workflow_allowlisted wait create_or_compete log_creation
    start_new_run run_id key ordered = do
      lift (assert_requested_customer_workflow_allowlisted input.definition (context_of input))
      received ← now env
      created ← now env
      wait 0
      creation ← create_or_compete run_id key ordered received created
      log_creation created creation

    -- the branches on `existingState`
    unfoldable pub begin_run :
        String → Option IdempotencyMetadata → List WorkflowStep → Exec RunWorld (Option RunState)
    unfolding read_existing_run_state take_up start_new_run
    begin_run run_id key ordered = do
      state ← read_existing_run_state
      elim state [
        | some s ↦ lift (take_up texts input run_id key ordered s)
        | none ↦ start_new_run run_id key ordered
      ]

    -- `input.runId ?? ...`
    unfoldable pub run_id_for : Option IdempotencyMetadata → String
    run_id_for key =
        or_else input.run_id
          (input.definition.id ++ ("-" ++ elim key [ none ↦ "local-run" | some k ↦ k.key ]))

    unfoldable pub run_workflow : Exec RunWorld RunState
    unfolding assert_supported_workflow_eip_protocol_version order_steps resolve_idempotency_key
        run_id_for begin_run run_steps
    run_workflow = do
      lift (assert_supported_workflow_eip_protocol_version texts input.definition.protocol_version)
      ordered ← lift (ordered_steps (order_steps input.definition.steps))
      key ← lift (
          resolve_idempotency_key texts input.definition.trigger.idempotency_key input.definition
            (context_of input))
      over ← begin_run (run_id_for key) key ordered
      elim over [
        | some s ↦ pure s
        | none ↦
            run_steps env input.definition (run_id_for key) input.recover_approval_required_step_ids
              ordered
      ]
