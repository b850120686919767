-- ===== src/Runner/Workflow/Tests.antt =====
-- src/workflow-runner.ts: calls of `runWorkflow` on a run of two steps.
use mathlib.Core.Bool.{false≢true}
use ensen_flow.Runner.Workflow.Refusal.{run_workflow-Refused}
use ensen_flow.Common.{
  inl, inr, eq_iff, ◌≢◌, ℕ, String, ◌≡◌, refl, ◌⊎◌, Option, none, some, List, [], ◌∷◌, ok, err,
  Result,
}
use ensen_flow.RunState.{RunState, TerminalState, ended, AttemptState, AttemptStatus}
use ensen_flow.RunState.Table.{table_codec}
use ensen_flow.RunState.Store.{Disk}
use ensen_flow.Runner.Exec.{Thrown}
use ensen_flow.Runner.Environment.{RunWorld}
use ensen_flow.Runner.Samples.{on_table, two_steps, ended_run, build, ship}
use ensen_flow.Runner.Start.{Texts, assert_existing_run_recoverable}
use ensen_flow.Runner.Start.TakeUp.{RunWorkflowInput}
use ensen_flow.Runner.Start.Recoverable.{Recoverable, assert_existing_run_recoverable-Recoverable}
use ensen_flow.Runner.Checkpoint.{approval_audit_context}
use ensen_flow.RunState.{AttemptStatus}
use ensen_flow.Runner.Workflow.{run_workflow}
use ensen_flow.Runner.Workflow.Laws.{run_workflow-over}

abbrev pub texts : Texts
texts = record { number_text = λ n. "1"; replace_all = λ t p r. t; json = λ v. "json" }

abbrev input : RunWorkflowInput
input = record {
  definition = two_steps;
  run_id = some "r1";
  trigger_context = none;
  existing_run_state_guard = λ s. ok tt;
  recover_approval_required_step_ids = [];
}

abbrev pub alone : ℕ → Disk → Disk
alone n disk = disk

abbrev pub ended_world : RunWorld
ended_world = record {
  disk = some ("0" ∷ "1" ∷ "2" ∷ "3" ∷ "4" ∷ "5" ∷ []);
  audit = [];
  ticks = 0;
  calls = 0;
}

run_workflow-over_example :
    ((e : Thrown) × (run_workflow on_table texts alone input ended_world ≡ (err e, ended_world)))
    ⊎ (run_workflow on_table texts alone input ended_world ≡ (ok ended_run, ended_world))
unfolding ensen_flow.Common.lookup ensen_flow.RunState.Store.read_workflow_run_state
    ensen_flow.RunState.Store.parse_lines ensen_flow.RunState.Table.event_in
    ensen_flow.RunState.Project.project_workflow_run_events
    ensen_flow.RunState.Project.project_events ensen_flow.RunState.Project.project_event
    ensen_flow.RunState.Project.initial_projection
    ensen_flow.RunState.Project.apply_step_attempt_event ensen_flow.Common.insert
    assert_existing_run_recoverable approval_audit_context
run_workflow-over_example =
    run_workflow-over on_table texts alone input ended_world ended_run TerminalState.succeeded refl
      refl

assert_existing_run_recoverable-Recoverable_example : Recoverable ended_run (build ∷ ship ∷ []) []
unfolding assert_existing_run_recoverable ensen_flow.Common.lookup approval_audit_context
assert_existing_run_recoverable-Recoverable_example =
    assert_existing_run_recoverable-Recoverable texts ended_run (build ∷ ship ∷ []) [] refl

-- another workflow, and no id of a run
abbrev asked : RunWorkflowInput
asked = record input { run_id = none; definition = record two_steps { id = "w2" } }

another_workflow : ended_run.run.workflow_id ≢ "w2"
another_workflow e = false≢true ((eq_iff "w1" "w2").1 e)

run_workflow-Refused_example :
    (e : Thrown) × (run_workflow on_table texts alone asked ended_world ≡ (err e, ended_world))
unfolding ensen_flow.Common.lookup ensen_flow.RunState.Store.read_workflow_run_state
    ensen_flow.RunState.Store.parse_lines ensen_flow.RunState.Table.event_in
    ensen_flow.RunState.Project.project_workflow_run_events
    ensen_flow.RunState.Project.project_events ensen_flow.RunState.Project.project_event
    ensen_flow.RunState.Project.initial_projection
    ensen_flow.RunState.Project.apply_step_attempt_event ensen_flow.Common.insert
run_workflow-Refused_example =
    run_workflow-Refused on_table texts alone asked ended_world ended_run refl
      (inl another_workflow)
