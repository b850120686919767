-- ===== src/RunState/Report.antt =====
-- src/workflow-run-state.ts: the recovery report and the summaries in it.
use ensen_flow.Common.{ℕ, String, Option, List, [], ◌∷◌, ◌++◌, if◌then◌else◌}
use ensen_flow.RunState.{
  RunStatus, TerminalState, AttemptStatus, AttemptState, StepAttempts, RunRecord,
}
use ensen_flow.RunState.StepEvents.{is_running}
use ensen_flow.RunState.Store.{StoreError}

pub data Classification : Type 0 where
  recoverable terminal approval_required blocked corrupt manual_repair_needed : Classification

pub data Action : Type 0 where
  resume_from_projected_state do_not_replay repair_jsonl_before_recovery operator_review_required :
      Action

pub data Diagnostic : Type 0 where
  file_is_missing : Diagnostic
  unreadable : StoreError → Diagnostic
  has_blocked_attempts : Diagnostic
  is_terminal : (run_id : String) → TerminalState → Diagnostic
  has_active_attempts has_approval_required_attempts has_failed_attempts no_active_attempt :
      Diagnostic

pub record RunSummary : Type 0 where
  pub run_id : String
  pub workflow_id : String
  pub workflow_version : String
  pub status : RunStatus
  pub terminal_state : Option TerminalState
  pub created_at : String
  pub updated_at : String

pub record StepAttemptSummary : Type 0 where
  pub step_id : String
  pub attempt : ℕ
  pub status : AttemptStatus
  pub started_at : Option String

pub record Report : Type 0 where
  pub classification : Classification
  pub action : Action
  pub diagnostic : Diagnostic
  pub run : Option RunSummary
  pub event_count : Option ℕ
  pub active_step_attempts : Option (List StepAttemptSummary)

unfoldable pub summarize_recovery_run : RunRecord → RunSummary
summarize_recovery_run run = record {
  run_id = run.run_id;
  workflow_id = run.workflow_id;
  workflow_version = run.workflow_version;
  status = run.status;
  terminal_state = run.terminal_state;
  created_at = run.created_at;
  updated_at = run.updated_at;
}

unfoldable pub summarize_attempts : String → List AttemptState → List StepAttemptSummary
unfolding is_running
summarize_attempts step_id [] = []
summarize_attempts step_id (a ∷ as') =
    let rest = summarize_attempts step_id as' in
    if is_running a.status
    then record {
      step_id = step_id;
      attempt = a.attempt;
      status = a.status;
      started_at = a.started_at;
    }
      ∷ rest
    else rest

unfoldable pub summarize_active_step_attempts : StepAttempts → List StepAttemptSummary
unfolding summarize_attempts
summarize_active_step_attempts [] = []
summarize_active_step_attempts ((step_id, as') ∷ m) =
    summarize_attempts step_id as' ++ summarize_active_step_attempts m
