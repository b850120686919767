-- ===== src/RunState/Recovery.antt =====
-- src/workflow-run-state.ts: `inspectWorkflowRunRecovery` and `stopWorkflowRunRecovery`.
-- A diagnostic is one constructor for each message; `history_preserved` is always `true` and is
-- left out. `sanitizeRecoveryDiagnostic` rewrites the text of an error and is left out too.
pub mod Laws
pub mod Stop
use ensen_flow.RunState.Report.{no_active_attempt}
use ensen_flow.RunState.Report.{resume_from_projected_state}
use ensen_flow.RunState.Report.{unreadable}
use ensen_flow.RunState.Report.{has_failed_attempts}
use ensen_flow.RunState.Report.{is_terminal}
use ensen_flow.RunState.Report.{do_not_replay}
use ensen_flow.RunState.Report.{has_approval_required_attempts}
use ensen_flow.RunState.Report.{repair_jsonl_before_recovery}
use ensen_flow.RunState.Report.{file_is_missing}
use ensen_flow.RunState.Report.{has_blocked_attempts}
use ensen_flow.RunState.Report.{has_active_attempts}
use ensen_flow.RunState.Report.{operator_review_required}
use ensen_flow.Common.{
  ℕ, String, Bool, true, false, ◌&&◌, ◌||◌, not, Option, none, some, List, [], ◌∷◌, ◌++◌, ◌==◌, ltb,
  if◌then◌else◌, length, last, any, Result, ok, err, ◌>>=◌, is_some,
}
use ensen_flow.RunState.{
  RunStatus, TerminalState, AttemptStatus, AttemptState, StepAttempts, RunState, RunRecord, Event,
  run_completed,
}
use ensen_flow.RunState.StepEvents.{is_running}
use ensen_flow.RunState.Store.{
  StoreError, not_found, Codec, Disk, read_workflow_run_state, append_workflow_run_event,
}
use ensen_flow.RunState.Report.{
  Classification, Action, Diagnostic, RunSummary, StepAttemptSummary, Report,
  summarize_recovery_run, summarize_attempts, summarize_active_step_attempts,
}

-- `attempts.at(-1)?.status`, put to a test that fails on `undefined`
abbrev pub latest_is : (AttemptStatus → Bool) → Option AttemptState → Bool
latest_is p none = false
latest_is p (some a) = p a.status

unfoldable pub any_latest : (AttemptStatus → Bool) → StepAttempts → Bool
any_latest p [] = false
any_latest p ((step_id, as') ∷ m) = latest_is p (last as') || any_latest p m

unfoldable pub is_blocked : AttemptStatus → Bool
is_blocked AttemptStatus.blocked = true
is_blocked _ = false

unfoldable pub is_approval_required : AttemptStatus → Bool
is_approval_required AttemptStatus.approval_required = true
is_approval_required _ = false

-- `["failed", "manual-repair-needed"].includes(status)`
unfoldable pub is_failed_or_manual : AttemptStatus → Bool
is_failed_or_manual AttemptStatus.failed = true
is_failed_or_manual AttemptStatus.manual_repair_needed = true
is_failed_or_manual _ = false

abbrev pub is_failed_state : Option TerminalState → Bool
is_failed_state (some TerminalState.failed) = true
is_failed_state _ = false

-- the report of a state that was read, apart from its action and its diagnostic
abbrev pub report_of :
    RunState → Classification → Action → Diagnostic → Option (List StepAttemptSummary) → Report
report_of s c a d active = record {
  classification = c;
  action = a;
  diagnostic = d;
  run = some (summarize_recovery_run s.run);
  event_count = some (length s.events);
  active_step_attempts = active;
}

unfoldable pub inspect_open : RunState → Report
unfolding summarize_active_step_attempts any_latest is_blocked is_approval_required
    is_failed_or_manual summarize_recovery_run
inspect_open s =
    let active = summarize_active_step_attempts s.step_attempts in
    if ltb 0 (length active)
    then report_of s Classification.manual_repair_needed operator_review_required
        has_active_attempts (some active)
    else if any_latest is_approval_required s.step_attempts
    then report_of s Classification.approval_required operator_review_required
        has_approval_required_attempts none
    else if any_latest is_blocked s.step_attempts
    then report_of s Classification.blocked operator_review_required has_blocked_attempts none
    else if any_latest is_failed_or_manual s.step_attempts
    then report_of s Classification.manual_repair_needed operator_review_required
        has_failed_attempts none
    else report_of s Classification.recoverable resume_from_projected_state no_active_attempt none

pub inspect_terminal : RunState → Option TerminalState → Report
unfolding inspect_open any_latest is_blocked summarize_recovery_run
inspect_terminal s none = inspect_open s
inspect_terminal s (some t) =
    if is_failed_state (some t) && any_latest is_blocked s.step_attempts
    then report_of s Classification.blocked operator_review_required has_blocked_attempts none
    else report_of s Classification.terminal do_not_replay (is_terminal s.run.run_id t) none

-- the body of `inspectWorkflowRunRecovery` after its `try`
unfoldable pub inspect_state : RunState → Report
unfolding inspect_terminal
inspect_state s = inspect_terminal s s.run.terminal_state

unfoldable pub inspect_read : Result StoreError RunState → Report
inspect_read (ok s) = inspect_state s
inspect_read (err not_found) = record {
  classification = Classification.manual_repair_needed;
  action = operator_review_required;
  diagnostic = file_is_missing;
  run = none;
  event_count = none;
  active_step_attempts = none;
}
inspect_read (err e) = record {
  classification = Classification.corrupt;
  action = repair_jsonl_before_recovery;
  diagnostic = unreadable e;
  run = none;
  event_count = none;
  active_step_attempts = none;
}

pub data StopError : Type 0 where
  corrupt_state no_run : Diagnostic → StopError
  stop_run_id_mismatch : StopError
  append_failed : StoreError → StopError

pub record StopInput : Type 0 where
  pub run_id : String
  pub stopped_at : String

abbrev pub is_corrupt : Classification → Bool
is_corrupt Classification.corrupt = true
is_corrupt _ = false

abbrev pub is_terminal_class : Classification → Bool
is_terminal_class Classification.terminal = true
is_terminal_class _ = false

abbrev pub stop_event : StopInput → Event
stop_event input = run_completed (record {
  run_id = input.run_id;
  terminal_state = TerminalState.canceled;
  occurred_at = input.stopped_at;
  recovery = none;
})

module _ (codec : Codec) where
  unfoldable pub inspect_workflow_run_recovery : Disk → Report
  inspect_workflow_run_recovery disk = inspect_read (read_workflow_run_state codec disk)

  -- the append and the second inspection
  unfoldable pub stop_run : StopInput → Disk → Result StopError (Report × Disk)
  stop_run input disk = elim (append_workflow_run_event codec (stop_event input) disk) [
    | ok disk' ↦ ok (inspect_workflow_run_recovery disk', disk')
    | err e ↦ err (append_failed e)
  ]

  stop_with : StopInput → Disk → Report → Option RunSummary → Result StopError (Report × Disk)
  unfolding stop_run
  stop_with input disk report none = err (no_run report.diagnostic)
  stop_with input disk report (some run) =
      if not (run.run_id == input.run_id)
      then err stop_run_id_mismatch
      else if is_terminal_class report.classification || is_some run.terminal_state
      then ok (report, disk)
      else stop_run input disk

  unfoldable pub stop_workflow_run_recovery : StopInput → Disk → Result StopError (Report × Disk)
  unfolding stop_with
  stop_workflow_run_recovery input disk =
      let report = inspect_workflow_run_recovery disk in
      if is_corrupt report.classification
      then err (corrupt_state report.diagnostic)
      else stop_with input disk report report.run
