-- ===== src/RunState/Store.antt =====
-- src/workflow-run-state.ts: the state file, and `createWorkflowRun`, `readWorkflowRunState`,
-- `appendWorkflowRunEvent` on it. A `Disk` is what stands at the one path that a call is given:
-- nothing, or a file, by its lines. Failures of the disk other than ENOENT and EEXIST are left out.
-- An append holds the lock of its path (`withStatePathAppendLock`) from its read to its write, which
-- keeps out the other appends of its process; each call here is one step, so that what another process
-- writes between them is left out.
pub mod Laws
pub mod Reachable
pub mod Lasting
use ensen_flow.Common.{
  ℕ, ◌+◌, String, Bool, true, not, Option, none, some, List, [], ◌∷◌, ◌++◌, ◌≡◌, ◌==◌, is_some,
  Result, ok, err, ◌>>=◌, ◌>>◌, require, if◌then◌else◌,
}
use ensen_flow.RunState.{Event, run_created, run_id_of, RunState, CreatedEvent}
use ensen_flow.RunState.Project.{project_workflow_run_events}
use ensen_flow.RunState.StepEvents.{StateError}

pub data StoreError : Type 0 where
  -- the file system's ENOENT and EEXIST
  not_found already_exists : StoreError
  -- `parseWorkflowRunEvents` or `validateWorkflowRunEvent` throws
  malformed : (line : ℕ) (message : String) → StoreError
  -- `projectWorkflowRunEvents` throws
  bad_stream : StateError → StoreError
  -- the messages of `appendWorkflowRunEvent`
  missing_run_state append_run_id_mismatch append_to_completed : StoreError

-- What the store uses of JSON and of `validateWorkflowRunEvent`: `parse` is the body of the loop of
-- `parseWorkflowRunEvents` on one line, `stringify` is `JSON.stringify`, and `validate` is
-- `validateWorkflowRunEvent` on a record in memory. A validated record is read back as it was.
pub record Codec : Type 0 where
  pub parse : ℕ → String → Result StoreError Event
  pub stringify : Event → String
  pub validate : ℕ → Event → Result StoreError (Unit {0})
  pub parse-stringify : (m n : ℕ) (e : Event) → validate m e ≡ ok tt → parse n (stringify e) ≡ ok e

abbrev pub Disk : Type 0
Disk = Option (List String)

abbrev pub projected : Result StateError RunState → Result StoreError RunState
projected (ok s) = ok s
projected (err e) = err (bad_stream e)

-- the handler of `appendWorkflowRunEvent` for ENOENT
abbrev pub missing_as_append_error : Result StoreError RunState → Result StoreError RunState
missing_as_append_error (err not_found) = err missing_run_state
missing_as_append_error r = r

module _ (codec : Codec) where
  unfoldable pub parse_lines : ℕ → List String → Result StoreError (List Event)
  parse_lines line [] = ok []
  parse_lines line (l ∷ ls) =
      codec.parse line l >>= λ e. parse_lines (line + 1) ls >>= λ es. ok (e ∷ es)

  unfoldable pub read_workflow_run_state : Disk → Result StoreError RunState
  read_workflow_run_state none = err not_found
  read_workflow_run_state (some ls) =
      parse_lines 1 ls >>= λ es. projected (project_workflow_run_events es)

  unfoldable pub create_workflow_run : CreatedEvent → Disk → Result StoreError Disk
  create_workflow_run e disk = do
    codec.validate 1 (run_created e)
    require (not (is_some disk)) already_exists
    ok (some (codec.stringify (run_created e) ∷ []))

  unfoldable pub append_line : Event → Disk → Result StoreError Disk
  append_line e none = err missing_run_state
  append_line e (some ls) = ok (some (ls ++ codec.stringify e ∷ []))

  unfoldable pub append_workflow_run_event : Event → Disk → Result StoreError Disk
  append_workflow_run_event e disk = do
    codec.validate 1 e
    current ← missing_as_append_error (read_workflow_run_state disk)
    require (current.run.run_id == run_id_of e) append_run_id_mismatch
    require (not (is_some current.run.terminal_state)) append_to_completed
    _ ← projected (project_workflow_run_events (current.events ++ e ∷ []))
    append_line e disk
