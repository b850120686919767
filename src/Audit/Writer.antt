-- ===== src/Audit/Writer.antt =====
-- src/audit-event-writer.ts: the writer of a run's audit log. `write` is one entry of the queue: the
-- writes of a writer are carried out in the order of their calls, whether or not one throws.
pub mod Logs
pub mod Laws
use Prim.Native.String.{◌++◌}
use ensen_flow.Common.{ℕ, ◌+◌, String, Option, none, some, List, [], ◌∷◌, or_else, Result, ok, err}
use ensen_flow.Value.{Value}
use ensen_flow.Hygiene.{Runtime}
use ensen_flow.Audit.{
  Party, WorkflowReference, EventInput, NeutralAuditEvent, Checked, validate_neutral_audit_event,
}
use ensen_flow.Audit.Sequence.{create_audit_event_id, read_existing_audit_sequence}

-- `CreateLocalAuditEventWriterInput`; `run` is the run's id
pub record WriterInput : Type 0 where
  pub actor : Option Party
  pub source : Option Party
  pub workflow : WorkflowReference
  pub run : String

-- `JSON.parse` and `JSON.stringify`, and what the file system does: what `readFile` throws for
-- another reason than that there is no file, and `mkdir`, `open` and `writeFile` of a text at the end
pub record LogFile : Type 0 where
  pub json_parse : String → Result String Value
  pub json_stringify : NeutralAuditEvent → String
  pub read_failure : Option String
  pub append : String → Option String → Result String (Unit {0}) × Option String

-- `sequence`, and the file
pub record WriterState : Type 0 where
  pub sequence : Option ℕ
  pub file : Option String

abbrev runner_context : String
runner_context = "ensen-flow.local-runner"

unfoldable pub event_of : WriterInput → ℕ → EventInput → NeutralAuditEvent
unfolding create_audit_event_id
event_of writer sequence input = record {
  id = create_audit_event_id writer.run sequence;
  actor = or_else writer.actor (record { type = "system"; id = runner_context });
  source = or_else writer.source (record { type = "runner"; id = runner_context });
  workflow = writer.workflow;
  run = writer.run;
  input = input;
}

module _ (js : Runtime) (log : LogFile) (writer : WriterInput) where
  abbrev existing : Option String → Option String → Result String ℕ
  existing (some failure) file = err failure
  existing none file = read_existing_audit_sequence log.json_parse writer.run file

  -- `sequence ??= await readExistingAuditSequence(auditPath, run.id)`
  unfoldable pub known_sequence : WriterState → Result String ℕ
  unfolding read_existing_audit_sequence
  known_sequence s = elim s.sequence [ some n ↦ ok n | none ↦ existing log.read_failure s.file ]

  unfoldable pub append_audit_event : NeutralAuditEvent → WriterState → Checked × WriterState
  append_audit_event event s =
      let (done, file) = log.append (log.json_stringify event ++ "\n") s.file in
      (done, record { sequence = s.sequence; file = file })

  abbrev append_valid : Checked → NeutralAuditEvent → WriterState → Checked × WriterState
  append_valid (err message) event s = (err message, s)
  append_valid (ok t) event s = append_audit_event event s

  abbrev write_numbered : Result String ℕ → EventInput → WriterState → Checked × WriterState
  write_numbered (err message) input s = (err message, s)
  write_numbered (ok n) input s =
      let event = event_of writer (n + 1) input in
      append_valid (validate_neutral_audit_event js event) event
        (record { sequence = some (n + 1); file = s.file })

  unfoldable pub write : EventInput → WriterState → Checked × WriterState
  unfolding known_sequence append_audit_event event_of validate_neutral_audit_event
  write input s = write_numbered (known_sequence s) input s

  -- the queue
  unfoldable pub write_all : List EventInput → WriterState → List Checked × WriterState
  unfolding write
  write_all [] s = ([], s)
  write_all (input ∷ inputs) s =
      let (done, s') = write input s in
      let (others, s'') = write_all inputs s' in (done ∷ others, s'')
