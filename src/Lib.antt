-- ===== src/Lib.antt =====
-- Ensen-flow runs a workflow definition step by step and keeps the history of each run in a JSONL
-- state file. The library models the parts below.
--
-- `Definition` (src/workflow-definition.ts). The records of a validated definition, and
-- `validateWorkflowDefinition` over values of type `unknown` (`Value`). A check returns the list of
-- the errors that the source pushes, in their order: a path is the list of its segments, a message a
-- constructor. `Definition/Patterns` has the stable-id pattern and the cron expression,
-- `Definition/Fields` the helpers on one field, `Definition/Parts` and `Definition/Validate` the rest.
--
-- `RunState` (src/workflow-run-state.ts). `RunState/StepEvents` and `RunState/Project` are
-- `applyStepAttemptEvent` and `projectWorkflowRunEvents`: the stream of records is folded, line by
-- line, into the run and the attempts of each step. `RunState/Record` is `validateWorkflowRunEvent`
-- over `Value`. `RunState/Store` is `createWorkflowRun`, `appendWorkflowRunEvent` and
-- `readWorkflowRunState` on a `Disk`, nothing or the lines of one file. `RunState/Report` and
-- `RunState/Recovery` are `inspectWorkflowRunRecovery` and `stopWorkflowRunRecovery`.
--
-- `CustomerWorkflow` (src/customer-workflow-allowlist.ts, src/customer-workflow-approval-boundary.ts).
-- `CustomerWorkflow/Allowlist` is `assertCustomerWorkflowAllowlisted`, with a type guard as the value
-- that it finds; `CustomerWorkflow/Approval` is `assertCustomerWorkflowApprovalBoundary`. The first is
-- asked before a run starts or goes on, the second after each step.
--
-- `Hygiene` (src/workflow-artifact-hygiene.ts) is `findUnsafeWorkflowArtifactValue`, which the records
-- of the state file, the audit events and the file connector ask for unsafe values. A text that is
-- JSON is searched as what it stands for; a text within it is shorter, so as many rounds as the
-- longest text has characters are enough. `Timestamps` has the two tests of timestamps.
--
-- `Audit` (src/audit-event-writer.ts) is the validation of audit events; `Audit/Sequence` has their
-- ids and reads the highest number of a log, and `Audit/Writer` adds an event to it. The digits of a
-- number take as fuel the number and one more, and each uses up one. The source's numbers are doubles,
-- which are the natural numbers of the model up to `Number.MAX_SAFE_INTEGER`; beyond it, where the
-- source rounds, the model does not follow it.
--
-- `Connector` (src/connector.ts) has the results of connectors. `Connector/Idempotency` is the store
-- of receipts of src/file-connector.ts, its calls cut at each `await`, so that any interleaving is a
-- sequence of steps; `Connector/File` is the rest of that file: the roots and the requests, the path
-- of a request (`Resolve`), the action and its receipt (`Receipt`) and the operations (`Submit`).
-- `Connector/Notification` is src/http-notification-connector.ts, whose two maps are such a store. What
-- a transport has to declare is `Pilot` (src/controlled-pilot-input-boundary.ts).
--
-- `Runner` (src/workflow-runner.ts). `Runner/Order` is `orderSteps`. `Runner/Exec` is a world (the
-- file, the audit log, counters for the clock and the step handler) with actions that may throw;
-- `Runner/Outcome` reads a step handler's result or error; `Runner/Attempt` and `Runner/Steps` are the
-- loops of `runWorkflow` over the steps and their attempts, on the functions that
-- `Runner/Environment` names; `Runner/Checkpoint` is `approvalAuditContextFromStepResult`.
-- `Runner/Start` is what `runWorkflow` checks before its loops, and `Runner/Workflow` is `runWorkflow`
-- on a definition that `validateWorkflowDefinition` accepts. Another process may change the state file
-- at two points only: between the read of the file and its creation, and between two reads of a run that
-- another process creates. `Runner/Schedule` is `evaluateScheduleTrigger` (src/schedule-trigger.ts),
-- which calls `runWorkflow` at the times of a cron expression; what a time has to be is `Due`. The runner writes the file by the
-- store's creation and append only, and reads it back by the store's read; the store projects by
-- `RunState/Project`.
--
-- `Intake` (src/webhook-intake.ts) is the validation of a webhook's input; `Intake/Fingerprint` its
-- fingerprint and the id of its run; `Intake/Consume` is `consumeWebhookInput`, which reads the state
-- file, compares the fingerprints and calls `runWorkflow`, which compares them again.
--
-- Loops are structural recursion. `orderSteps` takes as fuel the number of the steps that remain, and
-- the loop over attempts the number of the attempts that remain, and the reading of a competing run
-- the reads that remain after the next; each round uses up one.
--
-- Parameters. `Codec` is a parser, a printer and a validator of records: a record that is valid is
-- read back as it was. `Checks` is whether a text is a date, what the search for unsafe values uses
-- (`Runtime`: the test of a pattern, `JSON.parse`, the text of a number, `JSON.stringify` of a string)
-- and whether it is skipped. `Node` is the functions of `node:path` and of the file system; `LogFile`
-- is the file of an audit log, with JSON; `WebRuntime` is texts, dates and hashes; `Transport` is the
-- transport of a notification connector. `Environment` is the step handler, the clock, the audit writer,
-- the check of an approval context and dates: whether a text is one, and the text of the date so many
-- milliseconds later, none where `toISOString` throws. `Texts` is the texts of numbers, `replaceAll` and
-- `JSON.stringify`; `Calendar` the dates of a scheduled time; nothing is assumed of them. The validator
-- of `Codec` stands for `validateWorkflowRunEvent` with the reading of the validated value as a record;
-- `RunState/Record` models the validation itself, and the two are not connected.
--
-- Not modelled: the reading of a definition's file, the default step handler, the connector of
-- external executors, the export of audit evidence, the pilot packages and the command line. A call of
-- the notification connector's `submit` is modelled up to where it waits for another call.
-- Failures of the disk other than ENOENT and EEXIST, and a file that does not end in a line break, are
-- left out. An append, which reads the file, projects it and writes, is one step: the lock of a path
-- makes it one within a process, and what another process writes between its read and its write is left
-- out, as is what another process writes during the loops of `runWorkflow`.
mod Common
pub mod Value
pub mod RunState
pub mod Definition
pub mod CustomerWorkflow
pub mod Hygiene
pub mod Timestamps
pub mod Audit
pub mod Connector
pub mod Runner
pub mod Intake
pub mod Pilot
