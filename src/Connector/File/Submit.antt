-- ===== src/Connector/File/Submit.antt =====
-- src/file-connector.ts: the connector's operations, on the files of a world and the store of
-- receipts. `submit_file` is a call up to where it waits for another call, if it does, else to its end;
-- the store is the one of `createInMemoryLocalFileIdempotencyStore`.
use Prim.Native.String.{◌++◌}
use ensen_flow.Common.{
  ℕ, String, Option, none, some, List, [], ◌∷◌, or_else, Result, ok, err, ◌>>=◌,
}
use ensen_flow.Value.{Value}
use ensen_flow.Hygiene.{Runtime}
use ensen_flow.Connector.{
  supported, unsupported, ConnectorCapabilities, ConnectorResult, succeeds, submit, status, cancel,
  fetch_evidence, create_unsupported_connector_operation_result, reject_request, report_failure,
}
use ensen_flow.Connector.Idempotency.{
  Promise, running, Store, Begun, replayed, conflict, joins, starts, begin, settle, clean,
}
use ensen_flow.Connector.File.{
  LocalFileAction, read, write, LocalFileSubmitRequest, Node, Roots, validate_submit_request,
  normalize_allowed_roots,
}
use ensen_flow.Connector.File.Resolve.{ResolvedLocalFileRequest, resolve_local_file_request}
use ensen_flow.Connector.File.Receipt.{
  LocalFileReceipt, ReceiptError, invalid, execution, create_local_file_receipt,
}

-- The connector once it is created: `connectorId` and `allowedRoots`.
pub record LocalFileConnector : Type 0 where
  pub connector_id : String
  pub allowed_roots : Roots

unfoldable pub create_local_file_connector :
    {W : Type 0} → Node W → Option String → Value → Result String LocalFileConnector
unfolding normalize_allowed_roots
create_local_file_connector node connector_id allowed_roots = do
  roots ← normalize_allowed_roots node allowed_roots
  ok (record { connector_id = or_else connector_id "local-file"; allowed_roots = roots })

abbrev pub status_reason : String
status_reason = "local file connector completes fixture file actions inline"

abbrev pub cancel_reason : String
cancel_reason = "local file connector does not support cancellation"

abbrev pub evidence_reason : String
evidence_reason = "local file connector returns sanitized evidence from submit only"

abbrev pub capabilities : ConnectorCapabilities
capabilities = record {
  submit = supported;
  status = unsupported status_reason;
  cancel = unsupported cancel_reason;
  fetch_evidence = unsupported evidence_reason;
}

module _ {A : Type 0} (connector : LocalFileConnector) where
  unfoldable pub file_status : ConnectorResult A
  unfolding create_unsupported_connector_operation_result
  file_status =
      create_unsupported_connector_operation_result connector.connector_id status status_reason

  unfoldable pub file_cancel : ConnectorResult A
  unfolding create_unsupported_connector_operation_result
  file_cancel =
      create_unsupported_connector_operation_result connector.connector_id cancel cancel_reason

  unfoldable pub file_fetch_evidence : ConnectorResult A
  unfolding create_unsupported_connector_operation_result
  file_fetch_evidence =
      create_unsupported_connector_operation_result connector.connector_id fetch_evidence
        evidence_reason

abbrev pub reuse_message : String
reuse_message =
    "local file idempotencyKey reuse must keep workflowId/runId/stepId/action/rootAlias/path/content unchanged"

abbrev pub action_text : LocalFileAction → String
action_text read = "read"
action_text write = "write"

-- `stableStringify` of an object, by its entries in the order of their keys, each value as text
unfoldable pub stringify_entries : Runtime → List (String × String) → String
stringify_entries js [] = "}"
stringify_entries js ((k, v) ∷ []) = js.json_string k ++ (":" ++ (v ++ "}"))
stringify_entries js ((k, v) ∷ (next ∷ more)) =
    js.json_string k ++ (":" ++ (v ++ ("," ++ stringify_entries js (next ∷ more))))

abbrev pub json_content : Runtime → Option String → String
json_content js none = "null"
json_content js (some content) = js.json_string content

unfoldable pub fingerprint_file_request : Runtime → LocalFileSubmitRequest → String → String
unfolding stringify_entries
fingerprint_file_request js request sanitized_path =
    "{"
    ++ stringify_entries js (
        ("action", js.json_string (action_text request.file.action))
        ∷ ("content", json_content js request.file.content)
        ∷ ("path", js.json_string sanitized_path)
        ∷ ("rootAlias", js.json_string request.file.root_alias)
        ∷ ("runId", js.json_string request.run_id)
        ∷ ("stepId", js.json_string request.step_id)
        ∷ ("workflowId", js.json_string request.workflow_id)
        ∷ [])

-- the answer to a call, none where it waits for another call
abbrev pub Answer : Type 0
Answer = Option (ConnectorResult LocalFileReceipt)

module _ {W : Type 0} (node : Node W) (js : Runtime) (connector : LocalFileConnector) where
  abbrev pub error_result : ReceiptError → ConnectorResult LocalFileReceipt
  error_result (invalid message) = reject_request connector.connector_id message
  error_result (execution message retryable) =
      report_failure connector.connector_id message retryable

  abbrev pub made_result : Result ReceiptError LocalFileReceipt → ConnectorResult LocalFileReceipt
  made_result (ok receipt) = succeeds connector.connector_id submit receipt
  made_result (err e) = error_result e

  abbrev made_receipt : Result ReceiptError LocalFileReceipt → Option LocalFileReceipt
  made_receipt (ok receipt) = some receipt
  made_receipt (err e) = none

  -- the promise of a submission runs to its end, and its call cleans up
  unfoldable pub finish :
      ℕ
      → Promise LocalFileReceipt
      → Result ReceiptError LocalFileReceipt × W
      → Store LocalFileReceipt
      → Answer × W × Store LocalFileReceipt
  unfolding settle clean
  finish n promise (made, w) s =
      (some (made_result made), w, clean n promise.key (settle n promise (made_receipt made) s))

  -- what `submitSuccessfulReceipt` does after its first part, and what `submit` makes of it
  unfoldable pub go_on :
      LocalFileSubmitRequest
      → ResolvedLocalFileRequest
      → String
      → Begun LocalFileReceipt × Store LocalFileReceipt
      → W
      → Answer × W × Store LocalFileReceipt
  unfolding finish create_local_file_receipt
  go_on request resolved fingerprint (replayed r, s) w =
      (some (succeeds connector.connector_id submit r.receipt), w, s)
  go_on request resolved fingerprint (conflict, s) w =
      (some (reject_request connector.connector_id reuse_message), w, s)
  go_on request resolved fingerprint (joins n, s) w = (none, w, s)
  go_on request resolved fingerprint (starts n, s) w =
      finish n
        (record { key = request.idempotency_key; fingerprint = fingerprint; state = running })
        (create_local_file_receipt node js connector.connector_id request resolved w) s

  abbrev submit_resolved :
      LocalFileSubmitRequest
      → Result String ResolvedLocalFileRequest
      → W
      → Store LocalFileReceipt
      → Answer × W × Store LocalFileReceipt
  submit_resolved request (err message) w s =
      (some (reject_request connector.connector_id message), w, s)
  submit_resolved request (ok resolved) w s =
      let fingerprint = fingerprint_file_request js request resolved.sanitized_path in
      go_on request resolved fingerprint (begin request.idempotency_key fingerprint s) w

  abbrev submit_validated :
      Result String LocalFileSubmitRequest
      → W
      → Store LocalFileReceipt
      → Answer × W × Store LocalFileReceipt
  submit_validated (err message) w s = (some (reject_request connector.connector_id message), w, s)
  submit_validated (ok request) w s =
      submit_resolved request
        (resolve_local_file_request node request.file connector.allowed_roots w) w s

  unfoldable pub submit_file :
      List (String × Value) → W → Store LocalFileReceipt → Answer × W × Store LocalFileReceipt
  unfolding go_on fingerprint_file_request validate_submit_request resolve_local_file_request begin
  submit_file fs w s = submit_validated (validate_submit_request fs) w s
