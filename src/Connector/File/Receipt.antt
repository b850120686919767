-- ===== src/Connector/File/Receipt.antt =====
-- src/file-connector.ts: the action of a request on the files of a world, and its receipt.
use Prim.Native.String.{◌++◌}
use ensen_flow.Common.{
  ℕ, String, Bool, true, false, Option, none, some, or_else, Result, ok, err, ◌>>=◌,
}
use ensen_flow.Value.{str}
use ensen_flow.Hygiene.{
  Finding, Runtime, find_unsafe_workflow_artifact_value, format_unsafe_workflow_artifact_diagnostic,
}
use ensen_flow.Connector.File.{
  LocalFileAction, read, write, LocalFileSubmitRequest, NodeError, enoent, other_error, Node,
}
use ensen_flow.Connector.File.Resolve.{ResolvedLocalFileRequest}

-- `file` and `evidence` hold the same alias, path and number of bytes.
pub record LocalFileReceipt : Type 0 where
  pub request_id : String
  pub accepted_at : String
  pub action : LocalFileAction
  pub root_alias : String
  pub path : String
  pub bytes : ℕ
  pub summary : String
  pub output : Option String

-- what `executeFileRequest` returns
pub data Outcome : Type 0 where
  done : (bytes : ℕ) (content : Option String) → Outcome
  failed : (message : String) (retryable : Bool) → Outcome

-- `LocalFileInvalidRequestError` and `LocalFileExecutionError`
pub data ReceiptError : Type 0 where
  invalid : (message : String) → ReceiptError
  execution : (message : String) (retryable : Bool) → ReceiptError

abbrev pub summary_of : LocalFileAction → String
summary_of read = "local fixture file read"
summary_of write = "local fixture file written"

abbrev fail_unsafe : {E : Type 0} → (String → E) → Option Finding → Result E (Unit {0})
fail_unsafe as_error none = ok tt
fail_unsafe as_error (some finding) =
    err (as_error (format_unsafe_workflow_artifact_diagnostic finding))

module _ {W : Type 0} (node : Node W) where
  abbrev read_outcome : Result NodeError String → Outcome
  read_outcome (ok content) = done (node.byte_length content) (some content)
  read_outcome (err enoent) = failed "local file read target was not found" true
  read_outcome (err other_error) = failed "local file read failed" false

  abbrev write_outcome : String → Result NodeError (Unit {0}) → Outcome
  write_outcome content (ok t) = done (node.byte_length content) none
  write_outcome content (err e) = failed "local file write failed" false

  -- `writeFile`, if `mkdir` did not throw
  abbrev write_after :
      String → String → Result NodeError (Unit {0}) → W → Result NodeError (Unit {0}) × W
  write_after path content (ok t) w = node.write_file path content w
  write_after path content (err e) w = (err e, w)

  abbrev write_content : String → String → W → Outcome × W
  write_content path content w =
      let (made, w') = node.mkdir (node.dirname path) w in
      let (written, w'') = write_after path content made w' in (write_outcome content written, w'')

  abbrev execute : LocalFileAction → ResolvedLocalFileRequest → W → Outcome × W
  execute read request w = (read_outcome (node.read_file request.absolute_path w), w)
  execute write request w = write_content request.absolute_path (or_else request.file.content "") w

  unfoldable pub execute_file_request : ResolvedLocalFileRequest → W → Outcome × W
  execute_file_request request w = execute request.file.action request w

module _ (js : Runtime) where
  abbrev content_finding : Option String → Option Finding
  content_finding none = none
  content_finding (some content) =
      find_unsafe_workflow_artifact_value js (str content) "local file content"

  unfoldable pub validate_local_file_content :
      LocalFileSubmitRequest → Result ReceiptError (Unit {0})
  validate_local_file_content request = fail_unsafe invalid (content_finding request.file.content)

  abbrev output_finding : Option String → Option Finding
  output_finding none = none
  output_finding (some content) =
      find_unsafe_workflow_artifact_value js (str content) "local file output"

  -- the receipt, from what the request's execution returned
  unfoldable pub receipt_of :
      String
      → String
      → LocalFileSubmitRequest
      → ResolvedLocalFileRequest
      → Outcome
      → Result ReceiptError LocalFileReceipt
  receipt_of connector_id now request resolved (failed message retryable) =
      err (execution message retryable)
  receipt_of connector_id now request resolved (done bytes content) = do
    t ← fail_unsafe (λ message. execution message false) (output_finding content)
    ok (record {
      request_id = connector_id ++ ("-" ++ (request.run_id ++ ("-" ++ request.step_id)));
      accepted_at = now;
      action = resolved.file.action;
      root_alias = resolved.file.root_alias;
      path = resolved.sanitized_path;
      bytes = bytes;
      summary = summary_of resolved.file.action;
      output = content;
    })

module _ {W : Type 0} (node : Node W) (js : Runtime) where
  abbrev receipt_after :
      String
      → LocalFileSubmitRequest
      → ResolvedLocalFileRequest
      → Result ReceiptError (Unit {0})
      → W
      → Result ReceiptError LocalFileReceipt × W
  receipt_after connector_id request resolved (err e) w = (err e, w)
  receipt_after connector_id request resolved (ok t) w =
      let (outcome, w') = execute_file_request node resolved w in
      (receipt_of js connector_id (node.now w') request resolved outcome, w')

  unfoldable pub create_local_file_receipt :
      String
      → LocalFileSubmitRequest
      → ResolvedLocalFileRequest
      → W
      → Result ReceiptError LocalFileReceipt × W
  unfolding execute_file_request validate_local_file_content receipt_of
  create_local_file_receipt connector_id request resolved w =
      receipt_after connector_id request resolved (validate_local_file_content js request) w
