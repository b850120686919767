-- ===== src/Connector.antt =====
-- src/connector.ts: what the connectors share.
pub mod Idempotency
pub mod File
pub mod Notification
use Prim.Native.String.{◌++◌}
use ensen_flow.Common.{String, Bool, true, false, Option, none, some}

-- `ConnectorOperation`
pub data Operation : Type 0 where
  submit status cancel fetch_evidence : Operation

abbrev pub operation_text : Operation → String
operation_text submit = "submit"
operation_text status = "status"
operation_text cancel = "cancel"
operation_text fetch_evidence = "fetchEvidence"

-- `ConnectorOperationSupport`
pub data OperationSupport : Type 0 where
  supported : OperationSupport
  unsupported : (reason : String) → OperationSupport

pub record ConnectorCapabilities : Type 0 where
  pub submit : OperationSupport
  pub status : OperationSupport
  pub cancel : OperationSupport
  pub fetch_evidence : OperationSupport

pub data ConnectorErrorCode : Type 0 where
  unsupported_operation invalid_request execution_failed : ConnectorErrorCode

-- the fields of `ConnectorErrorBody` that these connectors fill
pub record ConnectorErrorBody : Type 0 where
  pub code : ConnectorErrorCode
  pub message : String
  pub retryable : Bool
  pub reason : Option String

-- `ConnectorResult`
pub data ConnectorResult (A : Type 0) : Type 0 where
  succeeds : (connector_id : String) → Operation → A → ConnectorResult A
  fails : (connector_id : String) → Operation → ConnectorErrorBody → ConnectorResult A

unfoldable pub create_immediate_only_connector_capabilities : String → ConnectorCapabilities
create_immediate_only_connector_capabilities reason = record {
  submit = supported;
  status = unsupported reason;
  cancel = unsupported reason;
  fetch_evidence = unsupported reason;
}

unfoldable pub format_unsupported_operation_message : String → Operation → String → String
format_unsupported_operation_message connector_id operation reason =
    "connector "
    ++ (connector_id ++ (" does not support " ++ (operation_text operation ++ (": " ++ reason))))

unfoldable pub create_unsupported_connector_operation_result :
    {A : Type 0} → String → Operation → String → ConnectorResult A
unfolding format_unsupported_operation_message
create_unsupported_connector_operation_result connector_id operation reason =
    fails connector_id operation (record {
      code = unsupported_operation;
      message = format_unsupported_operation_message connector_id operation reason;
      retryable = false;
      reason = some reason;
    })

-- `invalidRequest` and `executionFailed` of each connector
unfoldable pub reject_request : {A : Type 0} → String → String → ConnectorResult A
reject_request connector_id message =
    fails connector_id submit
      (record { code = invalid_request; message = message; retryable = false; reason = none })

unfoldable pub report_failure : {A : Type 0} → String → String → Bool → ConnectorResult A
report_failure connector_id message retryable =
    fails connector_id submit
      (record { code = execution_failed; message = message; retryable = retryable; reason = none })
