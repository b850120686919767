-- ===== src/Connector/Notification/Delivery.antt =====
-- src/http-notification-connector.ts: transports and the capabilities that they give, the fake
-- transport, and the receipt of a delivery.
use Prim.Native.String.{◌++◌}
use ensen_flow.Common.{
  ℕ, suc, String, Bool, true, false, Option, none, some, List, [], ◌∷◌, ◌++◌ as ◌++ᴸ◌, length,
  or_else, Result, ok, err,
}
use ensen_flow.Value.{Value, undefined, null, str, obj, end, field}
use ensen_flow.Pilot.{explain_controlled_pilot_boundary_rejection}
use ensen_flow.Intake.{WebRuntime}
use ensen_flow.Intake.Fingerprint.{stable_stringify}
use ensen_flow.Connector.{
  OperationSupport, supported, unsupported, ConnectorCapabilities, ConnectorResult, reject_request,
  report_failure,
}
use ensen_flow.Connector.Notification.{
  NotificationRequest, NotificationOutcome, validate_http_notification_outcome,
}

-- `HttpNotificationReceipt`; its evidence holds the alias, the attempt and the key again
pub record NotificationReceipt : Type 0 where
  pub request_id : String
  pub accepted_at : String
  pub endpoint_alias : String
  pub method : String
  pub attempt : ℕ
  pub idempotency_key : String
  pub summary : Option String
  pub retryable : Option Bool
  pub transport : Value

-- `HttpNotificationTransportDelivery`
pub record Delivery : Type 0 where
  pub request : NotificationRequest
  pub request_id : String

-- A transport: its `inputBoundary`, `capabilities.notify`, and `deliver`, which may throw.
pub record Transport (W : Type 0) : Type 0 where
  pub input_boundary : Value
  pub notify : Option OperationSupport
  pub deliver : Delivery → W → Result String Value × W

-- What ends a call: a result, or what the transport threw.
pub data Ending : Type 0 where
  answered : ConnectorResult NotificationReceipt → Ending
  threw : (message : String) → Ending

abbrev pub notification_status_reason : String
notification_status_reason = "HTTP notification skeleton records local submit outcomes only"

abbrev pub notification_cancel_reason : String
notification_cancel_reason = "HTTP notification skeleton does not support cancellation"

abbrev pub notification_evidence_reason : String
notification_evidence_reason = "HTTP notification skeleton does not fetch external evidence"

abbrev pub notification_reuse_message : String
notification_reuse_message =
    "HTTP notification idempotencyKey reuse must keep workflowId/runId/stepId/endpointAlias/method/headers/payload unchanged"

abbrev pub support_of : Option String → OperationSupport
support_of none = supported
support_of (some reason) = unsupported reason

unfoldable pub create_boundary_aware_notify_capability : WebRuntime → Value → OperationSupport
unfolding explain_controlled_pilot_boundary_rejection
create_boundary_aware_notify_capability js boundary =
    support_of
      (explain_controlled_pilot_boundary_rejection js "HTTP notification transport" boundary)

-- the capability `notify`, which is also that of `submit`
unfoldable pub notify_capability : WebRuntime → Option OperationSupport → Value → OperationSupport
unfolding create_boundary_aware_notify_capability
notify_capability js (some (unsupported reason)) boundary = unsupported reason
notify_capability js _ boundary = create_boundary_aware_notify_capability js boundary

unfoldable pub create_http_notification_capabilities :
    WebRuntime → Option OperationSupport → Value → ConnectorCapabilities
unfolding notify_capability
create_http_notification_capabilities js override boundary = record {
  submit = notify_capability js override boundary;
  status = unsupported notification_status_reason;
  cancel = unsupported notification_cancel_reason;
  fetch_evidence = unsupported notification_evidence_reason;
}

-- `value ?? null`
abbrev or_null : Value → Value
or_null undefined = null
or_null v = v

unfoldable pub fingerprint_notification_request : WebRuntime → NotificationRequest → String
unfolding stable_stringify
fingerprint_notification_request js request = stable_stringify js (
    obj (
      field "workflowId" (str request.workflow_id) (
        field "runId" (str request.run_id) (
          field "stepId" (str request.step_id) (
            field "endpointAlias" (str request.endpoint_alias) (
              field "method" (str request.method) (
                field "headers" (or_null request.headers)
                  (field "payload" (or_null request.payload) end))))))))

unfoldable pub format_request_id : WebRuntime → String → String → String → ℕ → String
format_request_id js connector_id run_id step_id attempt =
    connector_id
    ++ ("-" ++ (run_id ++ ("-" ++ (step_id ++ ("-attempt-" ++ js.number_text attempt)))))

abbrev is_true : Option Bool → Bool
is_true (some true) = true
is_true _ = false

-- what `createFakeHttpNotificationTransport` is given, with its default
abbrev accepted : Value
accepted = obj (
    field "status" (str "succeeded") (field "summary" (str "local fake notification accepted") end))

abbrev some_outcomes : List Value → List Value
some_outcomes [] = accepted ∷ []
some_outcomes (o ∷ os) = o ∷ os

-- `outcomes[n]`, the last one where the list is shorter
abbrev outcome_at : Value → ℕ → List Value → Value
outcome_at default n [] = default
outcome_at default ℕ.zero (o ∷ os) = o
outcome_at default (suc n) (o ∷ os) = outcome_at o n os

unfoldable pub create_fake_http_notification_transport :
    Option OperationSupport → List Value → Transport (List Delivery)
create_fake_http_notification_transport notify outcomes = record {
  input_boundary = obj (field "mode" (str "fake") end);
  notify = notify;
  deliver = λ d w. (ok (outcome_at accepted (length w) (some_outcomes outcomes)), w ++ᴸ d ∷ []);
}

module _ (js : WebRuntime) (connector_id : String) where
  -- the receipt, or the result of a failure, of what the transport returned
  abbrev receipt_or_failure :
      NotificationRequest
      → String
      → Result String NotificationOutcome
      → Result (ConnectorResult NotificationReceipt) NotificationReceipt
  receipt_or_failure request now (err message) = err (reject_request connector_id message)
  receipt_or_failure request now (ok outcome) = elim outcome.succeeded [
    | false ↦ err (
        report_failure connector_id
          (or_else outcome.summary "HTTP notification failed in local fake transport")
          (is_true outcome.retryable))
    | true ↦ ok (record {
      request_id = format_request_id js connector_id request.run_id request.step_id request.attempt;
      accepted_at = now;
      endpoint_alias = request.endpoint_alias;
      method = request.method;
      attempt = request.attempt;
      idempotency_key = request.idempotency_key;
      summary = outcome.summary;
      retryable = outcome.retryable;
      transport = outcome.evidence;
    })
  ]

  unfoldable pub receipt_of_delivery :
      NotificationRequest → String → Result String Value → Result Ending NotificationReceipt
  unfolding validate_http_notification_outcome format_request_id
  receipt_of_delivery request now (err message) = err (threw message)
  receipt_of_delivery request now (ok outcome) =
      elim (receipt_or_failure request now (validate_http_notification_outcome outcome)) [
        | ok receipt ↦ ok receipt
        | err failure ↦ err (answered failure)
      ]
