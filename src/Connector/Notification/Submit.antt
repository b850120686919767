-- ===== src/Connector/Notification/Submit.antt =====
-- src/http-notification-connector.ts: the connector's operations. `submit_notification` is a call up
-- to where it waits for another call, if it does, else to its end. The connector's two maps are those
-- of the store of receipts; a delivery that fails keeps no receipt, as one that throws.
use ensen_flow.Common.{ℕ, String, Option, none, some, List, Result, ok, err}
use ensen_flow.Value.{Value}
use ensen_flow.Hygiene.{Runtime}
use ensen_flow.Intake.{WebRuntime}
use ensen_flow.Connector.{
  OperationSupport, supported, unsupported, ConnectorResult, succeeds, submit, status, cancel,
  fetch_evidence, create_unsupported_connector_operation_result, reject_request,
}
use ensen_flow.Connector.Idempotency.{
  Promise, running, Store, Begun, replayed, conflict, joins, starts, begin, settle, clean,
}
use ensen_flow.Connector.Notification.{NotificationRequest, validate_notification_request}
use ensen_flow.Connector.Notification.Delivery.{
  NotificationReceipt, Delivery, Transport, Ending, answered, notification_status_reason,
  notification_cancel_reason, notification_evidence_reason, notification_reuse_message,
  notify_capability, fingerprint_notification_request, format_request_id, receipt_of_delivery,
}

module _ {A : Type 0} (connector_id : String) where
  unfoldable pub notification_status : ConnectorResult A
  unfolding create_unsupported_connector_operation_result
  notification_status =
      create_unsupported_connector_operation_result connector_id status notification_status_reason

  unfoldable pub notification_cancel : ConnectorResult A
  unfolding create_unsupported_connector_operation_result
  notification_cancel =
      create_unsupported_connector_operation_result connector_id cancel notification_cancel_reason

  unfoldable pub notification_fetch_evidence : ConnectorResult A
  unfolding create_unsupported_connector_operation_result
  notification_fetch_evidence =
      create_unsupported_connector_operation_result connector_id fetch_evidence
        notification_evidence_reason

abbrev ending_of : String → Result Ending NotificationReceipt → Ending
ending_of connector_id (ok receipt) = answered (succeeds connector_id submit receipt)
ending_of connector_id (err ending) = ending

abbrev receipt_made : Result Ending NotificationReceipt → Option NotificationReceipt
receipt_made (ok receipt) = some receipt
receipt_made (err ending) = none

-- how a call ends, none where it waits for another call, and what it leaves
abbrev pub Called : Type 0 → Type 0
Called W = Option Ending × W × Store NotificationReceipt

module _ {W : Type 0} (js : WebRuntime) (hygiene : Runtime) (connector_id : String)
    (transport : Transport W) (now : W → String) where
  abbrev pub delivery_of : NotificationRequest → Delivery
  delivery_of request = record {
    request = request;
    request_id = format_request_id js connector_id request.run_id request.step_id request.attempt;
  }

  -- the submission runs to its end, and its call cleans up
  abbrev end_submission :
      ℕ
      → Promise NotificationReceipt
      → Result Ending NotificationReceipt
      → W
      → Store NotificationReceipt
      → Called W
  end_submission n promise made w s = (
    some (ending_of connector_id made),
    w,
    clean n promise.key (settle n promise (receipt_made made) s),
  )

  unfoldable pub deliver_notification :
      ℕ → String → NotificationRequest → W → Store NotificationReceipt → Called W
  unfolding settle clean receipt_of_delivery format_request_id
  deliver_notification n fingerprint request w s =
      let (outcome, w') = transport.deliver (delivery_of request) w in
      end_submission n
        (record { key = request.idempotency_key; fingerprint = fingerprint; state = running })
        (receipt_of_delivery js connector_id request (now w') outcome) w' s

  unfoldable pub after_begin :
      NotificationRequest
      → String
      → Begun NotificationReceipt × Store NotificationReceipt
      → W
      → Called W
  unfolding deliver_notification
  after_begin request fingerprint (replayed r, s) w =
      (some (answered (succeeds connector_id submit r.receipt)), w, s)
  after_begin request fingerprint (conflict, s) w =
      (some (answered (reject_request connector_id notification_reuse_message)), w, s)
  after_begin request fingerprint (joins n, s) w = (none, w, s)
  after_begin request fingerprint (starts n, s) w = deliver_notification n fingerprint request w s

  abbrev submit_valid : Result String NotificationRequest → W → Store NotificationReceipt → Called W
  submit_valid (err message) w s = (some (answered (reject_request connector_id message)), w, s)
  submit_valid (ok request) w s =
      let fingerprint = fingerprint_notification_request js request in
      after_begin request fingerprint (begin request.idempotency_key fingerprint s) w

  abbrev submit_supported :
      OperationSupport → List (String × Value) → W → Store NotificationReceipt → Called W
  submit_supported (unsupported reason) fs w s = (
    some (answered (create_unsupported_connector_operation_result connector_id submit reason)),
    w,
    s,
  )
  submit_supported supported fs w s = submit_valid (validate_notification_request hygiene fs) w s

  unfoldable pub submit_notification :
      List (String × Value) → W → Store NotificationReceipt → Called W
  unfolding notify_capability validate_notification_request fingerprint_notification_request begin
      after_begin create_unsupported_connector_operation_result
  submit_notification fs w s =
      submit_supported (notify_capability js transport.notify transport.input_boundary) fs w s
