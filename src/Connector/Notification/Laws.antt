-- ===== src/Connector/Notification/Laws.antt =====
-- src/http-notification-connector.ts: what a call of `submit` hands to the transport.
use ensen_flow.Common.{◌⊎◌, String, ◌≡◌, refl, inl, inr, Option, none, some, List, ok, Result-cases}
use ensen_flow.Value.{Value}
use ensen_flow.Hygiene.{Runtime}
use ensen_flow.Pilot.{explain_controlled_pilot_boundary_rejection}
use ensen_flow.Pilot.Laws.{IsDeclared, explain-IsDeclared}
use ensen_flow.Intake.{WebRuntime}
use ensen_flow.Connector.{OperationSupport, supported, unsupported}
use ensen_flow.Connector.Idempotency.{Store, Begun, replayed, conflict, joins, starts, begin}
use ensen_flow.Connector.Idempotency.Laws.{begin-unknown}
use ensen_flow.Connector.Notification.{NotificationRequest, validate_notification_request}
use ensen_flow.Connector.Notification.Delivery.{
  NotificationReceipt, Transport, create_boundary_aware_notify_capability, notify_capability,
  fingerprint_notification_request, support_of,
}
use ensen_flow.Connector.Notification.Submit.{
  delivery_of, deliver_notification, after_begin, submit_notification,
}

support_of-supported : (o : Option String) → support_of o ≡ supported → o ≡ none
support_of-supported none h = refl
support_of-supported (some reason) h = cc

notify_capability-supported :
    (js : WebRuntime) (override : Option OperationSupport) (boundary : Value)
    → notify_capability js override boundary ≡ supported
    → explain_controlled_pilot_boundary_rejection js "HTTP notification transport" boundary ≡ none
unfolding notify_capability create_boundary_aware_notify_capability
notify_capability-supported js (some (unsupported reason)) boundary h = cc
notify_capability-supported js (some supported) boundary h = support_of-supported _ h
notify_capability-supported js none boundary h = support_of-supported _ h

support-cases :
    (s : OperationSupport) → (s ≡ supported) ⊎ ((reason : String) × (s ≡ unsupported reason))
support-cases supported = inl refl
support-cases (unsupported reason) = inr (reason, refl)

module _ {W : Type 0} (js : WebRuntime) (hygiene : Runtime) (connector_id : String)
    (transport : Transport W) (now : W → String) where
  -- the transport's world after a call on the receipts of `s`
  pub data Delivers (fs : List (String × Value)) (w : W) (s : Store NotificationReceipt)
      : W → Type 0 where
    leaves : Delivers fs w s w
    delivers :
        (request : NotificationRequest)
        → IsDeclared js transport.input_boundary
        → validate_notification_request hygiene fs ≡ ok request
        → s.records request.idempotency_key ≡ none
        → Delivers fs w s
            (transport.deliver (delivery_of js hygiene connector_id transport now request) w).1

  after_begin-Delivers :
      (fs : List (String × Value)) (w : W) (s : Store NotificationReceipt)
      (request : NotificationRequest)
      → IsDeclared js transport.input_boundary
      → validate_notification_request hygiene fs ≡ ok request
      → (fingerprint : String) (b : Begun NotificationReceipt × Store NotificationReceipt)
      → begin request.idempotency_key fingerprint s ≡ b
      → Delivers fs w s
          (after_begin js hygiene connector_id transport now request fingerprint b w).1
  unfolding after_begin deliver_notification
  after_begin-Delivers fs w s request declared valid fp (replayed r, s') h = leaves
  after_begin-Delivers fs w s request declared valid fp (conflict, s') h = leaves
  after_begin-Delivers fs w s request declared valid fp (joins n, s') h = leaves
  after_begin-Delivers fs w s request declared valid fp (starts n, s') h =
      delivers request declared valid (begin-unknown request.idempotency_key fp s s' n h)

  -- For every request, and whatever receipts there are: a call of `submit` leaves the transport
  -- alone, or it made one delivery, of a valid request with no receipt yet, on a transport whose
  -- declared input boundary is fake, local or a dry run, or is real and has evidence of such a mode
  -- with a reference, and an override with who approved it, when, and why, each a text of at most 256
  -- characters that is not blank.
  pub submit_notification-Delivers :
      (fs : List (String × Value)) (w : W) (s : Store NotificationReceipt)
      → Delivers fs w s (submit_notification js hygiene connector_id transport now fs w s).1
  unfolding submit_notification
  submit_notification-Delivers fs w s =
      elim (support-cases (notify_capability js transport.notify transport.input_boundary)) [
        | inr (reason, refused) ↦ rw refused leaves
        | inl ready ↦ elim (Result-cases (validate_notification_request hygiene fs)) [
          | inr (message, invalid) ↦ rw (ready, invalid) leaves
          | inl (request, valid) ↦
              let declared =
                explain-IsDeclared js "HTTP notification transport" transport.input_boundary (
                  notify_capability-supported js transport.notify transport.input_boundary ready) in
              let fingerprint = fingerprint_notification_request js request in
              rw (ready, valid)
                (after_begin-Delivers fs w s request declared valid fingerprint
                  (begin request.idempotency_key fingerprint s) refl)
        ]
      ]
