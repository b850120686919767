-- ===== src/Connector/Notification/Tests.antt =====
-- The connector for notifications on its fake transport.
use ensen_flow.Common.{ℕ, String, false, ◌≡◌, refl, none, some, List, [], ◌∷◌}
use ensen_flow.Value.{Value, str, obj, field, end, entries}
use ensen_flow.Hygiene.{Runtime}
use ensen_flow.Intake.{WebRuntime}
use ensen_flow.Connector.Idempotency.{empty}
use ensen_flow.Connector.Notification.{has_credential_shape}
use ensen_flow.Connector.Notification.Delivery.{
  Delivery, Transport, create_fake_http_notification_transport,
}
use ensen_flow.Connector.Notification.Submit.{delivery_of, submit_notification}
use ensen_flow.Connector.Notification.Laws.{Delivers, submit_notification-Delivers}

abbrev js : WebRuntime
js = record {
  to_lower_case = λ s. s;
  number_text = λ n. "1";
  iso_of_date = λ s. some s;
  less = λ a b. false;
  json = λ v. "json";
  sha256 = λ s. s;
}

abbrev hygiene : Runtime
hygiene = record {
  test = λ p s. false;
  json_parse = λ s. none;
  number_text = λ n. "0";
  json_string = λ s. s;
}

abbrev transport : Transport (List Delivery)
transport = create_fake_http_notification_transport none []

abbrev fields : List (String × Value)
fields = entries (
    field "workflowId" (str "w") (
      field "runId" (str "r") (
        field "stepId" (str "s") (
          field "idempotencyKey" (str "k")
            (field "notification" (obj (field "endpointAlias" (str "team-chat") end)) end)))))

abbrev clock : List Delivery → String
clock w = "2026-01-01T00:00:00.000Z"

submit_notification-Delivers_example :
    Delivers js hygiene "http-notification" transport clock fields [] empty
      (submit_notification js hygiene "http-notification" transport clock fields [] empty).1
submit_notification-Delivers_example =
    submit_notification-Delivers js hygiene "http-notification" transport clock fields [] empty

-- the request is delivered, once
delivered_once :
    (submit_notification js hygiene "http-notification" transport clock fields [] empty).1
    ≡ delivery_of js hygiene "http-notification" transport clock (record {
      workflow_id = "w";
      run_id = "r";
      step_id = "s";
      idempotency_key = "k";
      attempt = 1;
      endpoint_alias = "team-chat";
      method = "POST";
      headers = Value.undefined;
      payload = Value.undefined;
    })
      ∷ []
unfolding submit_notification create_fake_http_notification_transport ensen_flow.Common.lookup
    ensen_flow.Definition.Patterns.matches_rest ensen_flow.Common.Codes.text_length
    ensen_flow.Hygiene.parse_json_formatted_container
    ensen_flow.Hygiene.classify_unsafe_workflow_artifact_string
    ensen_flow.Hygiene.classify_unsafe_workflow_artifact_key empty
delivered_once = refl

shaped : has_credential_shape "X-Api-Key" ≡ has_credential_shape "token"
unfolding has_credential_shape
shaped = refl
