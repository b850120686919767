-- ===== src/Connector/Notification.antt =====
-- src/http-notification-connector.ts: the requests of the connector for notifications, and the
-- outcomes of its transport.
pub mod Delivery
pub mod Submit
pub mod Laws
mod Tests
use Prim.Native.String.{◌++◌}
use ensen_flow.Common.{
  ℕ, suc, String, Bool, true, false, not, ◌&&◌, ◌||◌, ◌==◌, Option, none, some, List, [], ◌∷◌, any,
  eqb, leb, if◌then◌else◌, is_blank, Result, ok, err, ◌>>=◌, ◌>>◌, require,
}
use ensen_flow.Common.Codes.{codes, lower_all}
use ensen_flow.Value.{
  Value, Number, nat, undefined, str, num, arr, obj, exotic, Items, nil, cons, Fields, end, field,
  record_of, string_of, get, is_text, is_boolean, one_of, is_one_of,
}
use ensen_flow.Hygiene.{
  Finding, Runtime, otherwise, find_unsafe_workflow_artifact_value,
  format_unsafe_workflow_artifact_diagnostic,
}
use ensen_flow.Definition.Patterns.{is_stable_id}

-- `HttpNotificationSubmitRequest`, once it is validated, with its defaults; `undefined` where there
-- are no headers or no payload
pub record NotificationRequest : Type 0 where
  pub workflow_id : String
  pub run_id : String
  pub step_id : String
  pub idempotency_key : String
  pub attempt : ℕ
  pub endpoint_alias : String
  pub method : String
  pub headers : Value
  pub payload : Value

-- `HttpNotificationOutcome`, once it is validated
pub record NotificationOutcome : Type 0 where
  pub succeeded : Bool
  pub summary : Option String
  pub retryable : Option Bool
  pub evidence : Value

-- the words of `credentialKeyPattern`
abbrev credential_key_words : List String
credential_key_words =
    "authorization" ∷ "cookie" ∷ "password" ∷ "secret" ∷ "token" ∷ "apikey" ∷ "api-key" ∷ "api_key"
    ∷ []

-- `[-_]`
abbrev is_separator : ℕ → Bool
is_separator c = eqb c 45 || eqb c 95

-- a word and then `([-_]|$)`
unfoldable pub word_here : List ℕ → List ℕ → Bool
word_here [] [] = true
word_here [] (c ∷ cs) = is_separator c
word_here (x ∷ xs) [] = false
word_here (x ∷ xs) (c ∷ cs) = eqb x c && word_here xs cs

-- the word after `(^|[-_])`, anywhere in the text
unfoldable pub word_in : Bool → List ℕ → List ℕ → Bool
unfolding word_here
word_in starts word [] = starts && word_here word []
word_in starts word (c ∷ cs) =
    (starts && word_here word (c ∷ cs)) || word_in (is_separator c) word cs

-- `credentialKeyPattern.test(key)`
unfoldable pub has_credential_shape : String → Bool
unfolding word_in codes lower_all
has_credential_shape key =
    any (λ w. word_in true (codes w) (lower_all (codes key))) credential_key_words

abbrev needs_text : Value → String → Result String String
needs_text (str s) message = if is_blank s then err message else ok s
needs_text _ message = err message

abbrev attempt_of : Value → Result String ℕ
attempt_of undefined = ok 1
attempt_of (num (nat (suc n))) = ok (suc n)
attempt_of _ = err "HTTP notification attempt must be a positive integer"

abbrev needs_alias : Value → Result String String
needs_alias (str s) =
    if is_stable_id s
    then ok s
    else err "HTTP notification endpointAlias must be a stable local alias, not a URL or secret"
needs_alias _ =
    err "HTTP notification endpointAlias must be a stable local alias, not a URL or secret"

-- `notification.method ?? "POST"`
abbrev method_of : Value → Result String String
method_of undefined = ok "POST"
method_of (str s) =
    if one_of ("POST" ∷ "PUT" ∷ "PATCH" ∷ []) s
    then ok s
    else err "HTTP notification method must be POST, PUT, or PATCH"
method_of _ = err "HTTP notification method must be POST, PUT, or PATCH"

abbrev refuse_key : Option String → Result String (Unit {0})
refuse_key none = ok tt
refuse_key (some path) =
    err ("HTTP notification fixture must not include credential-shaped field " ++ path)

abbrev refuse_finding : Option Finding → Result String (Unit {0})
refuse_finding none = ok tt
refuse_finding (some finding) =
    err ("HTTP notification fixture " ++ format_unsafe_workflow_artifact_diagnostic finding)

abbrev object_of : Value → String → Result String (List (String × Value))
object_of v message = elim (record_of v) [ none ↦ err message | some fs ↦ ok fs ]

module _ (js : Runtime) where
  unfoldable mutual
    unfolding has_credential_shape

    pub find_credential_shaped_key : Value → String → Option String
    find_credential_shaped_key (arr vs) path = find_key_in_items 0 vs path
    find_credential_shaped_key (obj fs) path = find_key_in_fields fs path
    find_credential_shaped_key (exotic fs) path = find_key_in_fields fs path
    find_credential_shaped_key _ path = none

    pub find_key_in_items : ℕ → Items → String → Option String
    find_key_in_items index nil path = none
    find_key_in_items index (cons v vs) path =
        otherwise (find_credential_shaped_key v (path ++ ("[" ++ (js.number_text index ++ "]"))))
          (find_key_in_items (suc index) vs path)

    pub find_key_in_fields : Fields → String → Option String
    find_key_in_fields end path = none
    find_key_in_fields (field key v fs) path =
        let nested = find_credential_shaped_key v (path ++ ("." ++ key)) in
        let more = find_key_in_fields fs path in
        if has_credential_shape key then some (path ++ ("." ++ key)) else otherwise nested more

  -- `validateHttpNotificationTarget`: the message, or the alias, the method and the fields
  unfoldable pub validate_http_notification_target :
      Value → Result String (String × String × List (String × Value))
  unfolding find_credential_shaped_key find_unsafe_workflow_artifact_value is_stable_id
      format_unsafe_workflow_artifact_diagnostic
  validate_http_notification_target notification = do
    fs ← object_of notification "HTTP notification target must be an object"
    alias ← needs_alias (get fs "endpointAlias")
    method ← method_of (get fs "method")
    refuse_key (find_credential_shaped_key notification "notification")
    refuse_finding (
        find_unsafe_workflow_artifact_value js (obj (field "notification" notification end))
          "notificationRequest")
    ok (alias, method, fs)

  -- `validateSubmitRequest`: the message, or the request
  unfoldable pub validate_notification_request :
      List (String × Value) → Result String NotificationRequest
  unfolding validate_http_notification_target is_blank
  validate_notification_request fs = do
    workflow_id ←
        needs_text (get fs "workflowId") "HTTP notification workflowId must be a non-empty string"
    run_id ← needs_text (get fs "runId") "HTTP notification runId must be a non-empty string"
    step_id ← needs_text (get fs "stepId") "HTTP notification stepId must be a non-empty string"
    idempotency_key ←
        needs_text (get fs "idempotencyKey")
          "HTTP notification idempotencyKey must be a non-empty string"
    attempt ← attempt_of (get fs "attempt")
    target ← validate_http_notification_target (get fs "notification")
    refuse_finding (
        find_unsafe_workflow_artifact_value js
          (obj (field "idempotencyKey" (str idempotency_key) end)) "notificationRequest")
    ok (record {
      workflow_id = workflow_id;
      run_id = run_id;
      step_id = step_id;
      idempotency_key = idempotency_key;
      attempt = attempt;
      endpoint_alias = target.0;
      method = target.1;
      headers = get target.2 "headers";
      payload = get target.2 "payload";
    })

abbrev status_of : Value → Result String Bool
status_of v =
    if is_text "succeeded" v
    then ok true
    else if is_text "failed" v
    then ok false
    else err "HTTP notification transport outcome status must be succeeded or failed"

abbrev summary_of : Value → Result String (Option String)
summary_of undefined = ok none
summary_of (str s) = ok (some s)
summary_of _ = err "HTTP notification transport outcome summary must be a string"

abbrev retryable_of : Value → Result String (Option Bool)
retryable_of undefined = ok none
retryable_of (Value.bool b) = ok (some b)
retryable_of _ = err "HTTP notification transport outcome retryable must be a boolean"

abbrev evidence_of : Value → Result String Value
evidence_of undefined = ok undefined
evidence_of (obj fs) = ok (obj fs)
evidence_of (exotic fs) = ok (exotic fs)
evidence_of _ = err "HTTP notification transport outcome evidence must be an object"

-- `validateHttpNotificationOutcome`: the message, or the outcome
unfoldable pub validate_http_notification_outcome : Value → Result String NotificationOutcome
validate_http_notification_outcome outcome = do
  fs ← object_of outcome "HTTP notification transport outcome must be an object"
  succeeded ← status_of (get fs "status")
  summary ← summary_of (get fs "summary")
  retryable ← retryable_of (get fs "retryable")
  evidence ← evidence_of (get fs "evidence")
  ok (record {
    succeeded = succeeded;
    summary = summary;
    retryable = retryable;
    evidence = evidence;
  })
