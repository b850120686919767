-- ===== src/RunState/Record/Shape.antt =====
-- src/workflow-run-state.ts: the records that the file may hold, as its interfaces declare them.
pub mod Accepted
use ensen_flow.Common.{
  String, true, false, ◌≡◌, inl, inr, some, List, [], ◌∷◌, arith, Option-cases, Bool-cases, eq_iff,
  ok, is_some, none, All, Bool, ◌≢◌, ℕ, suc, >>=-eq-ok,
}
use Prim.Native.String.{◌++◌ as ◌<>◌}
use ensen_flow.Hygiene.{find_unsafe_workflow_artifact_value}
use ensen_flow.Value.{
  Value, Number, Items, Fields, one_of, record_of, get, has, is_text, is_one_of, is_boolean,
}
use ensen_flow.RunState.Record.{
  reject_unknown_keys, validate_json_serializable_value, json_items, json_fields,
  reject_unsafe_workflow_artifact_values, Checks, is_non_empty_text, is_positive,
  is_timestamp_value, event_types, validate_created, validate_completed, validate_step_attempt,
  validate_trigger_context, validate_workflow_run_event, validate_recovery_decision_metadata,
  validate_retry_metadata, is_recovery_state, is_recovery_decision, is_terminal_state,
  validate_idempotency_metadata, validate_result_metadata,
}

-- a number that the check takes
finite :
    (checks : Checks) (n : Number) (path : String)
    → validate_json_serializable_value checks (Value.num n) path ≡ ok tt
    → n ≢ Number.not_finite
unfolding validate_json_serializable_value
finite checks n path h e = absurd (cc (rw e at h))

-- the fields of the interfaces
abbrev pub recovery_keys : List String
recovery_keys = "state" ∷ "decision" ∷ "reason" ∷ []

abbrev pub idempotency_keys : List String
idempotency_keys = "source" ∷ "key" ∷ []

abbrev pub retry_keys : List String
retry_keys = "retryable" ∷ "nextAttemptAt" ∷ "reason" ∷ []

abbrev pub trigger_keys : List String
trigger_keys = "type" ∷ "receivedAt" ∷ "context" ∷ "idempotencyKey" ∷ []

abbrev pub created_keys : List String
created_keys = "type" ∷ "runId" ∷ "workflowId" ∷ "workflowVersion" ∷ "trigger" ∷ "occurredAt" ∷ []

abbrev pub completed_keys : List String
completed_keys = "type" ∷ "runId" ∷ "terminalState" ∷ "occurredAt" ∷ "recovery" ∷ []

abbrev pub step_attempt_keys : List String
step_attempt_keys =
    "type" ∷ "runId" ∷ "stepId" ∷ "attempt" ∷ "occurredAt" ∷ "retry" ∷ "result" ∷ "recovery" ∷ []

-- there are no other keys than the allowed ones
abbrev pub Known : List (String × Value) → List String → Type 0
Known fs allowed = All (λ (p : String × Value). one_of allowed p.0 ≡ true) fs

-- A value that JSON can hold: each number in it is finite, and nothing in it is `undefined`, a function
-- or an object of a class.
mutual
  pub data IsJson : Value → Type 0 where
    null : IsJson Value.null
    text : (s : String) → IsJson (Value.str s)
    truth : (b : Bool) → IsJson (Value.bool b)
    number : (n : Number) → n ≢ Number.not_finite → IsJson (Value.num n)
    array : (vs : Items) → AreJson vs → IsJson (Value.arr vs)
    object : (fs : Fields) → HoldJson fs → IsJson (Value.obj fs)

  pub data AreJson : Items → Type 0 where
    nil : AreJson Items.nil
    cons : (v : Value) (vs : Items) → IsJson v → AreJson vs → AreJson (Items.cons v vs)

  pub data HoldJson : Fields → Type 0 where
    end : HoldJson Fields.end
    field :
        (k : String) (v : Value) (fs : Fields)
        → IsJson v
        → HoldJson fs
        → HoldJson (Fields.field k v fs)

pub reject_unknown_keys-Known :
    (fs : List (String × Value)) (allowed : List String)
    → reject_unknown_keys fs allowed ≡ ok tt
    → Known fs allowed
reject_unknown_keys-Known [] allowed h = tt
reject_unknown_keys-Known ((k, v) ∷ fs) allowed h = elim (Bool-cases (one_of allowed k)) [
  | inl y ↦ (y, reject_unknown_keys-Known fs allowed (rw y at h))
  | inr n ↦ absurd (cc (rw n at h))
]

module _ (checks : Checks) where
  -- `validateJsonSerializableValue`
  mutual
    unfolding validate_json_serializable_value json_items json_fields

    pub validate_json-IsJson :
        (v : Value) (path : String)
        → validate_json_serializable_value checks v path ≡ ok tt
        → IsJson v
    validate_json-IsJson Value.null path h = null
    validate_json-IsJson (Value.str s) path h = text s
    validate_json-IsJson (Value.bool b) path h = truth b
    validate_json-IsJson (Value.num n) path h = number n (finite checks n path h)
    validate_json-IsJson (Value.arr vs) path h = array vs (json_items-AreJson vs 0 path h)
    validate_json-IsJson (Value.obj fs) path h = object fs (json_fields-HoldJson fs path h)
    validate_json-IsJson Value.undefined path h = absurd (cc)
    validate_json-IsJson (Value.exotic fs) path h = absurd (cc)
    validate_json-IsJson Value.other path h = absurd (cc)

    json_items-AreJson :
        (vs : Items) (i : ℕ) (path : String) → json_items checks vs i path ≡ ok tt → AreJson vs
    json_items-AreJson Items.nil i path h = nil
    json_items-AreJson (Items.cons v vs) i path h =
        let at_i = path <> ("[" <> (checks.js.number_text i <> "]")) in
        let (t, here, rest) = >>=-eq-ok (validate_json_serializable_value checks v at_i) _ h in
        cons v vs (validate_json-IsJson v at_i here) (json_items-AreJson vs (suc i) path rest)

    json_fields-HoldJson :
        (fs : Fields) (path : String) → json_fields checks fs path ≡ ok tt → HoldJson fs
    json_fields-HoldJson Fields.end path h = end
    json_fields-HoldJson (Fields.field k v fs) path h =
        let at_k = path <> ("." <> k) in
        let (t, here, rest) = >>=-eq-ok (validate_json_serializable_value checks v at_k) _ h in
        field k v fs (validate_json-IsJson v at_k here) (json_fields-HoldJson fs path rest)

  -- the search for unsafe values finds nothing, where it is not skipped
  abbrev pub IsClean : Value → String → Type 0
  IsClean v path =
      checks.skips_hygiene ≡ false → find_unsafe_workflow_artifact_value checks.js v path ≡ none

  pub reject_unsafe-IsClean :
      (v : Value) (path : String)
      → reject_unsafe_workflow_artifact_values checks v path ≡ ok tt
      → IsClean v path
  unfolding reject_unsafe_workflow_artifact_values
  reject_unsafe-IsClean v path h searched =
      elim (Option-cases (find_unsafe_workflow_artifact_value checks.js v path)) [
        | inl e ↦ e
        | inr (finding, e) ↦ absurd (cc (rw (searched, e) at h))
      ]

  -- a `WorkflowRunRecoveryDecisionMetadata`
  pub record IsRecovery (value : Value) : Type 0 where
    pub fields : List (String × Value)
    pub is_record : record_of value ≡ some fields
    pub state : is_recovery_state (get fields "state") ≡ true
    pub decision : is_recovery_decision (get fields "decision") ≡ true
    pub reason : is_non_empty_text (get fields "reason") ≡ true
    pub known : Known fields recovery_keys
    pub clean : IsClean (get fields "reason") "recovery.reason"

  -- a `WorkflowRunIdempotencyMetadata`
  pub record IsIdempotency (value : Value) : Type 0 where
    pub fields : List (String × Value)
    pub is_record : record_of value ≡ some fields
    pub source : is_one_of ("input" ∷ "workflow" ∷ "static" ∷ []) (get fields "source") ≡ true
    pub key : is_non_empty_text (get fields "key") ≡ true
    pub known : Known fields idempotency_keys
    pub clean : IsClean (get fields "key") "idempotencyKey.key"

  -- a `WorkflowRunRetryMetadata`
  pub record IsRetry (value : Value) : Type 0 where
    pub fields : List (String × Value)
    pub is_record : record_of value ≡ some fields
    pub retryable : is_boolean (get fields "retryable") ≡ true
    pub next_attempt_at :
        has fields "nextAttemptAt" ≡ true
        → is_timestamp_value checks (get fields "nextAttemptAt") ≡ true
    pub reason :
        has fields "reason" ≡ true
        → (is_non_empty_text (get fields "reason") ≡ true)
          × IsClean (get fields "reason") "retry.reason"
    pub known : Known fields retry_keys

  -- a `WorkflowRunTriggerContext`
  pub record IsTrigger (value : Value) : Type 0 where
    pub fields : List (String × Value)
    pub is_record : record_of value ≡ some fields
    pub type : is_non_empty_text (get fields "type") ≡ true
    pub received_at : is_timestamp_value checks (get fields "receivedAt") ≡ true
    pub context :
        has fields "context" ≡ true
        → (is_some (record_of (get fields "context")) ≡ true)
          × IsJson (get fields "context")
          × IsClean (get fields "context") "trigger.context"
    pub known : Known fields trigger_keys
    pub idempotency_key :
        has fields "idempotencyKey" ≡ true → IsIdempotency (get fields "idempotencyKey")

  -- a `WorkflowRunCreatedEvent`
  pub record IsCreated (fs : List (String × Value)) : Type 0 where
    pub type : is_text "run.created" (get fs "type") ≡ true
    pub run_id : is_non_empty_text (get fs "runId") ≡ true
    pub workflow_id : is_non_empty_text (get fs "workflowId") ≡ true
    pub workflow_version : is_non_empty_text (get fs "workflowVersion") ≡ true
    pub occurred_at : is_timestamp_value checks (get fs "occurredAt") ≡ true
    pub trigger : IsTrigger (get fs "trigger")
    pub known : Known fs created_keys

  -- a `WorkflowRunCompletedEvent`
  pub record IsCompleted (fs : List (String × Value)) : Type 0 where
    pub type : is_text "run.completed" (get fs "type") ≡ true
    pub run_id : is_non_empty_text (get fs "runId") ≡ true
    pub terminal_state : is_terminal_state (get fs "terminalState") ≡ true
    pub occurred_at : is_timestamp_value checks (get fs "occurredAt") ≡ true
    pub recovery : has fs "recovery" ≡ true → IsRecovery (get fs "recovery")
    pub known : Known fs completed_keys

  -- a `WorkflowStepAttemptEvent`
  pub record IsStepAttempt (fs : List (String × Value)) : Type 0 where
    pub type :
        is_one_of
          ("step.attempt.started" ∷ "step.attempt.completed" ∷ "step.attempt.failed" ∷ [])
          (get fs "type")
        ≡ true
    pub run_id : is_non_empty_text (get fs "runId") ≡ true
    pub step_id : is_non_empty_text (get fs "stepId") ≡ true
    pub attempt : is_positive (get fs "attempt") ≡ true
    pub occurred_at : is_timestamp_value checks (get fs "occurredAt") ≡ true
    pub retry : has fs "retry" ≡ true → IsRetry (get fs "retry")
    pub result :
        has fs "result" ≡ true
        → (is_some (record_of (get fs "result")) ≡ true)
          × (is_text "step.attempt.started" (get fs "type") ≡ false)
          × IsJson (get fs "result")
          × IsClean (get fs "result") "result"
    pub recovery : has fs "recovery" ≡ true → IsRecovery (get fs "recovery")
    pub known : Known fs step_attempt_keys

  pub data IsEvent (fs : List (String × Value)) : Type 0 where
    created : IsCreated fs → IsEvent fs
    completed : IsCompleted fs → IsEvent fs
    attempted : IsStepAttempt fs → IsEvent fs
