-- ===== src/RunState/Record/Shape/Accepted.antt =====
-- src/workflow-run-state.ts: the shape of a record that `validateWorkflowRunEvent` accepts.
use ensen_flow.Common.{
  String, true, false, ◌≡◌, inl, inr, some, List, [], ◌∷◌, arith, Option-cases, Bool-cases, eq_iff,
  ok,
}
use ensen_flow.Value.{Value, record_of, get, is_text, is_one_of}
use ensen_flow.RunState.Record.{
  Checks, event_types, validate_created, validate_completed, validate_step_attempt,
  validate_trigger_context, validate_workflow_run_event, validate_recovery_decision_metadata,
  validate_retry_metadata, validate_idempotency_metadata, validate_result_metadata,
}
use ensen_flow.RunState.Record.Shape.{
  IsRecovery, IsIdempotency, IsRetry, IsTrigger, IsCreated, IsCompleted, IsStepAttempt, IsEvent,
  created, completed, attempted, reject_unsafe-IsClean, validate_json-IsJson,
  reject_unknown_keys-Known, recovery_keys, idempotency_keys, retry_keys, trigger_keys,
  created_keys, completed_keys, step_attempt_keys,
}

module _ (checks : Checks) where
  validate_recovery_decision_metadata-IsRecovery :
      (v : Value) → validate_recovery_decision_metadata checks v ≡ ok tt → IsRecovery checks v
  unfolding validate_recovery_decision_metadata
  validate_recovery_decision_metadata-IsRecovery v h = elim (Option-cases (record_of v)) [
    | inl e ↦ absurd (ground arith)
    | inr (fs, e) ↦ record {
      fields = fs;
      is_record = e;
      state = ground arith;
      decision = ground arith;
      reason = ground arith;
      known = reject_unknown_keys-Known fs recovery_keys (ground arith);
      clean = reject_unsafe-IsClean checks (get fs "reason") "recovery.reason" (ground arith);
    }
  ]

  validate_retry_metadata-IsRetry :
      (v : Value) → validate_retry_metadata checks v ≡ ok tt → IsRetry checks v
  unfolding validate_retry_metadata
  validate_retry_metadata-IsRetry v h = elim (Option-cases (record_of v)) [
    | inl e ↦ absurd (ground arith)
    | inr (fs, e) ↦ record {
      fields = fs;
      is_record = e;
      retryable = ground arith;
      next_attempt_at = λ r. ground arith;
      reason = λ r. (
        ground arith,
        reject_unsafe-IsClean checks (get fs "reason") "retry.reason" (ground arith),
      );
      known = reject_unknown_keys-Known fs retry_keys (ground arith);
    }
  ]

  validate_idempotency_metadata-IsIdempotency :
      (v : Value) → validate_idempotency_metadata checks v ≡ ok tt → IsIdempotency checks v
  unfolding validate_idempotency_metadata
  validate_idempotency_metadata-IsIdempotency v h = elim (Option-cases (record_of v)) [
    | inl e ↦ absurd (ground arith)
    | inr (fs, e) ↦ record {
      fields = fs;
      is_record = e;
      source = ground arith;
      key = ground arith;
      known = reject_unknown_keys-Known fs idempotency_keys (ground arith);
      clean = reject_unsafe-IsClean checks (get fs "key") "idempotencyKey.key" (ground arith);
    }
  ]

  validate_trigger_context-IsTrigger :
      (v : Value) → validate_trigger_context checks v ≡ ok tt → IsTrigger checks v
  unfolding validate_trigger_context
  validate_trigger_context-IsTrigger v h = elim (Option-cases (record_of v)) [
    | inl e ↦ absurd (ground arith)
    | inr (fs, e) ↦ record {
      fields = fs;
      is_record = e;
      type = ground arith;
      received_at = ground arith;
      context = λ r. (
        ground arith,
        validate_json-IsJson checks (get fs "context") "trigger.context" (ground arith),
        reject_unsafe-IsClean checks (get fs "context") "trigger.context" (ground arith),
      );
      known = reject_unknown_keys-Known fs trigger_keys (ground arith);
      idempotency_key =
          λ r. validate_idempotency_metadata-IsIdempotency (get fs "idempotencyKey") (ground arith);
    }
  ]

  validate_created-IsCreated :
      (fs : List (String × Value))
      → is_text "run.created" (get fs "type") ≡ true
      → validate_created checks fs ≡ ok tt
      → IsCreated checks fs
  unfolding validate_created
  validate_created-IsCreated fs t h = record {
    type = t;
    run_id = ground arith;
    workflow_id = ground arith;
    workflow_version = ground arith;
    occurred_at = ground arith;
    trigger = validate_trigger_context-IsTrigger (get fs "trigger") (ground arith);
    known = reject_unknown_keys-Known fs created_keys (ground arith);
  }

  validate_completed-IsCompleted :
      (fs : List (String × Value))
      → is_text "run.completed" (get fs "type") ≡ true
      → validate_completed checks fs ≡ ok tt
      → IsCompleted checks fs
  unfolding validate_completed
  validate_completed-IsCompleted fs t h = record {
    type = t;
    run_id = ground arith;
    terminal_state = ground arith;
    occurred_at = ground arith;
    known = reject_unknown_keys-Known fs completed_keys (ground arith);
    recovery =
        λ r. validate_recovery_decision_metadata-IsRecovery (get fs "recovery") (ground arith);
  }

  validate_step_attempt-IsStepAttempt :
      (fs : List (String × Value))
      → is_one_of
          ("step.attempt.started" ∷ "step.attempt.completed" ∷ "step.attempt.failed" ∷ [])
          (get fs "type")
        ≡ true
      → validate_step_attempt checks fs ≡ ok tt
      → IsStepAttempt checks fs
  unfolding validate_step_attempt validate_result_metadata
  validate_step_attempt-IsStepAttempt fs t h = record {
    type = t;
    run_id = ground arith;
    step_id = ground arith;
    attempt = ground arith;
    occurred_at = ground arith;
    retry = λ r. validate_retry_metadata-IsRetry (get fs "retry") (ground arith);
    result = λ r. (
      ground arith,
      ground arith,
      validate_json-IsJson checks (get fs "result") "result" (ground arith),
      reject_unsafe-IsClean checks (get fs "result") "result" (ground arith),
    );
    known = reject_unknown_keys-Known fs step_attempt_keys (ground arith);
    recovery =
        λ r. validate_recovery_decision_metadata-IsRecovery (get fs "recovery") (ground arith);
  }

  other_type :
      (v : Value)
      → is_one_of event_types v ≡ true
      → is_text "run.created" v ≡ false
      → is_text "run.completed" v ≡ false
      → is_one_of ("step.attempt.started" ∷ "step.attempt.completed" ∷ "step.attempt.failed" ∷ []) v
        ≡ true
  other_type (Value.str s) one c d = ground (
    arith,
    eq_iff "run.created" s,
    eq_iff s "run.created",
    eq_iff "run.completed" s,
    eq_iff s "run.completed",
  )
  other_type Value.undefined one c d = absurd (cc)
  other_type Value.null one c d = absurd (cc)
  other_type (Value.bool b) one c d = absurd (cc)
  other_type (Value.num n) one c d = absurd (cc)
  other_type (Value.arr vs) one c d = absurd (cc)
  other_type (Value.obj fs) one c d = absurd (cc)
  other_type (Value.exotic fs) one c d = absurd (cc)
  other_type Value.other one c d = absurd (cc)

  -- A value that `validateWorkflowRunEvent` accepts is an object with the fields of the interface that
  -- its `type` names and no others: texts that are not blank, timestamps, a positive attempt number, a
  -- trigger, a terminal state, and well-formed `retry`, `recovery` and `idempotencyKey`, without other
  -- keys, where they are there; a `result` or a trigger's `context` is an object that JSON can hold, and
  -- a record of `step.attempt.started` has no `result`; unless `artifactHygiene` is `"skip"`, the search
  -- for unsafe values finds none in a `result`, a `context`, the reasons and the idempotency key.
  pub validate_workflow_run_event-IsEvent :
      (v : Value)
      → validate_workflow_run_event checks v ≡ ok tt
      → (fs : List (String × Value)) × (record_of v ≡ some fs) × IsEvent checks fs
  unfolding validate_workflow_run_event
  validate_workflow_run_event-IsEvent v h = elim (Option-cases (record_of v)) [
    | inl e ↦ absurd (ground arith)
    | inr (fs, e) ↦
        let event : IsEvent checks fs = elim (Bool-cases (is_text "run.created" (get fs "type"))) [
          | inl c ↦ created (validate_created-IsCreated fs c (ground arith))
          | inr c ↦ elim (Bool-cases (is_text "run.completed" (get fs "type"))) [
            | inl d ↦ completed (validate_completed-IsCompleted fs d (ground arith))
            | inr d ↦
                let one : is_one_of event_types (get fs "type") ≡ true = ground arith in
                attempted (
                  validate_step_attempt-IsStepAttempt fs (other_type (get fs "type") one c d)
                    (ground arith))
          ]
        ] in
        (fs, e, event)
  ]
