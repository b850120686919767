-- ===== src/Runner/Attempt/Keeps.antt =====
-- src/workflow-runner.ts: the actions of a round, and the appends to the state file in them.
use ensen_flow.Common.{
  ℕ, String, Bool, true, false, inl, inr, Option, none, some, Result, ok, err, Result-cases,
  if◌then◌else◌,
}
use ensen_flow.Value.{Value}
use ensen_flow.RunState.{Event, RetryMetadata, RecoveryDecisionMetadata}
use ensen_flow.RunState.Store.{Disk, append_workflow_run_event}
use ensen_flow.RunState.Store.Reachable.{Writes, here, next, append}
use ensen_flow.Definition.{WorkflowDefinition, WorkflowStep, RetryPolicy}
use ensen_flow.Runner.Exec.{
  Thrown, Exec, pure, raise, lift, continue, ◌>>=◌, handled, catch, StepResult, ExecutorStatus,
}
use ensen_flow.Runner.Attempt.{
  now, Failure, written, logged, read_current_run_state, append_run_event, write_audit_event,
  call_step_handler, write_step_audit_event, require_status, require_succeeded, try_attempt,
  fail_run, after_failure, catch_failure, run_attempt, next_attempt_at,
}
use ensen_flow.Runner.Environment.{
  RunWorld, Environment, AuditEvent, WorkflowStepHandlerInput, AuditType, AuditOutcomeContext,
}

module _ (env : Environment) where
  -- whether it returns or throws, the action leaves a file that accepted appends lead to
  pub record Appends {A : Type 0} (m : Exec RunWorld A) : Type 0 where
    pub at : (w : RunWorld) → Writes env.codec w.disk (m w).1.disk

  Writes-trans : {a b c : Disk} → Writes env.codec a b → Writes env.codec b c → Writes env.codec a c
  Writes-trans x here = x
  Writes-trans x (next y call) = next (Writes-trans x y) call

  pub Appends-pure : {A : Type 0} (a : A) → Appends (pure a)
  Appends-pure a = record { at = λ w. here }

  pub Appends-raise : {A : Type 0} (e : Thrown) → Appends (raise {A = A} e)
  Appends-raise e = record { at = λ w. here }

  pub Appends-lift : {A : Type 0} (r : Result Thrown A) → Appends (lift r)
  Appends-lift r = record { at = λ w. here }

  continue-Writes :
      {A B : Type 0} (f : A → Exec RunWorld B) (r : Result Thrown A) (w : RunWorld)
      → ((a : A) → Appends (f a))
      → Writes env.codec w.disk (continue f r w).1.disk
  continue-Writes f (ok a) w h = (h a).at w
  continue-Writes f (err e) w h = here

  pub Appends-bind :
      {A B : Type 0} (m : Exec RunWorld A) (f : A → Exec RunWorld B)
      → Appends m
      → ((a : A) → Appends (f a))
      → Appends (m >>= f)
  Appends-bind m f hm hf = record {
    at = λ w. Writes-trans (hm.at w) (continue-Writes f (m w).0 (m w).1 hf);
  }

  handled-Writes :
      {A : Type 0} (f : Thrown → Exec RunWorld A) (r : Result Thrown A) (w : RunWorld)
      → ((e : Thrown) → Appends (f e))
      → Writes env.codec w.disk (handled f r w).1.disk
  handled-Writes f (ok a) w h = here
  handled-Writes f (err e) w h = (h e).at w

  pub Appends-catch :
      {A : Type 0} (m : Exec RunWorld A) (f : Thrown → Exec RunWorld A)
      → Appends m
      → ((e : Thrown) → Appends (f e))
      → Appends (catch m f)
  Appends-catch m f hm hf = record {
    at = λ w. Writes-trans (hm.at w) (handled-Writes f (m w).0 (m w).1 hf);
  }

  pub Appends-if :
      {A : Type 0} (b : Bool) (m n : Exec RunWorld A)
      → Appends m
      → Appends n
      → Appends (if b then m else n)
  Appends-if true m n hm hn = hm
  Appends-if false m n hm hn = hn

  pub Appends-now : Appends (now env)
  unfolding now
  Appends-now = record { at = λ w. here }

  pub Appends-read : Appends (read_current_run_state env)
  unfolding read_current_run_state
  Appends-read = record { at = λ w. here }

  pub Appends-append : (e : Event) → Appends (append_run_event env e)
  unfolding append_run_event
  Appends-append e = record {
    at = λ w. elim (Result-cases (append_workflow_run_event env.codec e w.disk)) [
      | inl (disk, r) ↦ rw (r, written) (next here (append e r))
      | inr (x, r) ↦ rw (r, written) here
    ];
  }

  pub Appends-audit : (e : AuditEvent) → Appends (write_audit_event env e)
  unfolding write_audit_event
  Appends-audit e = record {
    at = λ w. elim (Result-cases (env.write_audit e w.audit)) [
      | inl (audit, r) ↦ rw (r, logged) here
      | inr (x, r) ↦ rw (r, logged) here
    ];
  }

  Appends-handler : (input : WorkflowStepHandlerInput) → Appends (call_step_handler env input)
  unfolding call_step_handler
  Appends-handler input = record { at = λ w. here }

  Appends-step_audit :
      (type : AuditType) (at_time step_id : String) (attempt : ℕ) (retry : Option RetryMetadata)
      (outcome : Option AuditOutcomeContext) (approval : Option Value)
      → Appends (write_step_audit_event env type at_time step_id attempt retry outcome approval)
  unfolding write_step_audit_event
  Appends-step_audit type at_time step_id attempt retry outcome approval = Appends-audit _

  Appends-require_succeeded : (r : Option StepResult) → Appends (require_succeeded env r)
  unfolding require_succeeded
  Appends-require_succeeded none = Appends-pure tt
  Appends-require_succeeded (some r) = by_status r r.status
    where
      by_status : (r : StepResult) (s : ExecutorStatus) → Appends (require_status env r s)
      by_status r ExecutorStatus.succeeded = Appends-pure tt
      by_status r _ = search (Appends-bind, Appends-lift, Appends-raise)

  pub ruleset appends_rules = (
    Appends-pure, Appends-raise, Appends-lift, Appends-bind, Appends-if, Appends-now, Appends-read,
    Appends-append, Appends-audit,
  )

  ruleset attempt_rules =
      (appends_rules, Appends-handler, Appends-step_audit, Appends-require_succeeded)

  module _ (definition : WorkflowDefinition) (run_id : String) (step : WorkflowStep) where
    Appends-try : (attempt : ℕ) → Appends (try_attempt env definition run_id step attempt)
    unfolding try_attempt
    Appends-try attempt = search attempt_rules depth 30

    Appends-fail_run :
        (failure : Failure) (recovery : Option RecoveryDecisionMetadata)
        → Appends (fail_run env definition run_id step failure recovery)
    unfolding fail_run
    Appends-fail_run failure recovery = search attempt_rules depth 20

    Appends-after_failure :
        (attempt : ℕ) (failure : Failure) (recovery : Option RecoveryDecisionMetadata)
        (failed_at : String) (retry : RetryMetadata)
        → Appends
            (after_failure env definition run_id step attempt failure recovery failed_at retry)
    unfolding after_failure
    Appends-after_failure attempt failure recovery failed_at retry =
        search (attempt_rules, Appends-fail_run) depth 20

    Appends-next_attempt_at :
        (retryable : Bool) (failed_at : String) (policy : RetryPolicy) (attempt : ℕ)
        → Appends (next_attempt_at env definition run_id step retryable failed_at policy attempt)
    unfolding next_attempt_at
    Appends-next_attempt_at retryable failed_at policy attempt = Appends-lift _

    Appends-catch_failure :
        (policy : RetryPolicy) (attempt : ℕ) (failure : Failure)
        → Appends (catch_failure env definition run_id step policy attempt failure)
    unfolding catch_failure
    Appends-catch_failure policy attempt failure =
        search (attempt_rules, Appends-next_attempt_at, Appends-after_failure) depth 20

    pub Appends-run_attempt :
        (policy : RetryPolicy) (attempt : ℕ)
        → Appends (run_attempt env definition run_id step policy attempt)
    unfolding run_attempt
    Appends-run_attempt policy attempt =
        search (attempt_rules, Appends-catch, Appends-try, Appends-catch_failure) depth 20
