-- ===== src/Runner/Attempt/Ends.antt =====
-- src/workflow-runner.ts: the ways in which a round of the loop over the attempts of a step ends.
use ensen_flow.Common.{
  is_some, Bool, ◌&&◌, ℕ, ◌+◌, String, true, not, ◌≡◌, ◌≢◌, refl, ap, none, some, Option, arith,
  ltb, length, ok, or_else,
}
use ensen_flow.Value.{obj, end}
use ensen_flow.RunState.{
  TerminalState, AttemptStatus, StepEventType, RetryMetadata, RecoveryDecisionMetadata, RunState,
  CompletedEvent, StepAttemptEvent, run_completed, step_attempt,
}
use ensen_flow.RunState.Project.{Projection}
use ensen_flow.RunState.Project.Accepted.{Accepted, step, ending, project_event-Accepted}
use ensen_flow.RunState.Project.Extension.{projection_of}
use ensen_flow.RunState.Store.{Disk, append_workflow_run_event}
use ensen_flow.RunState.Store.Laws.{append-Appended}
use ensen_flow.RunState.Store.Lasting.{StepEnded, completed-StepEnded}
use ensen_flow.Definition.{WorkflowDefinition, WorkflowStep, RetryPolicy}
use ensen_flow.Runner.Exec.{pure, lift, ◌>>=◌}
use ensen_flow.Runner.Outcome.{
  error_reason, recovery_decision_from_step_result, is_workflow_step_non_retryable_error,
  normalize_step_handler_result,
}
use ensen_flow.Runner.Checkpoint.{approval_boundary, approval_audit_context}
use ensen_flow.Runner.Environment.{AuditType, Environment, Flow, leave, again, return}
use ensen_flow.Runner.Attempt.{
  call_step_handler, require_succeeded, step_event, now, append_run_event, failure_from, Failure,
  read_current_run_state, try_attempt, fail_run, after_failure, catch_failure, run_attempt,
  write_step_audit_event, awaits_operator, next_attempt_at, may_retry, retry_metadata,
}
use ensen_flow.Runner.Attempt.Ensures.{
  Any, Ensures, Ensures-pure, Ensures-bind, Ensures-skip, Ensures-catch, Ensures-if, Ensures-read,
  Ensures-audit, Ensures-append, Reads,
}

last_and : (a b c : Bool) → (a && b && c) ≡ true → c ≡ true
last_and a b c h = ground arith

module _ (env : Environment) where
  -- the file reads as a run of this terminal state
  pub record ReadsOver (over : Option TerminalState) (disk : Disk) : Type 0 where
    pub state : RunState
    pub reads : Reads env disk state
    pub is_over : state.run.terminal_state ≡ over

  append_completed-ReadsOver :
      (e : CompletedEvent) (disk disk' : Disk)
      → append_workflow_run_event env.codec (run_completed e) disk ≡ ok disk'
      → ReadsOver (some e.terminal_state) disk'
  append_completed-ReadsOver e disk disk' h =
      let a = append-Appended env.codec (run_completed e) disk disk' h in
      record {
        state = _;
        reads = a.read_after;
        is_over = over (
            project_event-Accepted (length a.state.events + 1) (projection_of a.state) a.next
              (run_completed e) a.step);
      }
    where
      over :
          {line : ℕ} {p q : Projection}
          → Accepted line p q (run_completed e)
          → q.run.terminal_state ≡ some e.terminal_state
      over (ending open_run same_run changed) = rw changed refl

  append_step-ReadsOver :
      (e : StepAttemptEvent) (disk disk' : Disk)
      → append_workflow_run_event env.codec (step_attempt e) disk ≡ ok disk'
      → ReadsOver none disk'
  append_step-ReadsOver e disk disk' h =
      let a = append-Appended env.codec (step_attempt e) disk disk' h in
      record {
        state = _;
        reads = a.read_after;
        is_over = over (
            project_event-Accepted (length a.state.events + 1) (projection_of a.state) a.next
              (step_attempt e) a.step);
      }
    where
      over :
          {line : ℕ} {p q : Projection}
          → Accepted line p q (step_attempt e)
          → q.run.terminal_state ≡ none
      over (step open_run same_run applied changed) = rw changed open_run

  module _ (definition : WorkflowDefinition) (run_id : String) (step' : WorkflowStep)
      (policy : RetryPolicy) where
    -- `break`: the step succeeded. The next round: one is left. `return`: the run did not succeed.
    pub data Ends (attempt : ℕ) : Flow → Disk → Type 0 where
      leaves :
          {disk : Disk}
          → StepEnded env.codec AttemptStatus.succeeded step'.id disk
          → Ends attempt leave disk
      goes_on : {disk : Disk} → ltb attempt policy.max_attempts ≡ true → Ends attempt again disk
      returns :
          {disk : Disk} (s : RunState)
          → Reads env disk s
          → s.run.terminal_state ≢ some TerminalState.succeeded
          → Ends attempt (return s) disk

    Ensures-try :
        (attempt : ℕ) → Ensures Any (try_attempt env definition run_id step' attempt) (Ends attempt)
    unfolding try_attempt write_step_audit_event
    Ensures-try attempt = Ensures-skip (read_current_run_state env) _ (λ current.
        let context = or_else current.run.trigger.context (obj end) in
        Ensures-skip (call_step_handler env _) _ (λ value.
          Ensures-skip (lift (normalize_step_handler_result value)) _ (λ result.
            Ensures-skip (require_succeeded env result) _ (λ t.
              Ensures-skip (lift (approval_boundary context result)) _ (λ t.
                Ensures-skip (lift (approval_audit_context env.validate_approval result)) _
                  (λ approval. Ensures-skip (now env) _ (λ completed_at.
                    Ensures-bind _ _
                      (Ensures-append env
                        (step_event env StepEventType.completed run_id step'.id attempt completed_at
                          none result none)
                        (λ d d' h. completed-StepEnded env.codec d d' _ refl h))
                      (λ t.
                        Ensures-bind _ _ (Ensures-audit env _)
                          (λ t. Ensures-pure leave (λ d e. leaves e))))))))))

    return_read :
        (attempt : ℕ) (over : Option TerminalState)
        → over ≢ some TerminalState.succeeded
        → Ensures
            (ReadsOver over)
            (read_current_run_state env >>= λ state. pure (return state))
            (Ends attempt)
    return_read attempt over n =
        Ensures-bind _ _ (Ensures-read env)
          (λ s. Ensures-pure (return s) (λ d p. returns s p.1 (λ e. n (over_of d s p.0 p.1 e))))
      where
        over_of :
            (d : Disk) (s : RunState)
            → ReadsOver over d
            → Reads env d s
            → s.run.terminal_state ≡ some TerminalState.succeeded
            → over ≡ some TerminalState.succeeded
        over_of d s o r e =
            let same : o.state ≡ s = cc (o.reads, r) in
            cc (o.is_over, ap (λ (x : RunState). x.run.terminal_state) same, e)

    Ensures-fail_run :
        {P : Disk → Type 0} (attempt : ℕ) (failure : Failure)
        (recovery : Option RecoveryDecisionMetadata)
        → Ensures P (fail_run env definition run_id step' failure recovery) (Ends attempt)
    unfolding fail_run
    Ensures-fail_run attempt failure recovery = Ensures-skip _ _ (λ completed_at.
        Ensures-bind _ _ (Ensures-append env _ (append_completed-ReadsOver _)) (λ t.
          Ensures-bind _ _ (Ensures-audit env _)
            (λ t. return_read attempt (some TerminalState.failed) (λ e. cc e))))

    Ensures-after_failure :
        (attempt : ℕ) (failure : Failure) (recovery : Option RecoveryDecisionMetadata)
        (failed_at : String) (retry : RetryMetadata)
        → (retry.retryable ≡ true → ltb attempt policy.max_attempts ≡ true)
        → Ensures
            (ReadsOver none)
            (after_failure env definition run_id step' attempt failure recovery failed_at retry)
            (Ends attempt)
    unfolding after_failure write_step_audit_event
    Ensures-after_failure attempt failure recovery failed_at retry left =
        Ensures-if (awaits_operator recovery) _ _ (λ e. return_read attempt none (λ e. cc e))
          (λ e.
            Ensures-if (not retry.retryable) _ _ (λ e. Ensures-fail_run attempt failure recovery)
              (λ e.
                Ensures-skip _ _ (λ t. Ensures-pure again (λ d t. goes_on (left (ground arith))))))

    Ensures-catch_failure :
        (attempt : ℕ) (failure : Failure)
        → Ensures Any
            (catch_failure env definition run_id step' policy attempt failure)
            (Ends attempt)
    unfolding catch_failure write_step_audit_event
    Ensures-catch_failure attempt failure =
        let reason = error_reason env.store_message failure.error in
        let recovery = recovery_decision_from_step_result failure.result reason in
        let retryable = may_retry env definition run_id step' policy attempt failure recovery in
        Ensures-skip (now env) _ (λ failed_at.
          Ensures-skip
            (next_attempt_at env definition run_id step' retryable failed_at policy attempt) _
            (λ next. Ensures-bind _ _ (Ensures-append env _ (append_step-ReadsOver _)) (λ t.
              Ensures-bind _ _ (Ensures-audit env _) (λ t.
                Ensures-after_failure attempt failure recovery failed_at
                  (retry_metadata env definition run_id step' retryable next reason)
                  (last_and (not (is_some recovery))
                    (not (is_workflow_step_non_retryable_error failure.error))
                    (ltb attempt policy.max_attempts))))))

    -- Whatever the round did before, if it ends it ends in one of the three ways.
    pub Ensures-run_attempt :
        (attempt : ℕ)
        → Ensures Any (run_attempt env definition run_id step' policy attempt) (Ends attempt)
    unfolding run_attempt
    Ensures-run_attempt attempt = Ensures-skip (now env) _ (λ started_at.
        Ensures-skip
          (append_run_event env (
            step_event env StepEventType.started run_id step'.id attempt started_at none none none))
          _
          (λ t.
            Ensures-skip
              (write_step_audit_event env AuditType.step_started started_at step'.id attempt none
                none none)
              _
              (λ t.
                Ensures-catch (try_attempt env definition run_id step' attempt) _
                  (Ensures-try attempt)
                  (λ e.
                    Ensures-catch_failure attempt (failure_from env definition run_id step' e)))))
