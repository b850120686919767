-- ===== src/Runner/Workflow/Laws.antt =====
-- src/workflow-runner.ts: a call of `runWorkflow` on a run that is over.
use ensen_flow.Common.{
  ℕ, String, true, ◌≡◌, refl, inl, inr, ◌⊎◌, Option, some, List, Result, ok, err, Result-cases,
  >>=-eq-ok, is_some,
}
use ensen_flow.RunState.{RunState, IdempotencyMetadata, TerminalState}
use ensen_flow.RunState.Store.{Disk, read_workflow_run_state}
use ensen_flow.Definition.{WorkflowStep}
use ensen_flow.Runner.Exec.{Thrown, Exec, lift, ◌>>=◌}
use ensen_flow.Runner.Environment.{RunWorld, Environment}
use ensen_flow.Runner.Order.{order_steps}
use ensen_flow.Runner.Start.{
  Texts, assert_supported_workflow_eip_protocol_version, resolve_idempotency_key,
  assert_existing_run_matches, assert_persisted_run_customer_workflow_allowlisted,
  assert_requested_customer_workflow_allowlisted,
}
use ensen_flow.Runner.Start.TakeUp.{RunWorkflowInput, context_of, take_up}
use ensen_flow.Runner.Workflow.{
  ordered_steps, read_existing_run_state, begin_run, run_id_for, run_workflow,
}

-- The action changes nothing: it throws, or returns `a`.
abbrev pub Only : {A : Type 0} → A → RunWorld → Result Thrown A × RunWorld → Type 0
Only a w r = ((e : Thrown) × (r ≡ (err e, w))) ⊎ (r ≡ (ok a, w))

Only-bind :
    {A B : Type 0} (a : A) (b : B) (w : RunWorld) (m : Exec RunWorld A) (f : A → Exec RunWorld B)
    → Only a w (m w)
    → Only b w (f a w)
    → Only b w ((m >>= f) w)
Only-bind a b w m f (inl (e, p)) h = rw p (inl (e, refl))
Only-bind a b w m f (inr p) h = rw p h

Only-lift :
    {A B : Type 0} (b : B) (w : RunWorld) (r : Result Thrown A) (f : A → Exec RunWorld B)
    → ((a : A) → r ≡ ok a → Only b w (f a w))
    → Only b w ((lift r >>= f) w)
Only-lift b w (ok a) f h = h a refl
Only-lift b w (err e) f h = inl (e, refl)

module _ (env : Environment) (texts : Texts) (others : ℕ → Disk → Disk)
    (input : RunWorkflowInput) where
  take_up-over :
      (run_id : String) (key : Option IdempotencyMetadata) (ordered : List WorkflowStep)
      (s : RunState) (over : Option RunState)
      → is_some s.run.terminal_state ≡ true
      → take_up texts input run_id key ordered s ≡ ok over
      → over ≡ some s
  unfolding take_up
  take_up-over run_id key ordered s over t h =
      let (_, _, h1) = >>=-eq-ok (assert_existing_run_matches s input.definition run_id key) _ h in
      let (_, _, h2) =
        >>=-eq-ok (assert_persisted_run_customer_workflow_allowlisted s input.definition) _ h1 in
      let (_, _, h3) =
        >>=-eq-ok
          (assert_requested_customer_workflow_allowlisted input.definition (context_of input)) _
          h2 in
      let (_, _, h4) = >>=-eq-ok (input.existing_run_state_guard s) _ h3 in cc (rw t at h4)

  begin_run-over :
      (run_id : String) (key : Option IdempotencyMetadata) (ordered : List WorkflowStep)
      (w : RunWorld) (s : RunState)
      → read_workflow_run_state env.codec w.disk ≡ ok s
      → is_some s.run.terminal_state ≡ true
      → Only (some s) w (begin_run env texts others input run_id key ordered w)
  unfolding begin_run read_existing_run_state
  begin_run-over run_id key ordered w s r t =
      elim (Result-cases (take_up texts input run_id key ordered s)) [
        | inl (over, e) ↦ rw (r, e, take_up-over run_id key ordered s over t e) (inr refl)
        | inr (x, e) ↦ rw (r, e) (inl (x, refl))
      ]

  -- A run that is over is not run again: the call gives its state or throws, and whatever the
  -- environment does, no step handler is called, and neither the file nor the audit log changes.
  pub run_workflow-over :
      (w : RunWorld) (s : RunState) (t : TerminalState)
      → read_workflow_run_state env.codec w.disk ≡ ok s
      → s.run.terminal_state ≡ some t
      → ((e : Thrown) × (run_workflow env texts others input w ≡ (err e, w)))
        ⊎ (run_workflow env texts others input w ≡ (ok s, w))
  unfolding run_workflow
  run_workflow-over w s t r o =
      Only-lift s w
        (assert_supported_workflow_eip_protocol_version texts input.definition.protocol_version) _
        (λ t' e. Only-lift s w (ordered_steps (order_steps input.definition.steps)) _ (λ ordered e.
          Only-lift s w
            (resolve_idempotency_key texts input.definition.trigger.idempotency_key input.definition
              (context_of input))
            _
            (λ key e.
              Only-bind (some s) s w
                (begin_run env texts others input (run_id_for env texts others input key) key
                  ordered)
                _
                (begin_run-over (run_id_for env texts others input key) key ordered w s r
                  (rw o refl))
                (inr refl))))
