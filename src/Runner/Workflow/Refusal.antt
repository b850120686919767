-- ===== src/Runner/Workflow/Refusal.antt =====
-- src/workflow-runner.ts: a state file that holds another run.
use ensen_flow.Common.{
  ℕ, String, ◌≡◌, ◌≢◌, refl, inl, inr, ◌⊎◌, Option, some, List, Result, ok, err, Result-cases,
  >>=-eq-ok, require, require-eq, eq_iff, ◌==◌,
}
use ensen_flow.RunState.{RunState, IdempotencyMetadata}
use ensen_flow.RunState.Store.{Disk, read_workflow_run_state}
use ensen_flow.Definition.{WorkflowStep, WorkflowDefinition}
use ensen_flow.Runner.Exec.{Thrown, Exec, lift, ◌>>=◌}
use ensen_flow.Runner.Environment.{RunWorld, Environment}
use ensen_flow.Runner.Order.{order_steps}
use ensen_flow.Runner.Start.{
  Texts, assert_supported_workflow_eip_protocol_version, resolve_idempotency_key,
  assert_existing_run_matches, same_key,
}
use ensen_flow.Runner.Start.TakeUp.{RunWorkflowInput, context_of, take_up}
use ensen_flow.Runner.Workflow.{
  ordered_steps, read_existing_run_state, begin_run, run_id_for, run_workflow,
}

-- The action throws and changes nothing.
abbrev pub Refused : {A : Type 0} → RunWorld → Result Thrown A × RunWorld → Type 0
Refused w r = (e : Thrown) × (r ≡ (err e, w))

Refused-lift :
    {A B : Type 0} (w : RunWorld) (r : Result Thrown A) (f : A → Exec RunWorld B)
    → ((a : A) → Refused w (f a w))
    → Refused w ((lift r >>= f) w)
Refused-lift w (ok a) f h = h a
Refused-lift w (err e) f h = (e, refl)

Refused-bind :
    {A B : Type 0} (w : RunWorld) (m : Exec RunWorld A) (f : A → Exec RunWorld B)
    → Refused w (m w)
    → Refused w ((m >>= f) w)
Refused-bind w m f (e, p) = rw p (e, refl)

matches-eq :
    (s : RunState) (d : WorkflowDefinition) (run_id : String) (key : Option IdempotencyMetadata)
    (t : Unit {0})
    → assert_existing_run_matches s d run_id key ≡ ok t
    → (s.run.workflow_id ≡ d.id) × (s.run.run_id ≡ run_id)
unfolding assert_existing_run_matches
matches-eq s d run_id key t h =
    let (_, same_workflow, h1) = >>=-eq-ok (require (s.run.workflow_id == d.id) _) _ h in
    let (_, _, same_run) =
      >>=-eq-ok (require (same_key s.run.trigger.idempotency_key key) _) _ h1 in
    (
      (eq_iff s.run.workflow_id d.id).0 (require-eq _ _ same_workflow),
      (eq_iff s.run.run_id run_id).0 (require-eq _ _ same_run),
    )

module _ (env : Environment) (texts : Texts) (others : ℕ → Disk → Disk)
    (input : RunWorkflowInput) where
  take_up-eq :
      (run_id : String) (key : Option IdempotencyMetadata) (ordered : List WorkflowStep)
      (s : RunState) (over : Option RunState)
      → take_up texts input run_id key ordered s ≡ ok over
      → (s.run.workflow_id ≡ input.definition.id) × (s.run.run_id ≡ run_id)
  unfolding take_up
  take_up-eq run_id key ordered s over h =
      let (t, m, _) = >>=-eq-ok (assert_existing_run_matches s input.definition run_id key) _ h in
      matches-eq s input.definition run_id key t m

  -- The run is of another workflow, or of another id than the one that the call gives, if it gives one.
  abbrev pub IsOther : RunState → Type 0
  IsOther s =
      (s.run.workflow_id ≢ input.definition.id)
      ⊎ ((r : String) × (input.run_id ≡ some r) × (s.run.run_id ≢ r))

  given_run_id :
      (key : Option IdempotencyMetadata) (r : String)
      → input.run_id ≡ some r
      → run_id_for env texts others input key ≡ r
  unfolding run_id_for
  given_run_id key r e = rw e refl

  begin_run-Refused :
      (run_id : String) (key : Option IdempotencyMetadata) (ordered : List WorkflowStep)
      (w : RunWorld) (s : RunState)
      → read_workflow_run_state env.codec w.disk ≡ ok s
      → (s.run.workflow_id ≢ input.definition.id) ⊎ (s.run.run_id ≢ run_id)
      → Refused w (begin_run env texts others input run_id key ordered w)
  unfolding begin_run read_existing_run_state
  begin_run-Refused run_id key ordered w s r n =
      elim (Result-cases (take_up texts input run_id key ordered s)) [
        | inl (over, e) ↦ absurd (other n (take_up-eq run_id key ordered s over e))
        | inr (x, e) ↦ rw (r, e) (x, refl)
      ]
    where
      other :
          (s.run.workflow_id ≢ input.definition.id) ⊎ (s.run.run_id ≢ run_id)
          → (s.run.workflow_id ≡ input.definition.id) × (s.run.run_id ≡ run_id)
          → ⊥
      other (inl n) e = n e.0
      other (inr n) e = n e.1

  other_run :
      (key : Option IdempotencyMetadata) (s : RunState)
      → IsOther s
      → (s.run.workflow_id ≢ input.definition.id)
        ⊎ (s.run.run_id ≢ run_id_for env texts others input key)
  other_run key s (inl n) = inl n
  other_run key s (inr (r, g, n)) = inr (rw (given_run_id key r g) n)

  -- Where the state file holds a run of another workflow, whether or not the call gives a run's id,
  -- or a run of another id than the one that the call gives, the call throws, and the file, the audit
  -- log and the counts are as before.
  pub run_workflow-Refused :
      (w : RunWorld) (s : RunState)
      → read_workflow_run_state env.codec w.disk ≡ ok s
      → IsOther s
      → (e : Thrown) × (run_workflow env texts others input w ≡ (err e, w))
  unfolding run_workflow
  run_workflow-Refused w s h n =
      Refused-lift w
        (assert_supported_workflow_eip_protocol_version texts input.definition.protocol_version) _
        (λ t. Refused-lift w (ordered_steps (order_steps input.definition.steps)) _ (λ ordered.
          Refused-lift w
            (resolve_idempotency_key texts input.definition.trigger.idempotency_key input.definition
              (context_of input))
            _
            (λ key.
              Refused-bind w
                (begin_run env texts others input (run_id_for env texts others input key) key
                  ordered)
                _
                (begin_run-Refused (run_id_for env texts others input key) key ordered w s h
                  (other_run key s n)))))
