-- ===== src/RunState/Project/Accepted.antt =====
-- src/workflow-run-state.ts: what a record that `projectWorkflowRunEvents` accepts has passed and
-- what it changes.
use ensen_flow.Common.{
  ℕ, false, ◌≡◌, refl, inl, inr, ◌∙◌, none, some, List, arith, Bool-cases, Result-cases, ok,
  >>=-eq-ok, insert, eq_iff,
}
use ensen_flow.RunState.{
  RunStatus, AttemptState, StepAttempts, RunRecord, StepAttemptEvent, CompletedEvent, Event,
  run_created, run_completed, step_attempt, run_id_of,
}
use ensen_flow.RunState.Project.{Projection, attempts_of, apply_step_attempt_event, project_event}
use ensen_flow.RunState.StepEvents.{is_inherited, apply_to_attempts}

-- What an accepted step record has done to `stepAttempts`.
pub record Applied (event : StepAttemptEvent) (line : ℕ) (m m' : StepAttempts) : Type 0 where
  pub own : is_inherited event.step_id ≡ false
  pub attempts : List AttemptState
  pub applied : apply_to_attempts event.type line event (attempts_of event.step_id m) ≡ ok attempts
  pub inserted : m' ≡ insert event.step_id attempts m

apply_step_attempt_event-Applied :
    (m m' : StepAttempts) (event : StepAttemptEvent) (line : ℕ)
    → apply_step_attempt_event m event line ≡ ok m'
    → Applied event line m m'
unfolding apply_step_attempt_event
apply_step_attempt_event-Applied m m' event line h =
    elim (Bool-cases (is_inherited event.step_id)) [
      | inl e ↦ absurd (cc (rw e at h))
      | inr e ↦
          let (attempts, applied, same) = >>=-eq-ok _ _ (rw e at h) in
          record { own = e; attempts = attempts; applied = applied; inserted = cc same }
    ]

-- What an accepted record that is not the first has done.
pub data Accepted (line : ℕ) (p q : Projection) : Event → Type 0 where
  step :
      {e : StepAttemptEvent}
      → p.run.terminal_state ≡ none
      → e.run_id ≡ p.run.run_id
      → Applied e line p.step_attempts q.step_attempts
      → q.run ≡ record p.run { updated_at = e.occurred_at; status = RunStatus.running }
      → Accepted line p q (step_attempt e)
  ending :
      {e : CompletedEvent}
      → p.run.terminal_state ≡ none
      → e.run_id ≡ p.run.run_id
      → q ≡ record p {
        run = record p.run {
          updated_at = e.occurred_at;
          status = RunStatus.ended e.terminal_state;
          terminal_state = some e.terminal_state;
        };
      }
      → Accepted line p q (run_completed e)

pub project_event-Accepted :
    (line : ℕ) (p q : Projection) (e : Event) → project_event line p e ≡ ok q → Accepted line p q e
unfolding project_event
project_event-Accepted line p q (run_created e) h = absurd (ground arith)
project_event-Accepted line p q (run_completed e) h =
    ending (ground arith) ((eq_iff e.run_id p.run.run_id).0 (ground arith)) (ground arith)
project_event-Accepted line p q (step_attempt e) h =
    elim (Result-cases (apply_step_attempt_event p.step_attempts e line)) [
      | inr (x, r) ↦ absurd (ground arith)
      | inl (m, r) ↦
          let same : m ≡ q.step_attempts = ground arith in
          step (ground arith) ((eq_iff e.run_id p.run.run_id).0 (ground arith))
            (rw same at (apply_step_attempt_event-Applied p.step_attempts m e line r))
            (ground arith)
    ]

pub Accepted-run_id :
    {line : ℕ} {p q : Projection} {e : Event} → Accepted line p q e → run_id_of e ≡ p.run.run_id
Accepted-run_id (step open_run same_run applied changed) = same_run
Accepted-run_id (ending open_run same_run changed) = same_run

-- What an accepted record leaves as it was.
pub record SameRun (r s : RunRecord) : Type 0 where
  pub run_id : s.run_id ≡ r.run_id
  pub workflow_id : s.workflow_id ≡ r.workflow_id
  pub workflow_version : s.workflow_version ≡ r.workflow_version
  pub trigger : s.trigger ≡ r.trigger
  pub created_at : s.created_at ≡ r.created_at

pub SameRun-refl : (r : RunRecord) → SameRun r r
SameRun-refl r = record {
  run_id = refl;
  workflow_id = refl;
  workflow_version = refl;
  trigger = refl;
  created_at = refl;
}

pub SameRun-trans : {r s t : RunRecord} → SameRun r s → SameRun s t → SameRun r t
SameRun-trans a b = record {
  run_id = b.run_id ∙ a.run_id;
  workflow_id = b.workflow_id ∙ a.workflow_id;
  workflow_version = b.workflow_version ∙ a.workflow_version;
  trigger = b.trigger ∙ a.trigger;
  created_at = b.created_at ∙ a.created_at;
}

pub Accepted-SameRun :
    {line : ℕ} {p q : Projection} {e : Event} → Accepted line p q e → SameRun p.run q.run
Accepted-SameRun (step open_run same_run applied changed) = rw changed (record {
  run_id = refl;
  workflow_id = refl;
  workflow_version = refl;
  trigger = refl;
  created_at = refl;
})
Accepted-SameRun (ending open_run same_run changed) = rw changed (record {
  run_id = refl;
  workflow_id = refl;
  workflow_version = refl;
  trigger = refl;
  created_at = refl;
})

pub Accepted-open_run :
    {line : ℕ} {p q : Projection} {e : Event} → Accepted line p q e → p.run.terminal_state ≡ none
Accepted-open_run (step open_run same_run applied changed) = open_run
Accepted-open_run (ending open_run same_run changed) = open_run
