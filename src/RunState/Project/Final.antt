-- ===== src/RunState/Project/Final.antt =====
-- src/workflow-run-state.ts: records of a step whose latest attempt ended it.
use ensen_flow.Common.{
  ℕ, ◌+◌, String, true, false, ◌≡◌, refl, ◌≢◌, inl, inr, sym, subst, some, List, [], ◌∷◌, ◌++◌,
  length, last, Bool-cases, ok, ◌==◌, eq_iff, All,
}
use ensen_flow.RunState.{
  AttemptStatus, AttemptState, StepAttempts, StepAttemptEvent, RunState, Event, step_attempt,
}
use ensen_flow.RunState.Project.{Projection, attempts_of, project_workflow_run_events}
use ensen_flow.RunState.Project.Ending.{is_final, apply_to_attempts-final}
use ensen_flow.RunState.Project.Accepted.{Accepted, step, ending, Applied, project_event-Accepted}
use ensen_flow.RunState.Project.Invariant.{
  StepFits, attempts_of-Chain, attempts_of-insert, project_workflow_run_events-IsWellFormed,
}
use ensen_flow.RunState.Project.Extension.{projection_of, project-concat_inv}

-- the latest attempt has a final status, `status`
pub record EndedWith (status : AttemptStatus) (as' : List AttemptState) : Type 0 where
  pub latest : AttemptState
  pub is_last : last as' ≡ some latest
  pub has : latest.status ≡ status

Applied-other :
    {e : StepAttemptEvent} {line : ℕ} {m m' : StepAttempts} (k : String) (status : AttemptStatus)
    → All StepFits m
    → is_final status ≡ true
    → EndedWith status (attempts_of k m)
    → Applied e line m m'
    → (e.step_id == k) ≡ false
Applied-other {e} {line} {m} {m'} k status fits f w a = elim (Bool-cases (e.step_id == k)) [
  | inr n ↦ n
  | inl y ↦
      let same : k ≡ e.step_id = sym ((eq_iff e.step_id k).0 y) in
      let l = subst (λ j. last (attempts_of j m) ≡ some w.latest) same w.is_last in
      absurd (
        apply_to_attempts-final e.type line e (attempts_of e.step_id m) a.attempts w.latest
          (attempts_of-Chain e.step_id m fits) l (rw w.has f) a.applied)
]

-- Whatever record is accepted, a step that has ended stays as it is.
pub Accepted-EndedWith :
    {line : ℕ} {p q : Projection} {e : Event} (k : String) (status : AttemptStatus)
    → All StepFits p.step_attempts
    → is_final status ≡ true
    → EndedWith status (attempts_of k p.step_attempts)
    → Accepted line p q e
    → attempts_of k q.step_attempts ≡ attempts_of k p.step_attempts
Accepted-EndedWith {p} {q} k status fits f w (step {e = e} open_run same_run a changed) =
    let other = Applied-other k status fits f w a in
    rw a.inserted (rw (attempts_of-insert e.step_id k a.attempts p.step_attempts) (rw other refl))
Accepted-EndedWith k status fits f w (ending open_run same_run changed) = rw changed refl

-- Where the latest attempt of a step succeeded, failed for good, is blocked or wants manual repair,
-- the stream takes no further record of that step.
pub project-ended :
    (es : List Event) (s t : RunState) (e : StepAttemptEvent) (status : AttemptStatus)
    → project_workflow_run_events es ≡ ok s
    → is_final status ≡ true
    → EndedWith status (attempts_of e.step_id s.step_attempts)
    → project_workflow_run_events (es ++ step_attempt e ∷ []) ≢ ok t
project-ended es s t e status h f w k =
    let (q, stepped, _) = project-concat_inv es (step_attempt e) s t h k in
    let fits = (project_workflow_run_events-IsWellFormed es s h).fits.steps in
    no_step (project_event-Accepted (length es + 1) (projection_of s) q (step_attempt e) stepped)
      fits
  where
    no_step :
        {line : ℕ} {q : Projection}
        → Accepted line (projection_of s) q (step_attempt e)
        → All StepFits s.step_attempts
        → ⊥
    no_step (step open_run same_run a changed) fits =
        cc (Applied-other e.step_id status fits f w a, (eq_iff e.step_id e.step_id).1 refl)
