-- ===== src/RunState/Project/Extension.antt =====
-- src/workflow-run-state.ts: projecting a stream that grows by records at its end.
use ensen_flow.Common.{
  ℕ, ◌+◌, ◌≡◌, refl, inl, inr, ◌∙◌, ap, List, [], ◌∷◌, ◌++◌, arith, length, Result-cases, ok, ◌>>=◌,
}
use ensen_flow.RunState.{RunState, Event, run_created, run_completed, step_attempt}
use ensen_flow.RunState.Project.{
  Projection, project_event, project_events, initial_projection, project_workflow_run_events,
}
use ensen_flow.RunState.Project.Invariant.{projected_state}

project_events-append :
    (line : ℕ) (p : Projection) (es fs : List Event)
    → project_events line p (es ++ fs)
      ≡ (project_events line p es >>= λ q. project_events (line + length es) q fs)
unfolding project_events
project_events-append line p [] fs = ap (λ (n : ℕ). project_events n p fs) (omega arith)
project_events-append line p (e ∷ es) fs = elim (Result-cases (project_event line p e)) [
  | inr (x, r) ↦ rw r
  | inl (q, r) ↦ rw r (
      project_events-append (line + 1) q es fs
      ∙ ap (λ (n : ℕ). project_events (line + 1) q es >>= λ q'. project_events n q' fs)
          (omega arith))
]

-- the variables of the loop after the records of `s`
abbrev pub projection_of : RunState → Projection
projection_of s = record { run = s.run; step_attempts = s.step_attempts }

-- The state after the further records `fs`.
abbrev pub extended : RunState → List Event → Projection → RunState
extended s fs q = record { run = q.run; events = s.events ++ fs; step_attempts = q.step_attempts }

-- Projecting a longer stream is projecting its beginning and going on from the state reached, on
-- the next line.
pub project-append :
    (es fs : List Event) (s : RunState)
    → project_workflow_run_events es ≡ ok s
    → project_workflow_run_events (es ++ fs)
      ≡ (project_events (length es + 1) (projection_of s) fs >>= λ q. ok (extended s fs q))
unfolding project_workflow_run_events
project-append [] fs s h = cc
project-append (run_created c ∷ rest) fs s h =
    elim (Result-cases (project_events 2 (initial_projection c) rest)) [
      | inr (x, r) ↦ absurd (ground arith)
      | inl (q, r) ↦
          let same : projected_state c rest q ≡ s = ground arith in
          rw (← same) (
            rw project_events-append (
              rw r (
                ap
                  (λ (n : ℕ).
                    project_events n q fs >>= λ q'. ok (extended (projected_state c rest q) fs q'))
                  (omega arith))))
    ]
project-append (_ ∷ rest) fs s h = cc

pub events-project :
    (es : List Event) (s : RunState) → project_workflow_run_events es ≡ ok s → s.events ≡ es
unfolding project_workflow_run_events
events-project [] s h = cc
events-project (run_created c ∷ rest) s h =
    elim (Result-cases (project_events 2 (initial_projection c) rest)) [
      | inr (x, r) ↦ absurd (ground arith)
      | inl (q, r) ↦ ground arith
    ]
events-project (run_completed c ∷ rest) s h = cc
events-project (step_attempt c ∷ rest) s h = cc

-- One record more: the loop body decides.
pub project-concat :
    (es : List Event) (e : Event) (s : RunState) (q : Projection)
    → project_workflow_run_events es ≡ ok s
    → project_event (length es + 1) (projection_of s) e ≡ ok q
    → project_workflow_run_events (es ++ e ∷ []) ≡ ok (extended s (e ∷ []) q)
unfolding project_events
project-concat es e s q h k = rw (project-append es (e ∷ []) s h) (rw k refl)

pub project-concat_inv :
    (es : List Event) (e : Event) (s t : RunState)
    → project_workflow_run_events es ≡ ok s
    → project_workflow_run_events (es ++ e ∷ []) ≡ ok t
    → (q : Projection) × (project_event (length es + 1) (projection_of s) e ≡ ok q)
      × (t ≡ extended s (e ∷ []) q)
unfolding project_events
project-concat_inv es e s t h k =
    elim (Result-cases (project_event (length es + 1) (projection_of s) e)) [
      | inr (x, r) ↦ absurd (ground (arith, project-append es (e ∷ []) s h))
      | inl (q, r) ↦ (q, r, ground (arith, project-append es (e ∷ []) s h))
    ]
