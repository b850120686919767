-- ===== src/RunState/Recovery/Laws.antt =====
-- src/workflow-run-state.ts: when `inspectWorkflowRunRecovery` calls a run recoverable.
use ensen_flow.Common.{
  ℕ, ◌+◌, String, true, false, ◌≡◌, refl, ◌↔◌, ◌⊎◌, inl, inr, sym, subst, Option, none, some, List,
  [], ◌∷◌, ◌++◌, arith, last, All, Option-cases, last-eq-none,
}
use ensen_flow.RunState.{AttemptStatus, AttemptState, StepAttempts, RunState}
use ensen_flow.RunState.StepEvents.{is_running, may_be_followed}
use ensen_flow.RunState.Project.Chain.{Chain}
use ensen_flow.RunState.Project.Invariant.{StepFits, IsWellFormed}
use ensen_flow.RunState.Recovery.{
  latest_is, any_latest, is_blocked, is_approval_required, is_failed_or_manual, inspect_state,
}
use ensen_flow.RunState.Report.{Classification, summarize_attempts, summarize_active_step_attempts}

-- the latest attempt succeeded, or failed in a way that a retry may follow
abbrev pub Resumes : Option AttemptState → Type 0
Resumes none = ⊥
Resumes (some a) =
    (a.status ≡ AttemptStatus.succeeded) ⊎ (a.status ≡ AttemptStatus.retryable_failed)

not-running_of_followed : (s : AttemptStatus) → may_be_followed s ≡ true → is_running s ≡ false
unfolding may_be_followed is_running
not-running_of_followed AttemptStatus.running h = cc
not-running_of_followed _ h = refl

-- Only the last attempt can be active.
summarize_attempts-eq-nil_iff :
    (n : ℕ) (k : String) (as' : List AttemptState)
    → Chain n as'
    → (summarize_attempts k as' ≡ []) ↔ (latest_is is_running (last as') ≡ false)
unfolding summarize_attempts
summarize_attempts-eq-nil_iff n k [] h = (λ _. refl, λ _. refl)
summarize_attempts-eq-nil_iff n k (a ∷ []) h = ground arith
summarize_attempts-eq-nil_iff n k (a ∷ (b ∷ bs)) h =
    rw (not-running_of_followed a.status h.1) (summarize_attempts-eq-nil_iff (n + 1) k (b ∷ bs) h.2)

append-eq-nil_iff : {A : Type 0} (xs ys : List A) → (xs ++ ys ≡ []) ↔ ((xs ≡ []) × (ys ≡ []))
append-eq-nil_iff [] ys = (λ h. (refl, h), λ h. h.1)
append-eq-nil_iff (x ∷ xs) ys = (λ h. absurd (cc), λ h. absurd (cc h.0))

-- The four tests of a run that is not over, on one step.
QuietStep : Option AttemptState → Type 0
QuietStep o =
    (latest_is is_running o ≡ false)
    × (latest_is is_approval_required o ≡ false)
    × (latest_is is_blocked o ≡ false)
    × (latest_is is_failed_or_manual o ≡ false)

QuietStep-iff : (a : AttemptState) → QuietStep (some a) ↔ Resumes (some a)
unfolding QuietStep is_running is_approval_required is_blocked is_failed_or_manual
QuietStep-iff a = ground arith

Quiet : StepAttempts → Type 0
Quiet m =
    (summarize_active_step_attempts m ≡ [])
    × (any_latest is_approval_required m ≡ false)
    × (any_latest is_blocked m ≡ false)
    × (any_latest is_failed_or_manual m ≡ false)

Quiet-cons :
    (k : String) (as' : List AttemptState) (m : StepAttempts)
    → Chain 0 as'
    → Quiet ((k, as') ∷ m) ↔ (QuietStep (last as') × Quiet m)
unfolding Quiet QuietStep summarize_active_step_attempts any_latest
Quiet-cons k as' m h =
    let e = summarize_attempts-eq-nil_iff 0 k as' h in
    let e' = append-eq-nil_iff (summarize_attempts k as') (summarize_active_step_attempts m) in
    (
      λ q.
          let p = e'.0 q.0 in
          (
            (e.0 p.0, ground arith, ground arith, ground arith),
            (p.1, ground arith, ground arith, ground arith),
          ),
      λ q. (e'.1 (e.1 q.0.0, q.1.0), ground arith, ground arith, ground arith),
    )

Quiet-iff : (m : StepAttempts) → All StepFits m → Quiet m ↔ All (λ e. Resumes (last e.1)) m
unfolding Quiet summarize_active_step_attempts any_latest
Quiet-iff [] h = (λ _. tt, λ _. (refl, refl, refl, refl))
Quiet-iff ((k, as') ∷ m) (h, hs) =
    let parts = Quiet-cons k as' m h.chain in
    let later = Quiet-iff m hs in
    elim (Option-cases (last as')) [
      | inl e ↦ absurd (h.some_attempt (last-eq-none as' e))
      | inr (a, e) ↦
          let here = subst (λ o. QuietStep o ↔ Resumes o) (sym e) (QuietStep-iff a) in
          (
            λ q. let (x, y) = parts.0 q in (here.0 x, later.0 y),
            λ r. parts.1 (here.1 r.0, later.1 r.1),
          )
    ]

inspect_state-Quiet-iff :
    (s : RunState)
    → ((inspect_state s).classification ≡ Classification.recoverable)
      ↔ ((s.run.terminal_state ≡ none) × Quiet s.step_attempts)
unfolding inspect_state Quiet
inspect_state-Quiet-iff s = ground arith

-- A well-formed run is recoverable exactly when it is not over and the latest attempt of each of
-- its steps succeeded or may be retried.
pub inspect_state-recoverable_iff :
    (s : RunState)
    → IsWellFormed s
    → ((inspect_state s).classification ≡ Classification.recoverable)
      ↔ ((s.run.terminal_state ≡ none) × All (λ e. Resumes (last e.1)) s.step_attempts)
unfolding inspect_state
inspect_state-recoverable_iff s w =
    let quiet = Quiet-iff s.step_attempts w.fits.steps in
    let classified = inspect_state-Quiet-iff s in
    (
      λ h. let (open_run, q) = classified.0 h in (open_run, quiet.0 q),
      λ h. classified.1 (h.0, quiet.1 h.1),
    )
