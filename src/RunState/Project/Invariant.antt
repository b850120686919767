-- ===== src/RunState/Project/Invariant.antt =====
-- src/workflow-run-state.ts: what holds of every state that `projectWorkflowRunEvents` returns.
use ensen_flow.Common.{
  sym, ℕ, ◌+◌, String, false, ◌≡◌, refl, ◌≢◌, ◌⊎◌, inl, inr, Option, none, some, List, [], ◌∷◌,
  arith, length, All, Bool-cases, Option-cases, Result-cases, ok, lookup, insert, ◌==◌, eq_iff,
  if◌then◌else◌, lookup-insert, subst,
}
use ensen_flow.RunState.{
  RunStatus, TerminalState, AttemptState, StepAttempts, RunState, RunRecord, StepAttemptEvent,
  CreatedEvent, Event, run_created, step_attempt, run_id_of,
}
use ensen_flow.RunState.Project.{
  Projection, attempts_of, project_event, project_events, initial_projection,
  project_workflow_run_events,
}
use ensen_flow.RunState.StepEvents.{is_inherited}
use ensen_flow.RunState.Project.Chain.{Chain}
use ensen_flow.RunState.Project.Attempts.{adds, apply_to_attempts-Chain, apply_to_attempts-ne-nil}
use ensen_flow.RunState.Project.Accepted.{
  Applied, Accepted, step, ending, project_event-Accepted, Accepted-run_id, SameRun, SameRun-refl,
  SameRun-trans, Accepted-SameRun,
}

-- One entry of `stepAttempts`: an own key, with at least one attempt, numbered from 1, of which
-- only the last may have a status that ends the step or is still running.
pub record StepFits (entry : String × List AttemptState) : Type 0 where
  pub own : is_inherited entry.0 ≡ false
  pub some_attempt : entry.1 ≢ []
  pub chain : Chain 0 entry.1

-- `status` repeats `terminalState`, and else says whether a step was ever attempted.
abbrev pub StatusFits : Option TerminalState → RunStatus → StepAttempts → Type 0
StatusFits (some t) status m = status ≡ RunStatus.ended t
StatusFits none status m =
    ((status ≡ RunStatus.created) × (m ≡ [])) ⊎ ((status ≡ RunStatus.running) × (m ≢ []))

pub record Fits (run : RunRecord) (m : StepAttempts) : Type 0 where
  pub steps : All StepFits m
  pub status : StatusFits run.terminal_state run.status m

All-lookup :
    (k : String) (m : StepAttempts) (as' : List AttemptState)
    → All StepFits m
    → lookup k m ≡ some as'
    → StepFits (k, as')
unfolding lookup
All-lookup k [] as' h e = cc
All-lookup k ((j, bs) ∷ m) as' h e = elim (Bool-cases (j == k)) [
  | inl same ↦
      let jk : j ≡ k = (eq_iff j k).0 same in
      let bsas : bs ≡ as' = ground arith in rw (← jk, ← bsas) h.0
  | inr differs ↦ All-lookup k m as' h.1 (ground arith)
]

All-insert :
    (k : String) (as' : List AttemptState) (m : StepAttempts)
    → All StepFits m
    → StepFits (k, as')
    → All StepFits (insert k as' m)
unfolding insert
All-insert k as' [] h f = (f, tt)
All-insert k as' ((j, bs) ∷ m) h f = elim (Bool-cases (j == k)) [
  | inl same ↦ let jk : j ≡ k = (eq_iff j k).0 same in rw same (rw jk f, h.1)
  | inr differs ↦ rw differs (h.0, All-insert k as' m h.1 f)
]

insert-ne-nil : (k : String) (as' : List AttemptState) (m : StepAttempts) → insert k as' m ≢ []
unfolding insert
insert-ne-nil k as' [] h = cc
insert-ne-nil k as' ((j, bs) ∷ m) h = ground (arith, h)

pub attempts_of-Chain : (k : String) (m : StepAttempts) → All StepFits m → Chain 0 (attempts_of k m)
attempts_of-Chain k m h = elim (Option-cases (lookup k m)) [
  | inl e ↦ rw e tt
  | inr (as', e) ↦ rw e (All-lookup k m as' h e).chain
]

Applied-StepFits :
    {event : StepAttemptEvent} {line : ℕ} {m m' : StepAttempts}
    → All StepFits m
    → Applied event line m m'
    → All StepFits m'
Applied-StepFits {event} {line} {m} h a =
    let before = attempts_of-Chain event.step_id m h in
    let (chain, _) =
      apply_to_attempts-Chain event.type line event (attempts_of event.step_id m) a.attempts before
        a.applied in
    let filled =
      apply_to_attempts-ne-nil event.type line event (attempts_of event.step_id m) a.attempts before
        a.applied in
    rw a.inserted (
      All-insert event.step_id a.attempts m h
        (record { own = a.own; some_attempt = filled; chain = chain }))

Applied-ne-nil :
    {event : StepAttemptEvent} {line : ℕ} {m m' : StepAttempts} → Applied event line m m' → m' ≢ []
Applied-ne-nil {event} {m} a = rw a.inserted (insert-ne-nil event.step_id a.attempts m)

Accepted-Fits :
    {line : ℕ} {p q : Projection} {e : Event}
    → Fits p.run p.step_attempts
    → Accepted line p q e
    → Fits q.run q.step_attempts
Accepted-Fits {p} {q} f (step {e = e} open_run same_run applied changed) = record {
  steps = Applied-StepFits f.steps applied;
  status = rw (changed, open_run) (inr (refl, Applied-ne-nil applied));
}
Accepted-Fits {p} {q} f (ending open_run same_run changed) =
    rw changed (record { steps = f.steps; status = refl })

-- how many attempts of step `k` a stream starts
abbrev pub starts : String → Event → ℕ
starts k (step_attempt e) = if e.step_id == k then adds e.type else 0
starts k _ = 0

abbrev pub count_started : String → List Event → ℕ
count_started k [] = 0
count_started k (e ∷ es) = starts k e + count_started k es

pub attempts_of-insert :
    (k j : String) (as' : List AttemptState) (m : StepAttempts)
    → attempts_of j (insert k as' m) ≡ (if k == j then as' else attempts_of j m)
attempts_of-insert k j as' m = rw lookup-insert (ground arith)

Accepted-length :
    (k : String) {line : ℕ} {p q : Projection} {e : Event}
    → Fits p.run p.step_attempts
    → Accepted line p q e
    → length (attempts_of k q.step_attempts) ≡ length (attempts_of k p.step_attempts) + starts k e
Accepted-length k {line} {p} {q} f (step {e = e} open_run same_run a changed) =
    elim (Bool-cases (e.step_id == k)) [
      | inl x ↦
          let same : e.step_id ≡ k = (eq_iff e.step_id k).0 x in
          let (_, len) =
            apply_to_attempts-Chain e.type line e (attempts_of e.step_id p.step_attempts) a.attempts
              (attempts_of-Chain e.step_id p.step_attempts f.steps) a.applied in
          rw a.inserted (rw attempts_of-insert (rw x (rw (← same) len)))
      | inr x ↦ rw a.inserted (rw attempts_of-insert (rw x (omega arith)))
    ]
Accepted-length k {p} f (ending open_run same_run changed) = rw changed (omega arith)

-- What holds of the state that `rest`, from line `line` on, leads to.
record Projected (line : ℕ) (p q : Projection) (rest : List Event) : Type 0 where
  fits : Fits q.run q.step_attempts
  same : SameRun p.run q.run
  run_ids : All (λ e. run_id_of e ≡ p.run.run_id) rest
  counts :
      (k : String)
      → length (attempts_of k q.step_attempts)
        ≡ length (attempts_of k p.step_attempts) + count_started k rest

project_events-Projected :
    (line : ℕ) (p q : Projection) (rest : List Event)
    → Fits p.run p.step_attempts
    → project_events line p rest ≡ ok q
    → Projected line p q rest
unfolding project_events
project_events-Projected line p q [] f h =
    let same : p ≡ q = ground arith in
    rw (← same)
      (record { fits = f; same = SameRun-refl p.run; run_ids = tt; counts = λ k. omega arith })
project_events-Projected line p q (e ∷ es) f h = elim (Result-cases (project_event line p e)) [
  | inr (x, r) ↦ absurd (ground arith)
  | inl (p', r) ↦
      let a = project_event-Accepted line p p' e r in
      let next = project_events-Projected (line + 1) p' q es (Accepted-Fits f a) (ground arith) in
      let s = Accepted-SameRun a in
      record {
        fits = next.fits;
        same = SameRun-trans s next.same;
        run_ids =
            (Accepted-run_id a, subst (λ r. All (λ e. run_id_of e ≡ r) es) s.run_id next.run_ids);
        counts = λ k. omega (arith, next.counts k, Accepted-length k f a);
      }
]

initial-Fits :
    (c : CreatedEvent) → Fits (initial_projection c).run (initial_projection c).step_attempts
unfolding initial_projection
initial-Fits c = record { steps = tt; status = inl (refl, refl) }

-- the state that is returned for an accepted stream
abbrev pub projected_state : CreatedEvent → List Event → Projection → RunState
projected_state c rest q = record {
  run = q.run;
  events = run_created c ∷ rest;
  step_attempts = q.step_attempts;
}

-- The well-formed states of a run.
pub record IsWellFormed (s : RunState) : Type 0 where
  pub fits : Fits s.run s.step_attempts
  pub run_ids : All (λ e. run_id_of e ≡ s.run.run_id) s.events
  pub counts : (k : String) → length (attempts_of k s.step_attempts) ≡ count_started k s.events

-- Whatever stream of records is accepted, the projected state is well formed: every step has own
-- attempts, numbered from 1 in order, as many as the stream starts of it, of which only the last
-- may be running or have ended the step; `status` agrees with `terminalState`, and is `created`
-- exactly while no step was attempted; every record names the run.
pub project_workflow_run_events-IsWellFormed :
    (events : List Event) (s : RunState)
    → project_workflow_run_events events ≡ ok s
    → IsWellFormed s
unfolding project_workflow_run_events initial_projection lookup
project_workflow_run_events-IsWellFormed [] s h = cc
project_workflow_run_events-IsWellFormed (run_created c ∷ rest) s h =
    elim (Result-cases (project_events 2 (initial_projection c) rest)) [
      | inr (x, r) ↦ absurd (ground arith)
      | inl (q, r) ↦
          let d = project_events-Projected 2 (initial_projection c) q rest (initial-Fits c) r in
          let same : projected_state c rest q ≡ s = ground arith in
          rw (← same) (record {
            fits = d.fits;
            run_ids = (
              sym d.same.run_id,
              subst (λ r. All (λ e. run_id_of e ≡ r) rest) (sym d.same.run_id) d.run_ids,
            );
            counts = d.counts;
          })
    ]
project_workflow_run_events-IsWellFormed (_ ∷ rest) s h = cc
