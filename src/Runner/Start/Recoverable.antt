-- ===== src/Runner/Start/Recoverable.antt =====
-- src/workflow-runner.ts: the runs that may go on.
use ensen_flow.Common.{
  String, true, false, ◌≡◌, refl, inl, inr, ◌⊎◌, Bool, Option, none, some, List, [], ◌∷◌, any, last,
  ◌==◌, All, Bool-cases, require-eq, Result, ok, err, ◌>>=◌, >>=-eq-ok, require,
}
use ensen_flow.RunState.{AttemptStatus, AttemptState, StepAttempts, RunState}
use ensen_flow.Definition.{WorkflowStep}
use ensen_flow.Runner.Exec.{Thrown}
use ensen_flow.Runner.Steps.{latest_step_attempt}
use ensen_flow.Runner.Start.{
  RecoverError, Texts, succeeded_latest, keeps_order, in_order, may_go_on, entries_go_on, recovered,
  assert_existing_run_recoverable, unknown_step, approval_needed,
}

-- what the latest attempt of a step may be
pub data MayGoOn (recover : List String) (id : String) : Option AttemptState → Type 0 where
  untried : MayGoOn recover id none
  done : {a : AttemptState} → a.status ≡ AttemptStatus.succeeded → MayGoOn recover id (some a)
  retried :
      {a : AttemptState} → a.status ≡ AttemptStatus.retryable_failed → MayGoOn recover id (some a)
  approved :
      {a : AttemptState}
      → a.status ≡ AttemptStatus.approval_required
      → any (λ i. i == id) recover ≡ true
      → MayGoOn recover id (some a)

-- Steps that succeeded, at most one that was tried and has not, and steps that were not tried.
pub data InOrder : List (String × Option AttemptState) → Type 0 where
  finished : InOrder []
  succeeds :
      {id : String} {latest : Option AttemptState} {steps : List (String × Option AttemptState)}
      → succeeded_latest latest ≡ true
      → InOrder steps
      → InOrder ((id, latest) ∷ steps)
  stops :
      {id : String} {latest : Option AttemptState} {steps : List (String × Option AttemptState)}
      → succeeded_latest latest ≡ false
      → All (λ (p : String × Option AttemptState). p.1 ≡ none) steps
      → InOrder ((id, latest) ∷ steps)

-- the latest attempt of each step, in the order of the steps
unfoldable pub latest_attempts :
    StepAttempts → List WorkflowStep → Result Thrown (List (String × Option AttemptState))
unfolding latest_step_attempt
latest_attempts m [] = ok []
latest_attempts m (s ∷ ss) = do
  latest ← latest_step_attempt s.id m
  rest ← latest_attempts m ss
  ok ((s.id, latest) ∷ rest)

may_go_on-MayGoOn :
    (recover : List String) (id : String) (latest : Option AttemptState)
    → may_go_on recover id latest ≡ ok tt
    → MayGoOn recover id latest
unfolding may_go_on
may_go_on-MayGoOn recover id none h = untried
may_go_on-MayGoOn recover id (some a) h = by_status a.status refl h
  where
    by_status :
        (st : AttemptStatus)
        → a.status ≡ st
        → may_go_on recover id (some a) ≡ ok tt
        → MayGoOn recover id (some a)
    by_status AttemptStatus.succeeded e h = done e
    by_status AttemptStatus.retryable_failed e h = retried e
    by_status AttemptStatus.approval_required e h =
        approved e
          (require-eq (any (λ i. i == id) recover) (approval_needed id a.attempt) (rw e at h))
    by_status AttemptStatus.running e h = absurd (cc (rw e at h))
    by_status AttemptStatus.failed e h = absurd (cc (rw e at h))
    by_status AttemptStatus.blocked e h = absurd (cc (rw e at h))
    by_status AttemptStatus.manual_repair_needed e h = absurd (cc (rw e at h))

-- each entry is of a listed step, and its latest attempt lets the run go on
pub record EntryFits (ordered : List WorkflowStep) (recover : List String)
    (entry : String × List AttemptState) : Type 0 where
  pub listed : any (λ (s : WorkflowStep). s.id == entry.0) ordered ≡ true
  pub goes_on : MayGoOn recover entry.0 (last entry.1)

entries_go_on-EntryFits :
    (ordered : List WorkflowStep) (recover : List String) (m : StepAttempts)
    → entries_go_on ordered recover m ≡ ok tt
    → All (EntryFits ordered recover) m
unfolding entries_go_on
entries_go_on-EntryFits ordered recover [] h = tt
entries_go_on-EntryFits ordered recover ((id, attempts) ∷ es) h =
    let more = entries_go_on-EntryFits ordered recover es in
    let (t, l, h1) =
      >>=-eq-ok (require (any (λ (s : WorkflowStep). s.id == id) ordered) (unknown_step id)) _ h in
    let (t', g, h2) = >>=-eq-ok (may_go_on recover id (last attempts)) _ h1 in
    (
      record {
        listed = require-eq _ (unknown_step id) l;
        goes_on = may_go_on-MayGoOn recover id (last attempts) g;
      },
      more h2,
    )

recovered-eq :
    (texts : Texts) {A : Type 0} (r : Result RecoverError A) (a : A)
    → recovered texts r ≡ ok a
    → r ≡ ok a
unfolding recovered
recovered-eq texts (ok x) a h = cc
recovered-eq texts (err e) a h = absurd (cc)

Untried : List (String × Option AttemptState) → Type 0
Untried = All (λ (p : String × Option AttemptState). p.1 ≡ none)

keeps_order-incomplete :
    (id : String) (latest : Option AttemptState) (saw : Bool)
    → keeps_order true id latest ≡ ok saw
    → (latest ≡ none) × (saw ≡ true)
unfolding keeps_order
keeps_order-incomplete id none saw h = (refl, cc)
keeps_order-incomplete id (some a) saw h = elim (Bool-cases (succeeded_latest (some a))) [
  | inl y ↦ absurd (cc (rw y at h))
  | inr n ↦ absurd (cc (rw n at h))
]

keeps_order-first :
    (id : String) (latest : Option AttemptState) (saw : Bool)
    → keeps_order false id latest ≡ ok saw
    → ((succeeded_latest latest ≡ true) × (saw ≡ false))
      ⊎ ((succeeded_latest latest ≡ false) × (saw ≡ true))
unfolding keeps_order
keeps_order-first id none saw h = inr (refl, cc)
keeps_order-first id (some a) saw h = elim (Bool-cases (succeeded_latest (some a))) [
  | inl y ↦ inl (y, cc (rw y at h))
  | inr n ↦ inr (n, cc (rw n at h))
]

module _ (texts : Texts) (m : StepAttempts) where
  in_order-Untried :
      (steps : List WorkflowStep)
      → in_order texts m true steps ≡ ok tt
      → (latest : List (String × Option AttemptState)) × (latest_attempts m steps ≡ ok latest)
        × Untried latest
  unfolding in_order latest_attempts Untried
  in_order-Untried [] h = ([], refl, tt)
  in_order-Untried (s ∷ ss) h =
      let (latest, l, h1) = >>=-eq-ok (latest_step_attempt s.id m) _ h in
      let (saw, r, h2) = >>=-eq-ok (recovered texts (keeps_order true s.id latest)) _ h1 in
      let (no_attempt, again) =
        keeps_order-incomplete s.id latest saw (recovered-eq texts _ saw r) in
      let (rest, looked_up, untried_rest) = in_order-Untried ss (rw again at h2) in
      ((s.id, latest) ∷ rest, rw (l, looked_up) refl, (no_attempt, untried_rest))

  in_order-InOrder :
      (steps : List WorkflowStep)
      → in_order texts m false steps ≡ ok tt
      → (latest : List (String × Option AttemptState)) × (latest_attempts m steps ≡ ok latest)
        × InOrder latest
  unfolding in_order latest_attempts Untried
  in_order-InOrder [] h = ([], refl, finished)
  in_order-InOrder (s ∷ ss) h =
      let (latest, l, h1) = >>=-eq-ok (latest_step_attempt s.id m) _ h in
      let (saw, r, h2) = >>=-eq-ok (recovered texts (keeps_order false s.id latest)) _ h1 in
      let more = in_order-InOrder ss in
      elim (keeps_order-first s.id latest saw (recovered-eq texts _ saw r)) [
        | inl (y, same) ↦
            let (rest, looked_up, ordered) = more (rw same at h2) in
            ((s.id, latest) ∷ rest, rw (l, looked_up) refl, succeeds y ordered)
        | inr (n, same) ↦
            let (rest, looked_up, untried_rest) = in_order-Untried ss (rw same at h2) in
            ((s.id, latest) ∷ rest, rw (l, looked_up) refl, stops n untried_rest)
      ]

-- the shape of a run that may go on
pub record Recoverable (s : RunState) (ordered : List WorkflowStep) (recover : List String)
    : Type 0 where
  pub latest : List (String × Option AttemptState)
  pub looked_up : latest_attempts s.step_attempts ordered ≡ ok latest
  pub in_order : InOrder latest
  pub entries_fit : All (EntryFits ordered recover) s.step_attempts

-- A run that may go on consists, in the order of the steps, of steps that succeeded, at most one
-- that was tried and has not, and untried ones; and what it holds of each step is of a listed step
-- that succeeded, may be retried, or waits for an approval that the call brings.
pub assert_existing_run_recoverable-Recoverable :
    (texts : Texts) (s : RunState) (ordered : List WorkflowStep) (recover : List String)
    → assert_existing_run_recoverable texts s ordered recover ≡ ok tt
    → Recoverable s ordered recover
unfolding assert_existing_run_recoverable
assert_existing_run_recoverable-Recoverable texts s ordered recover h =
    let (t, o, h1) = >>=-eq-ok (in_order texts s.step_attempts false ordered) _ h in
    let (latest, looked_up, shape) = in_order-InOrder texts s.step_attempts ordered o in
    record {
      latest = latest;
      looked_up = looked_up;
      in_order = shape;
      entries_fit =
          entries_go_on-EntryFits ordered recover s.step_attempts
            (recovered-eq texts (entries_go_on ordered recover s.step_attempts) tt h1);
    }
