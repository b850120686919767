-- ===== src/Runner/Steps/Success.antt =====
-- src/workflow-runner.ts: what the loops of a run have made sure of when they return.
use mathlib.Core.Bool.{false≢true}
use ensen_flow.Common.{
  ℕ, zero, suc, ◌+◌, ◌≤◌, String, true, false, not, ◌&&◌, ◌≡◌, ◌≢◌, refl, All-map, subst, none,
  some, Option, List, [], ◌∷◌, arith, ltb, ok, err, Result, All,
}
use ensen_flow.RunState.{TerminalState, AttemptStatus, AttemptState, RunState}
use ensen_flow.RunState.Project.{attempts_of}
use ensen_flow.RunState.Project.Ending.{is_final}
use ensen_flow.RunState.Project.Final.{EndedWith}
use ensen_flow.RunState.Store.{Disk, read_workflow_run_state}
use ensen_flow.RunState.Store.Lasting.{StepEnded, Writes-StepEnded}
use ensen_flow.Definition.{WorkflowDefinition, WorkflowStep, RetryPolicy}
use ensen_flow.Runner.Exec.{Thrown, Exec}
use ensen_flow.Runner.Environment.{RunWorld, Environment, Flow, leave, again, return}
use ensen_flow.Runner.Attempt.{
  read_current_run_state, run_attempt, now, append_run_event, write_audit_event,
}
use ensen_flow.Runner.Attempt.Ensures.{
  Any, Post, Ensures, Ensures-pure, Ensures-raise, Ensures-bind, Ensures-skip, Ensures-if,
  Ensures-read, Reads,
}
use ensen_flow.Runner.Attempt.Ends.{Ends, leaves, goes_on, returns, Ensures-run_attempt}
use ensen_flow.Runner.Steps.{
  latest_step_attempt, has_status, is_succeeded, first_attempt, final_attempt, retry_policy,
  attempts_loop, run_remaining, run_step, complete_run, run_steps,
}
use ensen_flow.Runner.Steps.Writing.{Appends-run_steps}
use ensen_flow.Runner.Attempt.Keeps.{Appends}
use ensen_flow.Runner.Steps.Latest.{succeeded_lem, latest_ok, resumes_none}
use ensen_flow.Runner.Attempt.Ensures.{Ensures-weaken, Ensures-lift}

module _ (env : Environment) (definition : WorkflowDefinition) (run_id : String) where
  abbrev Succeeded : String → Disk → Type 0
  Succeeded = StepEnded env.codec AttemptStatus.succeeded

  -- how the loop over the attempts of a step ends
  data Finishes (step : WorkflowStep) : Flow → Disk → Type 0 where
    succeeds : {disk : Disk} → Succeeded step.id disk → Finishes step leave disk
    stops :
        {disk : Disk} (s : RunState)
        → Reads env disk s
        → s.run.terminal_state ≢ some TerminalState.succeeded
        → Finishes step (return s) disk

  Ensures-attempts_loop :
      (step : WorkflowStep) (policy : RetryPolicy) (rounds attempt : ℕ)
      → attempt ≤ policy.max_attempts
      → attempt + rounds ≡ policy.max_attempts + 1
      → Ensures Any (attempts_loop env definition run_id step policy rounds attempt) (Finishes step)
  unfolding attempts_loop
  Ensures-attempts_loop step policy zero attempt l e = absurd (omega arith)
  Ensures-attempts_loop step policy (suc rounds) attempt l e =
      let more = λ (h : ltb attempt policy.max_attempts ≡ true).
        Ensures-attempts_loop step policy rounds (attempt + 1) (ground arith) (omega arith) in
      Ensures-bind (run_attempt env definition run_id step policy attempt) _
        (Ensures-run_attempt env definition run_id step policy attempt)
        (elim [
          | leave ↦ Ensures-pure leave (λ d p. left p)
          | again ↦ record { at = λ w p. (more (left_over p)).at w tt }
          | return s ↦ Ensures-pure (return s) (λ d p. stopped p)
        ])
    where
      left :
          {d : Disk}
          → Ends env definition run_id step policy attempt leave d
          → Finishes step leave d
      left (leaves s) = succeeds s

      left_over :
          {d : Disk}
          → Ends env definition run_id step policy attempt again d
          → ltb attempt policy.max_attempts ≡ true
      left_over (goes_on h) = h

      stopped :
          {d : Disk} {s : RunState}
          → Ends env definition run_id step policy attempt (return s) d
          → Finishes step (return s) d
      stopped (returns s r n) = stops s r n

  Ensures-run_remaining :
      (step : WorkflowStep) (latest : Option AttemptState)
      → Ensures Any (run_remaining env definition run_id step false latest) (Finishes step)
  unfolding run_remaining final_attempt
  Ensures-run_remaining step latest =
      Ensures-if (ltb (retry_policy step).max_attempts (first_attempt false latest) && not false) _
        _ (λ e. Ensures-raise _)
        (λ e.
          let l : first_attempt false latest ≤ (retry_policy step).max_attempts = ground arith in
          Ensures-attempts_loop step (retry_policy step) _ (first_attempt false latest) l
            (omega arith))

  latest-Succeeded :
      (step : WorkflowStep) (s : RunState) (latest : Option AttemptState) (disk : Disk)
      → latest_step_attempt step.id s.step_attempts ≡ ok latest
      → has_status is_succeeded latest ≡ true
      → Reads env disk s
      → Succeeded step.id disk
  latest-Succeeded step s none disk l h r = absurd (false≢true h)
  latest-Succeeded step s (some a) disk l h r = record {
    state = s;
    reads = r;
    ended = record {
      latest = a;
      is_last = latest_ok step.id s.step_attempts (some a) l;
      has = succeeded_lem a.status h;
    };
  }

  Ensures-run_step :
      (step : WorkflowStep) → Ensures Any (run_step env definition run_id [] step) (Finishes step)
  unfolding run_step
  Ensures-run_step step = Ensures-bind _ _ (Ensures-read env) (λ s. Ensures-lift _ _ (λ latest l.
      Ensures-if _ _ _
        (λ e. Ensures-pure leave (λ d p. succeeds (latest-Succeeded step s latest d l e p.1)))
        (λ e.
          rw (resumes_none step.id latest) (Ensures-weaken (Ensures-run_remaining step latest)))))

  -- the run was reported as succeeded
  Succeeds : List WorkflowStep → RunState → Disk → Type 0
  Succeeds steps s disk =
      s.run.terminal_state ≡ some TerminalState.succeeded
      → Reads env disk s × All (λ (step : WorkflowStep). Succeeded step.id disk) steps

  read_done : Ensures Any (read_current_run_state env) (Succeeds [])
  unfolding Succeeds
  read_done = record {
    at = λ w p. reads_done (read_current_run_state env w) ((Ensures-read env).at w p);
  }
    where
      reads_done :
          (r : Result Thrown RunState × RunWorld)
          → Post (λ s disk. Unit {0} × Reads env disk s) r
          → Post (Succeeds []) r
      reads_done (ok s, w) p = λ e. (p.1, tt)
      reads_done (err x, w) p = tt

  Ensures-complete_run : Ensures Any (complete_run env definition run_id) (Succeeds [])
  unfolding complete_run Succeeds
  Ensures-complete_run = Ensures-skip (now env) _ (λ completed_at.
      Ensures-skip (append_run_event env _) _
        (λ t. Ensures-skip (write_audit_event env _) _ (λ t. read_done)))

  keep :
      {A : Type 0} {Q : A → Disk → Type 0} (m : Exec RunWorld A) (k : String)
      → Appends env m
      → Ensures Any m Q
      → Ensures (Succeeded k) m (λ a disk. Q a disk × Succeeded k disk)
  unfolding is_final
  keep {A} {Q} m k a h = record {
    at = λ w p.
        both (m w) (h.at w tt)
          (Writes-StepEnded env.codec AttemptStatus.succeeded k refl p (a.at w));
  }
    where
      both :
          (r : Result Thrown A × RunWorld)
          → Post Q r
          → Succeeded k r.1.disk
          → Post (λ a disk. Q a disk × Succeeded k disk) r
      both (ok a, w) q s = (q, s)
      both (err e, w) q s = tt

  ran :
      (step : WorkflowStep) (steps : List WorkflowStep) {m : Exec RunWorld RunState}
      → Ensures (Succeeded step.id) m (λ s disk. Succeeds steps s disk × Succeeded step.id disk)
      → Ensures (Finishes step leave) m (Succeeds (step ∷ steps))
  unfolding Succeeds
  ran step steps {m} h = record { at = λ w p. all (m w) (h.at w (left p)) }
    where
      left : {disk : Disk} → Finishes step leave disk → Succeeded step.id disk
      left (succeeds s) = s

      all :
          (r : Result Thrown RunState × RunWorld)
          → Post (λ s disk. Succeeds steps s disk × Succeeded step.id disk) r
          → Post (Succeeds (step ∷ steps)) r
      all (ok s, w) p = λ e. ((p.0 e).0, (p.1, (p.0 e).1))
      all (err x, w) p = tt

  stopped_run :
      (step : WorkflowStep) (steps : List WorkflowStep) (s : RunState) (disk : Disk)
      → Finishes step (return s) disk
      → Succeeds (step ∷ steps) s disk
  unfolding Succeeds
  stopped_run step steps s disk p = λ e. absurd (over p e)
    where
      over :
          {s' : RunState} {d : Disk}
          → Finishes step (return s') d
          → s'.run.terminal_state ≢ some TerminalState.succeeded
      over (stops s' r n) = n

  Ensures-run_steps :
      (steps : List WorkflowStep)
      → Ensures Any (run_steps env definition run_id [] steps) (Succeeds steps)
  unfolding run_steps
  Ensures-run_steps [] = Ensures-complete_run
  Ensures-run_steps (step ∷ steps) =
      let more = Ensures-run_steps steps in
      Ensures-bind _ _ (Ensures-run_step step) (elim [
        | leave ↦
            ran step steps (keep _ step.id (Appends-run_steps env definition run_id [] steps) more)
        | again ↦ record { at = λ w p. absurd (never p) }
        | return s ↦ Ensures-pure s (stopped_run step steps s)
      ])
    where
      never : {disk : Disk} → Finishes step again disk → ⊥
      never p = elim p [ ]

  -- Where the loops, with no step to recover from approval, return a run that is over with success,
  -- the state file reads as that run, and the latest attempt of every step succeeded.
  pub run_steps-Succeeded :
      (steps : List WorkflowStep) (w w' : RunWorld) (s : RunState)
      → run_steps env definition run_id [] steps w ≡ (ok s, w')
      → s.run.terminal_state ≡ some TerminalState.succeeded
      → (read_workflow_run_state env.codec w'.disk ≡ ok s)
        × All
            (λ (step : WorkflowStep).
              EndedWith AttemptStatus.succeeded (attempts_of step.id s.step_attempts))
            steps
  unfolding Succeeds
  run_steps-Succeeded steps w w' s h e =
      let p = (subst (Post (Succeeds steps)) h ((Ensures-run_steps steps).at w tt)) e in
      (p.0, All-map steps (λ step q. same p.0 q) p.1)
    where
      same :
          {k : String}
          → Reads env w'.disk s
          → Succeeded k w'.disk
          → EndedWith AttemptStatus.succeeded (attempts_of k s.step_attempts)
      same {k} r q =
          let one : q.state ≡ s = cc (q.reads, r) in
          subst
            (λ (x : RunState). EndedWith AttemptStatus.succeeded (attempts_of k x.step_attempts))
            one q.ended
