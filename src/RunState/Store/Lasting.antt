-- ===== src/RunState/Store/Lasting.antt =====
-- src/workflow-run-state.ts: a step that has ended, in the file that later calls leave.
use ensen_flow.Common.{
  ℕ, ◌+◌, String, true, ◌≡◌, refl, ◌≢◌, sym, subst, none, some, arith, length, ok, insert, eq_refl,
  All,
}
use ensen_flow.RunState.{
  AttemptStatus, CreatedEvent, StepAttemptEvent, StepEventType, RunState, Event, step_attempt,
}
use ensen_flow.RunState.Project.{Projection, attempts_of}
use ensen_flow.RunState.StepEvents.{apply_to_attempts}
use ensen_flow.RunState.Project.Ending.{is_final, last-completed}
use ensen_flow.RunState.Project.Accepted.{Accepted, step, project_event-Accepted}
use ensen_flow.RunState.Project.Invariant.{
  StepFits, attempts_of-Chain, attempts_of-insert, project_workflow_run_events-IsWellFormed,
}
use ensen_flow.RunState.Project.Extension.{projection_of}
use ensen_flow.RunState.Project.Final.{EndedWith, Accepted-EndedWith}
use ensen_flow.RunState.Store.{
  Codec, Disk, read_workflow_run_state, append_workflow_run_event, create_workflow_run,
}
use ensen_flow.RunState.Store.Laws.{read-eq-ok, Appended, append-Appended}
use ensen_flow.RunState.Store.Reachable.{create, append, Writes, here, next, create-reads}

module _ (codec : Codec) where
  -- The file reads as a run in which the latest attempt of step `k` has the status `status`.
  pub record StepEnded (status : AttemptStatus) (k : String) (disk : Disk) : Type 0 where
    pub state : RunState
    pub reads : read_workflow_run_state codec disk ≡ ok state
    pub ended : EndedWith status (attempts_of k state.step_attempts)

  read-fits :
      (disk : Disk) (s : RunState)
      → read_workflow_run_state codec disk ≡ ok s
      → All StepFits s.step_attempts
  unfolding read_workflow_run_state
  read-fits none s h = absurd (cc)
  read-fits (some ls) s h =
      (project_workflow_run_events-IsWellFormed s.events s (read-eq-ok codec ls s h).1).fits.steps

  Appended-StepEnded :
      {disk disk' : Disk} {e : Event} (status : AttemptStatus) (k : String)
      → is_final status ≡ true
      → StepEnded status k disk
      → Appended codec e disk disk'
      → StepEnded status k disk'
  Appended-StepEnded {disk} {disk'} {e} status k f w a =
      let same : w.state ≡ a.state = cc (w.reads, a.read_before) in
      let ended =
        subst (λ (s : RunState). EndedWith status (attempts_of k s.step_attempts)) same w.ended in
      let accepted =
        project_event-Accepted (length a.state.events + 1) (projection_of a.state) a.next e
          a.step in
      let fits = read-fits disk a.state a.read_before in
      let kept = Accepted-EndedWith k status fits f ended accepted in
      record { state = _; reads = a.read_after; ended = subst (EndedWith status) (sym kept) ended }

  create-absent :
      (disk disk' : Disk) (e : CreatedEvent) (s : RunState)
      → create_workflow_run codec e disk ≡ ok disk'
      → read_workflow_run_state codec disk ≢ ok s
  unfolding read_workflow_run_state
  create-absent disk disk' e s h r = ground (arith, (create-reads codec e disk disk' h).0)

  -- Once a step ended with a final status, it stays so, whatever calls are made.
  pub Writes-StepEnded :
      {disk disk' : Disk} (status : AttemptStatus) (k : String)
      → is_final status ≡ true
      → StepEnded status k disk
      → Writes codec disk disk'
      → StepEnded status k disk'
  Writes-StepEnded status k f w here = w
  Writes-StepEnded status k f w (next {d} {d'} ws (append e h)) =
      Appended-StepEnded status k f (Writes-StepEnded status k f w ws)
        (append-Appended codec e d d' h)
  Writes-StepEnded status k f w (next {d} {d'} ws (create e h)) =
      let before = Writes-StepEnded status k f w ws in
      absurd (create-absent d d' e before.state h before.reads)

  -- An accepted `step.attempt.completed` ends its step with success.
  pub completed-StepEnded :
      (disk disk' : Disk) (e : StepAttemptEvent)
      → e.type ≡ StepEventType.completed
      → append_workflow_run_event codec (step_attempt e) disk ≡ ok disk'
      → StepEnded AttemptStatus.succeeded e.step_id disk'
  completed-StepEnded disk disk' e c h =
      let a = append-Appended codec (step_attempt e) disk disk' h in
      let accepted =
        project_event-Accepted (length a.state.events + 1) (projection_of a.state) a.next
          (step_attempt e) a.step in
      record {
        state = _;
        reads = a.read_after;
        ended = ended_by accepted (read-fits disk a.state a.read_before);
      }
    where
      ended_by :
          {line : ℕ} {p q : Projection}
          → Accepted line p q (step_attempt e)
          → All StepFits p.step_attempts
          → EndedWith AttemptStatus.succeeded (attempts_of e.step_id q.step_attempts)
      ended_by {line} {p} (step open_run same_run b changed) fits =
          let (latest, l, s) =
            last-completed line e (attempts_of e.step_id p.step_attempts) b.attempts
              (attempts_of-Chain e.step_id p.step_attempts fits)
              (subst
                (λ t.
                  apply_to_attempts t line e (attempts_of e.step_id p.step_attempts)
                  ≡ ok b.attempts)
                c b.applied) in
          let same : attempts_of e.step_id (insert e.step_id b.attempts p.step_attempts)
              ≡ b.attempts =
            rw (attempts_of-insert e.step_id e.step_id b.attempts p.step_attempts)
              (rw (eq_refl e.step_id) refl) in
          rw b.inserted (rw same (record { latest = latest; is_last = l; has = s }))
