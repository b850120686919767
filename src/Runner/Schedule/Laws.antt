-- ===== src/Runner/Schedule/Laws.antt =====
-- src/schedule-trigger.ts: a time that was served.
use Prim.Native.String.{◌++◌}
use ensen_flow.Common.{
  ℕ, String, Bool, true, false, ◌≡◌, ◌==◌, refl, inl, inr, some, Result, ok, err, Bool-cases,
  eq_iff, ◌≢◌, ◌⊎◌, sym, ◌∙◌, ap,
}
use ensen_flow.RunState.{RunState, TerminalState}
use ensen_flow.RunState.Store.{Disk, read_workflow_run_state}
use ensen_flow.Definition.{WorkflowDefinition}
use ensen_flow.Runner.Exec.{Thrown, Exec, lift, ◌>>=◌}
use ensen_flow.Runner.Environment.{RunWorld, Environment}
use ensen_flow.Runner.Start.{Texts}
use ensen_flow.Runner.Start.TakeUp.{RunWorkflowInput}
use ensen_flow.Runner.Workflow.{run_workflow}
use ensen_flow.Runner.Workflow.Laws.{run_workflow-over}
use ensen_flow.Runner.Workflow.Refusal.{run_workflow-Refused}
use ensen_flow.Runner.Schedule.{
  Calendar, Evaluation, not_due, ran, cron_of, normalize_scheduled_for_utc, is_due_for_schedule,
  compact_timestamp, create_schedule_run_id, evaluate_due, evaluate_schedule_trigger,
  schedule_input,
}
use ensen_flow.Runner.Schedule.Due.{IsDue, is_due_for_schedule-IsDue, IsDue-is_due_for_schedule}

same_text : (s t : String) → (s ≢ t → ⊥) → s ≡ t
same_text s t h = elim (Bool-cases (s == t)) [
  | inl y ↦ (eq_iff s t).0 y
  | inr n ↦ absurd (h (λ e. false_true (sym n ∙ (eq_iff s t).1 e)))
]
  where
    false_true : false ≡ true → ⊥
    false_true e = cc

-- an action does not both return and throw
returned-threw :
    {A : Type 0} (r : Result Thrown A × RunWorld) (a : A) (e : Thrown) (w : RunWorld)
    → r ≡ (ok a, w)
    → r ≡ (err e, w)
    → ⊥
returned-threw r a e w h k = let both : ok a ≡ err e = ap (λ p. p.0) (sym h ∙ k) in cc (both)

-- a call that returns the run of the file was asked for it
returned-asked :
    (env : Environment) (texts : Texts) (others : ℕ → Disk → Disk) (input : RunWorkflowInput)
    (w : RunWorld) (s : RunState) (r : String)
    → read_workflow_run_state env.codec w.disk ≡ ok s
    → input.run_id ≡ some r
    → run_workflow env texts others input w ≡ (ok s, w)
    → (s.run.workflow_id ≡ input.definition.id) × (s.run.run_id ≡ r)
returned-asked env texts others input w s r h asked returned = (
  same_text s.run.workflow_id input.definition.id (λ n. refused (inl n)),
  same_text s.run.run_id r (λ n. refused (inr (r, asked, n))),
)
  where
    refused :
        (s.run.workflow_id ≢ input.definition.id)
          ⊎ ((q : String) × (input.run_id ≡ some q) × (s.run.run_id ≢ q))
        → ⊥
    refused n =
        let (e, threw) = run_workflow-Refused env texts others input w s h n in
        returned-threw (run_workflow env texts others input w) s e w returned threw

module _ {Date : Type 0} (calendar : Calendar Date) where
  -- What an evaluation does with a file that reads as `s`, a run that is over. It changes nothing: it
  -- throws; or the time is not due, and it says so; or the time is due, the run is that of the
  -- workflow and the time, and it returns this run.
  pub data Served (d : WorkflowDefinition) (scheduled : String) (s : RunState) (w : RunWorld)
      (r : Result Thrown Evaluation × RunWorld) : Type 0 where
    throws : (e : Thrown) → r ≡ (err e, w) → Served d scheduled s w r
    waits :
        (at_time cron : String)
        → normalize_scheduled_for_utc calendar scheduled ≡ ok at_time
        → cron_of d.trigger.type ≡ ok cron
        → ¬ IsDue calendar cron at_time
        → r ≡ (ok not_due, w)
        → Served d scheduled s w r
    returns :
        (at_time cron : String)
        → normalize_scheduled_for_utc calendar scheduled ≡ ok at_time
        → cron_of d.trigger.type ≡ ok cron
        → IsDue calendar cron at_time
        → s.run.workflow_id ≡ d.id
        → s.run.run_id ≡ d.id ++ ("-scheduled-" ++ compact_timestamp at_time)
        → r ≡ (ok (ran s), w)
        → Served d scheduled s w r

  Served-lift :
      {A : Type 0} (d : WorkflowDefinition) (scheduled : String) (s : RunState) (w : RunWorld)
      (r : Result Thrown A) (f : A → Exec RunWorld Evaluation)
      → ((a : A) → r ≡ ok a → Served d scheduled s w (f a w))
      → Served d scheduled s w ((lift r >>= f) w)
  Served-lift d scheduled s w (ok a) f h = h a refl
  Served-lift d scheduled s w (err e) f h = throws e refl

  module _ (env : Environment) (texts : Texts) (others : ℕ → Disk → Disk) where
    evaluate_due-Served :
        (d : WorkflowDefinition) (scheduled at_time cron : String) (w : RunWorld) (s : RunState)
        (t : TerminalState)
        → read_workflow_run_state env.codec w.disk ≡ ok s
        → s.run.terminal_state ≡ some t
        → normalize_scheduled_for_utc calendar scheduled ≡ ok at_time
        → cron_of d.trigger.type ≡ ok cron
        → (due : Bool) → is_due_for_schedule calendar cron at_time ≡ due
        → Served d scheduled s w (evaluate_due calendar env texts others d cron at_time due w)
    unfolding evaluate_due schedule_input create_schedule_run_id
    evaluate_due-Served d scheduled at_time cron w s t r o n c false h =
        waits at_time cron n c
          (λ due. cc (sym h ∙ IsDue-is_due_for_schedule calendar cron at_time due)) refl
    evaluate_due-Served d scheduled at_time cron w s t r o n c true h =
        let input = schedule_input calendar env texts others d cron at_time in
        elim (run_workflow-over env texts others input w s t r o) [
          | inl (e, p) ↦ throws e (rw p refl)
          | inr p ↦
              let (same_workflow, same_run) =
                returned-asked env texts others input w s (create_schedule_run_id d.id at_time) r
                  refl p in
              returns at_time cron n c (is_due_for_schedule-IsDue calendar cron at_time h)
                same_workflow same_run (rw p refl)
        ]

    -- Where the file of a scheduled time reads as a run that is over, evaluating the trigger for that
    -- time changes nothing: it throws; or it says that the time is not due, and one of the five fields
    -- of the cron expression neither is a star nor has the number of the time's minutes, hours, day,
    -- month from 1 on, or weekday, in UTC, or the expression is not valid; or none is so, the run is of
    -- the workflow and has the id made of the workflow's id and the time, and it returns this run.
    pub evaluate_schedule_trigger-Served :
        (d : WorkflowDefinition) (scheduled : String) (w : RunWorld) (s : RunState)
        (t : TerminalState)
        → read_workflow_run_state env.codec w.disk ≡ ok s
        → s.run.terminal_state ≡ some t
        → Served d scheduled s w (evaluate_schedule_trigger calendar env texts others d scheduled w)
    unfolding evaluate_schedule_trigger
    evaluate_schedule_trigger-Served d scheduled w s t r o =
        Served-lift d scheduled s w (normalize_scheduled_for_utc calendar scheduled) _ (λ at_time n.
          Served-lift d scheduled s w (cron_of d.trigger.type) _ (λ cron c.
            evaluate_due-Served d scheduled at_time cron w s t r o n c
              (is_due_for_schedule calendar cron at_time) refl))
