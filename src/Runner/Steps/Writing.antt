-- ===== src/Runner/Steps/Writing.antt =====
-- src/workflow-runner.ts: the loops of a run, and the appends to the state file in them.
use ensen_flow.Common.{ℕ, zero, suc, ◌+◌, String, Bool, Option, List, [], ◌∷◌}
use ensen_flow.RunState.{AttemptState}
use ensen_flow.Definition.{WorkflowDefinition, WorkflowStep, RetryPolicy}
use ensen_flow.Runner.Environment.{Environment, leave, again, return}
use ensen_flow.Runner.Attempt.Keeps.{
  Appends, Appends-pure, Appends-bind, appends_rules, Appends-run_attempt,
}
use ensen_flow.Runner.Steps.{attempts_loop, run_remaining, run_step, complete_run, run_steps}

module _ (env : Environment) (definition : WorkflowDefinition) (run_id : String) where
  Appends-attempts_loop :
      (step : WorkflowStep) (policy : RetryPolicy) (rounds attempt : ℕ)
      → Appends env (attempts_loop env definition run_id step policy rounds attempt)
  unfolding attempts_loop
  Appends-attempts_loop step policy zero attempt = Appends-pure env leave
  Appends-attempts_loop step policy (suc rounds) attempt =
      let more = Appends-attempts_loop step policy rounds (attempt + 1) in
      Appends-bind env _ _ (Appends-run_attempt env definition run_id step policy attempt) (elim [
        | leave ↦ Appends-pure env leave
        | again ↦ more
        | return state ↦ Appends-pure env (return state)
      ])

  Appends-run_remaining :
      (step : WorkflowStep) (resumes : Bool) (latest : Option AttemptState)
      → Appends env (run_remaining env definition run_id step resumes latest)
  unfolding run_remaining
  Appends-run_remaining step resumes latest = search (appends_rules, Appends-attempts_loop) depth 20

  pub Appends-run_step :
      (recover : List String) (step : WorkflowStep)
      → Appends env (run_step env definition run_id recover step)
  unfolding run_step
  Appends-run_step recover step = search (appends_rules, Appends-run_remaining) depth 20

  Appends-complete_run : Appends env (complete_run env definition run_id)
  unfolding complete_run
  Appends-complete_run = search appends_rules depth 20

  pub Appends-run_steps :
      (recover : List String) (steps : List WorkflowStep)
      → Appends env (run_steps env definition run_id recover steps)
  unfolding run_steps
  Appends-run_steps recover [] = Appends-complete_run
  Appends-run_steps recover (step ∷ steps) =
      let more = Appends-run_steps recover steps in
      Appends-bind env _ _ (Appends-run_step recover step)
        (elim [ return state ↦ Appends-pure env state | leave ↦ more | again ↦ more ])
