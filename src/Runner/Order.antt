-- ===== src/Runner/Order.antt =====
-- src/workflow-runner.ts: `orderSteps`, which puts each step behind the steps that it depends on.
-- The `Map` from ids to steps is the list of its values, in the order of insertion; the key of a
-- value is its `id`. The `while` loop takes as fuel the number of steps that remain.
pub mod Laws
pub mod Progress
pub mod Complete
use ensen_flow.Common.{
  ℕ, zero, suc, String, Bool, true, false, Option, none, some, List, [], ◌∷◌, ◌++◌, ◌==◌,
  if◌then◌else◌, or_else, length, any, all, find?, Result, ok, err,
}
use ensen_flow.Definition.{WorkflowStep}

pub data OrderError : Type 0 where
  cannot_be_ordered out_of_fuel : OrderError

-- `steps.some((step) => step.id === id)`
unfoldable pub has_id : String → List WorkflowStep → Bool
has_id id [] = false
has_id id (s ∷ ss) = if s.id == id then true else has_id id ss

-- `map.set(step.id, step)`
unfoldable pub set_step : WorkflowStep → List WorkflowStep → List WorkflowStep
set_step step [] = step ∷ []
set_step step (s ∷ ss) = if s.id == step.id then step ∷ ss else s ∷ set_step step ss

-- `new Map(steps.map((step) => [step.id, step]))`, after the entries `remaining`
unfoldable pub map_of_steps : List WorkflowStep → List WorkflowStep → List WorkflowStep
unfolding set_step
map_of_steps remaining [] = remaining
map_of_steps remaining (s ∷ ss) = map_of_steps (set_step s remaining) ss

-- `map.delete(id)`
unfoldable pub delete_step : String → List WorkflowStep → List WorkflowStep
delete_step id [] = []
delete_step id (s ∷ ss) = if s.id == id then ss else s ∷ delete_step id ss

-- `step.dependsOn ?? []`
abbrev pub dependencies : WorkflowStep → List String
dependencies step = or_else step.depends_on []

unfoldable pub is_ready : List WorkflowStep → WorkflowStep → Bool
unfolding has_id
is_ready ordered step = all (λ d. has_id d ordered) (dependencies step)

-- the loop, with the next ready step
unfoldable pub order_loop :
    ℕ → List WorkflowStep → List WorkflowStep → Result OrderError (List WorkflowStep)
order_loop fuel [] ordered = ok ordered
order_loop zero (r ∷ rs) ordered = err out_of_fuel
order_loop (suc fuel) (r ∷ rs) ordered = elim (find? (is_ready ordered) (r ∷ rs)) [
  | none ↦ err cannot_be_ordered
  | some ready ↦ order_loop fuel (delete_step ready.id (r ∷ rs)) (ordered ++ ready ∷ [])
]

unfoldable pub order_steps : List WorkflowStep → Result OrderError (List WorkflowStep)
unfolding order_loop map_of_steps is_ready delete_step
order_steps steps =
    let remaining = map_of_steps [] steps in order_loop (length remaining) remaining []
