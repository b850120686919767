-- ===== src/Runner/Exec.antt =====
-- src/workflow-runner.ts: the world that a run acts on, and actions that may throw. What was
-- written before a throw stays written.
use ensen_flow.Common.{ℕ, String, List, Result, ok, err}
use ensen_flow.Value.{Value}
use ensen_flow.RunState.Store.{Disk, StoreError}

-- `ExecutorConnectorExecutionStatus`
pub data ExecutorStatus : Type 0 where
  accepted running succeeded failed cancelled approval_required blocked needs_review :
      ExecutorStatus

-- An `ExecutorConnectorStatusSnapshot`: a value that `isExecutorStatusSnapshot` accepts, with its
-- status. A `NormalizedWorkflowStepHandlerResult` is an object with this one field.
pub record StepResult : Type 0 where
  pub executor : Value
  pub status : ExecutorStatus

-- What is thrown: an `Error`, the runner's own classes of errors, an error of the state file, a
-- string, and anything else.
pub data Thrown : Type 0 where
  error non_retryable audit_validation : (message : String) → Thrown
  outcome : (message : String) → StepResult → Thrown
  store : StoreError → Thrown
  text : String → Thrown
  anything : Thrown

-- The state file, the audit log, and how often the clock was read and the step handler called.
pub record World {ℓ} (Audit : Type ℓ) : Type ℓ where
  pub disk : Disk
  pub audit : List Audit
  pub ticks : ℕ
  pub calls : ℕ

abbrev pub Exec : Type 0 → Type 0 → Type 0
Exec W A = W → Result Thrown A × W

module _ {W : Type 0} where
  abbrev pub pure : {A : Type 0} → A → Exec W A
  pure a w = (ok a, w)

  abbrev pub raise : {A : Type 0} → Thrown → Exec W A
  raise e w = (err e, w)

  abbrev pub lift : {A : Type 0} → Result Thrown A → Exec W A
  lift r w = (r, w)

  abbrev pub continue : {A B : Type 0} → (A → Exec W B) → Result Thrown A → Exec W B
  continue f (ok a) w = f a w
  continue f (err e) w = (err e, w)

  infixl 5 ◌>>=◌ ◌>>◌
  abbrev pub ◌>>=◌ : {A B : Type 0} → Exec W A → (A → Exec W B) → Exec W B
  ◌>>=◌ m f w = let (r, w') = m w in continue f r w'

  abbrev pub ◌>>◌ : {B : Type 0} → Exec W (Unit {0}) → Exec W B → Exec W B
  m >> k = m >>= λ _. k

  abbrev pub handled : {A : Type 0} → (Thrown → Exec W A) → Result Thrown A → Exec W A
  handled f (ok a) w = (ok a, w)
  handled f (err e) w = f e w

  -- `try { m } catch (e) { f(e) }`
  abbrev pub catch : {A : Type 0} → Exec W A → (Thrown → Exec W A) → Exec W A
  catch m f w = let (r, w') = m w in handled f r w'
