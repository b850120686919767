-- ===== src/Runner/Steps/Latest.antt =====
-- src/workflow-runner.ts: the attempt that a step is resumed from.
use mathlib.Core.Bool.{false≢true}
use ensen_flow.Common.{String, true, false, ◌≡◌, refl, none, some, Option, [], arith, last, ok}
use ensen_flow.RunState.{AttemptStatus, AttemptState, StepAttempts}
use ensen_flow.RunState.Project.{attempts_of}
use ensen_flow.Runner.Steps.{latest_step_attempt, is_succeeded, resumes_after_approval}

pub succeeded_lem : (x : AttemptStatus) → is_succeeded x ≡ true → x ≡ AttemptStatus.succeeded
unfolding is_succeeded
succeeded_lem AttemptStatus.succeeded h = refl
succeeded_lem AttemptStatus.running h = absurd (false≢true h)
succeeded_lem AttemptStatus.failed h = absurd (false≢true h)
succeeded_lem AttemptStatus.retryable_failed h = absurd (false≢true h)
succeeded_lem AttemptStatus.approval_required h = absurd (false≢true h)
succeeded_lem AttemptStatus.blocked h = absurd (false≢true h)
succeeded_lem AttemptStatus.manual_repair_needed h = absurd (false≢true h)

pub latest_ok :
    (k : String) (m : StepAttempts) (latest : Option AttemptState)
    → latest_step_attempt k m ≡ ok latest
    → last (attempts_of k m) ≡ latest
unfolding latest_step_attempt
latest_ok k m latest h = ground arith

pub resumes_none :
    (k : String) (latest : Option AttemptState) → resumes_after_approval [] k latest ≡ false
unfolding resumes_after_approval
resumes_none k none = refl
resumes_none k (some a) = ground arith
