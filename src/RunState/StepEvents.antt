-- ===== src/RunState/StepEvents.antt =====
-- src/workflow-run-state.ts: `applyStepAttemptEvent` on the attempts of one step, and the errors of
-- the projection.
use ensen_flow.Common.{
  ℕ, ◌+◌, String, Bool, true, false, Option, none, some, List, [], ◌∷◌, ◌++◌, ◌==◌, eqb, leb,
  if◌then◌else◌, last, any, find?, Result, ok, err, ◌>>◌, require,
}
use ensen_flow.RunState.{
  AttemptStatus, RecoveryState, RetryMetadata, RecoveryDecisionMetadata, StepEventType,
  StepAttemptEvent, AttemptState,
}

pub data StateError : Type 0 where
  no_records : StateError
  first_not_created : StateError
  after_run_completed created_twice run_id_mismatch : (line : ℕ) → StateError
  started_follows : (line : ℕ) (step_id : String) (attempt : ℕ) → AttemptStatus → StateError
  started_while_running : (line : ℕ) (step_id : String) (attempt running_attempt : ℕ) → StateError
  attempt_not_next not_started : (line : ℕ) (step_id : String) (attempt : ℕ) → StateError
  finished_follows : (line : ℕ) (step_id : String) (attempt : ℕ) → AttemptStatus → StateError
  -- the `TypeError` of `attempts.find` where `stepAttempts[stepId]` is inherited
  not_an_array : (step_id : String) → StateError

-- The names that every object literal inherits from `Object.prototype`.
abbrev pub prototype_names : List String
prototype_names =
    "constructor" ∷ "__defineGetter__" ∷ "__defineSetter__" ∷ "hasOwnProperty" ∷ "__lookupGetter__"
    ∷ "__lookupSetter__" ∷ "isPrototypeOf" ∷ "propertyIsEnumerable" ∷ "toString" ∷ "valueOf"
    ∷ "__proto__" ∷ "toLocaleString" ∷ []

unfoldable pub is_inherited : String → Bool
is_inherited k = any (λ n. n == k) prototype_names

unfoldable pub is_running : AttemptStatus → Bool
is_running AttemptStatus.running = true
is_running _ = false

-- `STEP_ATTEMPT_TERMINAL_STATUSES.has(status)`
unfoldable pub is_terminal_status : AttemptStatus → Bool
is_terminal_status AttemptStatus.running = false
is_terminal_status _ = true

-- the statuses after which a further attempt may start
unfoldable pub may_be_followed : AttemptStatus → Bool
may_be_followed AttemptStatus.retryable_failed = true
may_be_followed AttemptStatus.approval_required = true
may_be_followed _ = false

-- `attempts.find((candidate) => candidate.attempt === n)`
unfoldable pub find_attempt : ℕ → List AttemptState → Option AttemptState
find_attempt n attempts = find? (λ a. eqb a.attempt n) attempts

unfoldable pub find_running : List AttemptState → Option AttemptState
unfolding is_running
find_running attempts = find? (λ a. is_running a.status) attempts

-- The stable `attempts.sort((left, right) => left.attempt - right.attempt)`.
unfoldable pub insert_by_attempt : AttemptState → List AttemptState → List AttemptState
insert_by_attempt a [] = a ∷ []
insert_by_attempt a (b ∷ bs) =
    if leb a.attempt b.attempt then a ∷ b ∷ bs else b ∷ insert_by_attempt a bs

unfoldable pub sort_by_attempt : List AttemptState → List AttemptState
unfolding insert_by_attempt
sort_by_attempt [] = []
sort_by_attempt (a ∷ as') = insert_by_attempt a (sort_by_attempt as')

-- The writes to the object that `find_attempt` found.
unfoldable pub update_attempt :
    ℕ → (AttemptState → AttemptState) → List AttemptState → List AttemptState
update_attempt n f [] = []
update_attempt n f (a ∷ as') = if eqb a.attempt n then f a ∷ as' else a ∷ update_attempt n f as'

abbrev pub recovery_state : Option RecoveryDecisionMetadata → Option RecoveryState
recovery_state none = none
recovery_state (some r) = some r.state

abbrev pub is_retryable : Option RetryMetadata → Bool
is_retryable none = false
is_retryable (some r) = r.retryable

unfoldable pub status_from_failed : StepAttemptEvent → AttemptStatus
status_from_failed event = elim (recovery_state event.recovery) [
  | some s ↦ elim s [
    | RecoveryState.approval_required ↦ AttemptStatus.approval_required
    | RecoveryState.blocked ↦ AttemptStatus.blocked
    | RecoveryState.manual_repair_needed ↦ AttemptStatus.manual_repair_needed
    | _ ↦ if is_retryable event.retry then AttemptStatus.retryable_failed else AttemptStatus.failed
  ]
  | none ↦ if is_retryable event.retry then AttemptStatus.retryable_failed else AttemptStatus.failed
]

-- the object that `step.attempt.started` pushes
unfoldable pub started_attempt : StepAttemptEvent → AttemptState
started_attempt event = record {
  attempt = event.attempt;
  started_at = some event.occurred_at;
  completed_at = none;
  failed_at = none;
  retry = event.retry;
  result = none;
  recovery = none;
  status = AttemptStatus.running;
}

unfoldable pub complete : StepAttemptEvent → AttemptState → AttemptState
complete event a = record a {
  completed_at = some event.occurred_at;
  status = AttemptStatus.succeeded;
  retry = event.retry;
  result = event.result;
  recovery = event.recovery;
}

unfoldable pub fail : StepAttemptEvent → AttemptState → AttemptState
unfolding status_from_failed
fail event a = record a {
  failed_at = some event.occurred_at;
  status = status_from_failed event;
  retry = event.retry;
  result = event.result;
  recovery = event.recovery;
}

-- `latestAttempt === undefined ? 1 : latestAttempt.attempt + 1`
unfoldable pub expected_attempt : Option AttemptState → ℕ
expected_attempt none = 1
expected_attempt (some a) = a.attempt + 1

-- `latestAttempt` is undefined or may be followed
pub follows_ok : ℕ → StepAttemptEvent → Option AttemptState → Result StateError (Unit {0})
unfolding may_be_followed
follows_ok line event none = ok tt
follows_ok line event (some a) =
    require (may_be_followed a.status) (started_follows line event.step_id event.attempt a.status)

pub none_running : ℕ → StepAttemptEvent → Option AttemptState → Result StateError (Unit {0})
none_running line event none = ok tt
none_running line event (some a) =
    err (started_while_running line event.step_id event.attempt a.attempt)

pub none_with_number : ℕ → StepAttemptEvent → Option AttemptState → Result StateError (Unit {0})
none_with_number line event none = ok tt
none_with_number line event (some a) =
    err (started_follows line event.step_id event.attempt a.status)

-- the branch of `step.attempt.started`
unfoldable pub start_attempt :
    ℕ → StepAttemptEvent → List AttemptState → Result StateError (List AttemptState)
unfolding follows_ok none_running none_with_number find_attempt find_running expected_attempt
    started_attempt sort_by_attempt
start_attempt line event attempts = do
  none_with_number line event (find_attempt event.attempt attempts)
  none_running line event (find_running attempts)
  require (eqb event.attempt (expected_attempt (last attempts)))
      (attempt_not_next line event.step_id event.attempt)
  follows_ok line event (last attempts)
  ok (sort_by_attempt (attempts ++ started_attempt event ∷ []))

-- the branch of `step.attempt.completed` and `step.attempt.failed`
pub finish_found :
    ℕ
    → StepAttemptEvent
    → (AttemptState → AttemptState)
    → List AttemptState
    → Option AttemptState
    → Result StateError (List AttemptState)
unfolding is_terminal_status update_attempt
finish_found line event change attempts none = err (not_started line event.step_id event.attempt)
finish_found line event change attempts (some a) =
    if is_terminal_status a.status
    then err (finished_follows line event.step_id event.attempt a.status)
    else ok (update_attempt event.attempt change attempts)

unfoldable pub finish_attempt :
    ℕ
    → StepAttemptEvent
    → (AttemptState → AttemptState)
    → List AttemptState
    → Result StateError (List AttemptState)
unfolding finish_found find_attempt
finish_attempt line event change attempts =
    finish_found line event change attempts (find_attempt event.attempt attempts)

unfoldable pub apply_to_attempts :
    StepEventType → ℕ → StepAttemptEvent → List AttemptState → Result StateError (List AttemptState)
unfolding start_attempt finish_attempt complete fail
apply_to_attempts StepEventType.started line event = start_attempt line event
apply_to_attempts StepEventType.completed line event = finish_attempt line event (complete event)
apply_to_attempts StepEventType.failed line event = finish_attempt line event (fail event)
