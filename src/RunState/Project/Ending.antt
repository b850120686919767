-- ===== src/RunState/Project/Ending.antt =====
-- src/workflow-run-state.ts: records of attempts against a latest attempt that ended its step.
use ensen_flow.Common.{
  not, ℕ, ◌+◌, Bool, true, false, ◌≡◌, refl, ◌≢◌, inl, inr, some, List, [], ◌∷◌, arith, eqb, last,
  Bool-cases, ok,
}
use ensen_flow.RunState.{AttemptStatus, StepEventType, StepAttemptEvent, AttemptState}
use ensen_flow.RunState.StepEvents.{
  may_be_followed, find_attempt, update_attempt, complete, fail, apply_to_attempts,
}
use ensen_flow.RunState.Project.Chain.{Chain}
use ensen_flow.RunState.Project.Attempts.{
  start_attempt-Started, Finished, finish_attempt-Finished, not-followed-running,
}

-- Only the last attempt can be running.
running-last :
    (n k : ℕ) (as' : List AttemptState) (a : AttemptState)
    → Chain n as'
    → find_attempt k as' ≡ some a
    → may_be_followed a.status ≡ false
    → last as' ≡ some a
unfolding find_attempt
running-last n k [] a h e r = cc
running-last n k (b ∷ []) a h e r = ground arith
running-last n k (b ∷ (c ∷ cs)) a h e r = elim (Bool-cases (eqb b.attempt k)) [
  | inl same ↦ absurd (ground arith)
  | inr differs ↦ running-last (n + 1) k (c ∷ cs) a h.2 (ground arith) r
]

-- a status that ends the step: no longer running, and not to be followed by an attempt
unfoldable pub is_final : AttemptStatus → Bool
unfolding may_be_followed
is_final AttemptStatus.running = false
is_final s = not (may_be_followed s)

not-grows_of_final :
    (a : AttemptState) → is_final a.status ≡ true → may_be_followed a.status ≡ false
unfolding is_final
not-grows_of_final a = ground arith

Finished-not-final :
    {event : StepAttemptEvent} {change : AttemptState → AttemptState} {as' bs : List AttemptState}
    (a : AttemptState)
    → Chain 0 as'
    → last as' ≡ some a
    → is_final a.status ≡ true
    → ¬ Finished event change as' bs
unfolding is_final
Finished-not-final {event} {change} {as'} {bs} a h l f g =
    let followed = not-followed-running g.target.status g.active in
    let same = running-last 0 event.attempt as' g.target h g.found followed in
    ground (arith, same, g.active)

-- A step whose latest attempt has a final status takes no further record.
pub apply_to_attempts-final :
    (type : StepEventType) (line : ℕ) (event : StepAttemptEvent) (as' bs : List AttemptState)
    (a : AttemptState)
    → Chain 0 as'
    → last as' ≡ some a
    → is_final a.status ≡ true
    → apply_to_attempts type line event as' ≢ ok bs
unfolding apply_to_attempts
apply_to_attempts-final StepEventType.started line event as' bs a h l f e =
    let s = start_attempt-Started line event as' bs e in
    ground (arith, s.grows, not-grows_of_final a f)
apply_to_attempts-final StepEventType.completed line event as' bs a h l f e =
    Finished-not-final a h l f (finish_attempt-Finished line event (complete event) as' bs e)
apply_to_attempts-final StepEventType.failed line event as' bs a h l f e =
    Finished-not-final a h l f (finish_attempt-Finished line event (fail event) as' bs e)

last-update :
    (n k : ℕ) (f : AttemptState → AttemptState) (as' : List AttemptState) (a : AttemptState)
    → Chain n as'
    → find_attempt k as' ≡ some a
    → may_be_followed a.status ≡ false
    → last (update_attempt k f as') ≡ some (f a)
unfolding find_attempt update_attempt
last-update n k f [] a h e r = cc
last-update n k f (b ∷ []) a h e r = elim (Bool-cases (eqb b.attempt k)) [
  | inl same ↦ let found : b ≡ a = ground arith in rw same (rw found refl)
  | inr differs ↦ absurd (ground arith)
]
last-update n k f (b ∷ (c ∷ cs)) a h e r = elim (Bool-cases (eqb b.attempt k)) [
  | inl same ↦ absurd (ground arith)
  | inr differs ↦
      let ih = last-update (n + 1) k f (c ∷ cs) a h.2 (ground arith) r in
      rw differs (last_behind b (update_attempt k f (c ∷ cs)) ih)
]
  where
    last_behind :
        (b : AttemptState) (bs : List AttemptState) {x : AttemptState}
        → last bs ≡ some x
        → last (b ∷ bs) ≡ some x
    last_behind b [] e = cc
    last_behind b (c ∷ cs) e = e

-- After an accepted `step.attempt.completed` the latest attempt succeeded.
pub last-completed :
    (line : ℕ) (event : StepAttemptEvent) (as' bs : List AttemptState)
    → Chain 0 as'
    → apply_to_attempts StepEventType.completed line event as' ≡ ok bs
    → (a : AttemptState) × (last bs ≡ some a) × (a.status ≡ AttemptStatus.succeeded)
unfolding apply_to_attempts complete
last-completed line event as' bs h e =
    let f = finish_attempt-Finished line event (complete event) as' bs e in
    let followed = not-followed-running f.target.status f.active in
    (
      complete event f.target,
      rw f.updated (last-update 0 event.attempt (complete event) as' f.target h f.found followed),
      refl,
    )
