-- ===== src/RunState/Project/Attempts.antt =====
-- src/workflow-run-state.ts: the attempts of one step, as `applyStepAttemptEvent` keeps them.
use ensen_flow.Common.{
  ℕ, ◌+◌, true, false, ◌≡◌, refl, ◌≢◌, inl, inr, ◌∙◌, some, List, [], ◌∷◌, ◌++◌, arith, eqb, length,
  length-append, last, Bool-cases, Option-cases, last-eq-none, ok,
}
use ensen_flow.RunState.{AttemptStatus, StepEventType, StepAttemptEvent, AttemptState}
use ensen_flow.RunState.StepEvents.{
  may_be_followed, find_attempt, is_terminal_status, sort_by_attempt, update_attempt,
  expected_attempt, started_attempt, start_attempt, finish_attempt, complete, fail,
  apply_to_attempts,
}
use ensen_flow.RunState.Project.Chain.{
  Chain, Chain-last, may_grow, Chain-concat, sort-Chain, Chain-update,
}

-- What an accepted `step.attempt.started` has passed.
pub record Started (event : StepAttemptEvent) (as' bs : List AttemptState) : Type 0 where
  pub next : event.attempt ≡ expected_attempt (last as')
  pub grows : may_grow (last as') ≡ true
  pub pushed : bs ≡ sort_by_attempt (as' ++ started_attempt event ∷ [])

pub start_attempt-Started :
    (line : ℕ) (event : StepAttemptEvent) (as' bs : List AttemptState)
    → start_attempt line event as' ≡ ok bs
    → Started event as' bs
unfolding start_attempt
start_attempt-Started line event as' bs h = record {
  next = ground arith;
  grows = ground arith;
  pushed = ground arith;
}

pub expected_attempt_lem :
    (as' : List AttemptState) → Chain 0 as' → expected_attempt (last as') ≡ length as' + 1
unfolding expected_attempt
expected_attempt_lem as' h = elim (Option-cases (last as')) [
  | inl e ↦ rw (e, last-eq-none as' e) refl
  | inr (a, e) ↦ rw e (omega (arith, Chain-last 0 as' a h e))
]

pub not-nil-concat : (as' : List AttemptState) (s : AttemptState) → as' ++ s ∷ [] ≢ []
not-nil-concat [] s h = cc
not-nil-concat (a ∷ as') s h = cc

pub attempt-started : (event : StepAttemptEvent) → (started_attempt event).attempt ≡ event.attempt
unfolding started_attempt
attempt-started event = refl

pub Started-Chain :
    {event : StepAttemptEvent} {as' bs : List AttemptState}
    → Chain 0 as'
    → Started event as' bs
    → (bs ≡ as' ++ started_attempt event ∷ []) × Chain 0 bs
Started-Chain {event} {as'} {bs} h s =
    let s' = started_attempt event in
    let number : s'.attempt ≡ 0 + length as' + 1 =
      omega (arith, attempt-started event, s.next, expected_attempt_lem as' h) in
    let grown = Chain-concat 0 as' s' h s.grows number in
    let same = s.pushed ∙ sort-Chain 0 (as' ++ s' ∷ []) grown in (same, rw same grown)

-- What an accepted `step.attempt.completed` or `step.attempt.failed` has passed.
pub record Finished (event : StepAttemptEvent) (change : AttemptState → AttemptState)
    (as' bs : List AttemptState) : Type 0 where
  pub target : AttemptState
  pub found : find_attempt event.attempt as' ≡ some target
  pub active : target.status ≡ AttemptStatus.running
  pub updated : bs ≡ update_attempt event.attempt change as'

pub running_of_not_terminal :
    (s : AttemptStatus) → is_terminal_status s ≡ false → s ≡ AttemptStatus.running
unfolding is_terminal_status
running_of_not_terminal AttemptStatus.running h = refl
running_of_not_terminal _ h = cc

pub finish_attempt-Finished :
    (line : ℕ) (event : StepAttemptEvent) (change : AttemptState → AttemptState)
    (as' bs : List AttemptState)
    → finish_attempt line event change as' ≡ ok bs
    → Finished event change as' bs
unfolding finish_attempt
finish_attempt-Finished line event change as' bs h =
    elim (Option-cases (find_attempt event.attempt as')) [
      | inl e ↦ absurd (ground arith)
      | inr (a, e) ↦ record {
        target = a;
        found = e;
        active = running_of_not_terminal a.status (ground arith);
        updated = ground arith;
      }
    ]

pub not-followed-running :
    (s : AttemptStatus) → s ≡ AttemptStatus.running → may_be_followed s ≡ false
unfolding may_be_followed
not-followed-running s e = rw e

pub length-update_attempt :
    (k : ℕ) (f : AttemptState → AttemptState) (as' : List AttemptState)
    → length (update_attempt k f as') ≡ length as'
unfolding update_attempt
length-update_attempt k f [] = refl
length-update_attempt k f (a ∷ as') = ground (arith, length-update_attempt k f as')

pub Finished-Chain :
    {event : StepAttemptEvent} {change : AttemptState → AttemptState} {as' bs : List AttemptState}
    → ((a : AttemptState) → (change a).attempt ≡ a.attempt)
    → Chain 0 as'
    → Finished event change as' bs
    → Chain 0 bs × (length bs ≡ length as')
Finished-Chain {event} {change} {as'} {bs} keep h f =
    let followed = not-followed-running f.target.status f.active in
    let kept = Chain-update 0 event.attempt change as' f.target keep h f.found followed in
    (rw f.updated kept, rw f.updated (length-update_attempt event.attempt change as'))

pub attempt-complete :
    (event : StepAttemptEvent) (a : AttemptState) → (complete event a).attempt ≡ a.attempt
unfolding complete
attempt-complete event a = refl

pub attempt-fail :
    (event : StepAttemptEvent) (a : AttemptState) → (fail event a).attempt ≡ a.attempt
unfolding fail
attempt-fail event a = refl

-- how many attempts an accepted event adds
abbrev pub adds : StepEventType → ℕ
adds StepEventType.started = 1
adds _ = 0

pub apply_to_attempts-Chain :
    (type : StepEventType) (line : ℕ) (event : StepAttemptEvent) (as' bs : List AttemptState)
    → Chain 0 as'
    → apply_to_attempts type line event as' ≡ ok bs
    → Chain 0 bs × (length bs ≡ length as' + adds type)
unfolding apply_to_attempts
apply_to_attempts-Chain StepEventType.started line event as' bs h e =
    let (same, chain) = Started-Chain h (start_attempt-Started line event as' bs e) in
    (chain, rw same (length-append as' (started_attempt event ∷ [])))
apply_to_attempts-Chain StepEventType.completed line event as' bs h e =
    let (chain, len) =
      Finished-Chain (attempt-complete event) h
        (finish_attempt-Finished line event (complete event) as' bs e) in
    (chain, omega arith)
apply_to_attempts-Chain StepEventType.failed line event as' bs h e =
    let (chain, len) =
      Finished-Chain (attempt-fail event) h
        (finish_attempt-Finished line event (fail event) as' bs e) in
    (chain, omega arith)

pub update_attempt-ne-nil :
    (k : ℕ) (f : AttemptState → AttemptState) (as' : List AttemptState) {a : AttemptState}
    → find_attempt k as' ≡ some a
    → update_attempt k f as' ≢ []
unfolding find_attempt update_attempt
update_attempt-ne-nil k f [] h = cc
update_attempt-ne-nil k f (b ∷ bs) h = elim (Bool-cases (eqb b.attempt k)) [
  | inl same ↦ rw same (λ e. cc)
  | inr differs ↦ rw differs (λ e. cc)
]

pub apply_to_attempts-ne-nil :
    (type : StepEventType) (line : ℕ) (event : StepAttemptEvent) (as' bs : List AttemptState)
    → Chain 0 as'
    → apply_to_attempts type line event as' ≡ ok bs
    → bs ≢ []
unfolding apply_to_attempts
apply_to_attempts-ne-nil StepEventType.started line event as' bs h e =
    let (same, chain) = Started-Chain h (start_attempt-Started line event as' bs e) in
    rw same (not-nil-concat as' (started_attempt event))
apply_to_attempts-ne-nil StepEventType.completed line event as' bs h e =
    let f = finish_attempt-Finished line event (complete event) as' bs e in
    rw f.updated (update_attempt-ne-nil event.attempt (complete event) as' f.found)
apply_to_attempts-ne-nil StepEventType.failed line event as' bs h e =
    let f = finish_attempt-Finished line event (fail event) as' bs e in
    rw f.updated (update_attempt-ne-nil event.attempt (fail event) as' f.found)
