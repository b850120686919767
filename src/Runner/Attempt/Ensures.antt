-- ===== src/Runner/Attempt/Ensures.antt =====
-- src/workflow-runner.ts: conditions on the state file before and after the actions of a run.
use ensen_flow.Common.{
  ◌≡◌, refl, inl, inr, Bool, true, false, Result, ok, err, Result-cases, if◌then◌else◌,
}
use ensen_flow.RunState.{RunState, Event}
use ensen_flow.RunState.Store.{Disk, read_workflow_run_state, append_workflow_run_event}
use ensen_flow.Runner.Exec.{Thrown, Exec, pure, raise, lift, continue, ◌>>=◌, handled, catch}
use ensen_flow.Runner.Attempt.{
  written, logged, from_store, read_current_run_state, append_run_event, write_audit_event,
}
use ensen_flow.Runner.Environment.{RunWorld, Environment, AuditEvent}

-- what is said of the world that an action which returned has left; of a throw, nothing is said
abbrev pub Post : {A : Type 0} → (A → Disk → Type 0) → Result Thrown A × RunWorld → Type 0
Post Q (ok a, w) = Q a w.disk
Post Q (err e, w) = Unit

abbrev pub Any : Disk → Type 0
Any disk = Unit

-- From a file with `P`, the action throws, or returns and leaves a file with `Q` of its result.
pub record Ensures {A : Type 0} (P : Disk → Type 0) (m : Exec RunWorld A) (Q : A → Disk → Type 0)
    : Type 0 where
  pub at : (w : RunWorld) → P w.disk → Post Q (m w)

pub Ensures-pure :
    {A : Type 0} {P : Disk → Type 0} {Q : A → Disk → Type 0} (a : A)
    → ((disk : Disk) → P disk → Q a disk)
    → Ensures P (pure a) Q
Ensures-pure a h = record { at = λ w p. h w.disk p }

pub Ensures-raise :
    {A : Type 0} {P : Disk → Type 0} {Q : A → Disk → Type 0} (e : Thrown) → Ensures P (raise e) Q
Ensures-raise e = record { at = λ w p. tt }

continue-Post :
    {A B : Type 0} {P : A → Disk → Type 0} {Q : B → Disk → Type 0} (f : A → Exec RunWorld B)
    (r : Result Thrown A × RunWorld)
    → Post P r
    → ((a : A) → Ensures (P a) (f a) Q)
    → Post Q (continue f r.0 r.1)
continue-Post f (ok a, w) p h = (h a).at w p
continue-Post f (err e, w) p h = tt

pub Ensures-bind :
    {A B : Type 0} {P : Disk → Type 0} {R : A → Disk → Type 0} {Q : B → Disk → Type 0}
    (m : Exec RunWorld A) (f : A → Exec RunWorld B)
    → Ensures P m R
    → ((a : A) → Ensures (R a) (f a) Q)
    → Ensures P (m >>= f) Q
Ensures-bind m f hm hf = record { at = λ w p. continue-Post f (m w) (hm.at w p) hf }

-- an action of which nothing is asked
pub Ensures-any :
    {A : Type 0} {P : Disk → Type 0} (m : Exec RunWorld A) → Ensures P m (λ a disk. Unit)
Ensures-any m = record { at = λ w p. anything (m w) }
  where
    anything : {A : Type 0} (r : Result Thrown A × RunWorld) → Post (λ (a : A) disk. Unit) r
    anything (ok a, w) = tt
    anything (err e, w) = tt

pub Ensures-skip :
    {A B : Type 0} {P : Disk → Type 0} {Q : B → Disk → Type 0} (m : Exec RunWorld A)
    (f : A → Exec RunWorld B)
    → ((a : A) → Ensures Any (f a) Q)
    → Ensures P (m >>= f) Q
Ensures-skip m f h = Ensures-bind m f (Ensures-any m) h

handled-Post :
    {A : Type 0} {Q : A → Disk → Type 0} (f : Thrown → Exec RunWorld A)
    (r : Result Thrown A × RunWorld)
    → Post Q r
    → ((e : Thrown) → Ensures Any (f e) Q)
    → Post Q (handled f r.0 r.1)
handled-Post f (ok a, w) p h = p
handled-Post f (err e, w) p h = (h e).at w tt

pub Ensures-catch :
    {A : Type 0} {P : Disk → Type 0} {Q : A → Disk → Type 0} (m : Exec RunWorld A)
    (f : Thrown → Exec RunWorld A)
    → Ensures P m Q
    → ((e : Thrown) → Ensures Any (f e) Q)
    → Ensures P (catch m f) Q
Ensures-catch m f hm hf = record { at = λ w p. handled-Post f (m w) (hm.at w p) hf }

pub Ensures-if :
    {A : Type 0} {P : Disk → Type 0} {Q : A → Disk → Type 0} (b : Bool) (m n : Exec RunWorld A)
    → (b ≡ true → Ensures P m Q)
    → (b ≡ false → Ensures P n Q)
    → Ensures P (if b then m else n) Q
Ensures-if true m n hm hn = hm refl
Ensures-if false m n hm hn = hn refl

pub Ensures-weaken :
    {A : Type 0} {P : Disk → Type 0} {Q : A → Disk → Type 0} {m : Exec RunWorld A}
    → Ensures Any m Q
    → Ensures P m Q
Ensures-weaken h = record { at = λ w p. h.at w tt }

pub Ensures-lift :
    {A B : Type 0} {P : Disk → Type 0} {Q : B → Disk → Type 0} (r : Result Thrown A)
    (f : A → Exec RunWorld B)
    → ((a : A) → r ≡ ok a → Ensures P (f a) Q)
    → Ensures P (lift r >>= f) Q
Ensures-lift (ok a) f h = h a refl
Ensures-lift (err e) f h = Ensures-raise e

module _ (env : Environment) where
  -- what the file reads as
  abbrev pub Reads : Disk → RunState → Type 0
  Reads disk s = read_workflow_run_state env.codec disk ≡ ok s

  pub Ensures-read :
      {P : Disk → Type 0} → Ensures P (read_current_run_state env) (λ s disk. P disk × Reads disk s)
  unfolding read_current_run_state
  Ensures-read {P} = record {
    at = λ w p. elim (Result-cases (read_workflow_run_state env.codec w.disk)) [
      | inl (s, r) ↦ rw (r, from_store) (p, r)
      | inr (x, r) ↦ rw (r, from_store) tt
    ];
  }

  pub Ensures-audit :
      {P : Disk → Type 0} (e : AuditEvent) → Ensures P (write_audit_event env e) (λ t disk. P disk)
  unfolding write_audit_event
  Ensures-audit e = record {
    at = λ w p. elim (Result-cases (env.write_audit e w.audit)) [
      | inl (audit, r) ↦ rw (r, logged) p
      | inr (x, r) ↦ rw (r, logged) tt
    ];
  }

  pub Ensures-append :
      {P : Disk → Type 0} (e : Event)
      → ((disk disk' : Disk) → append_workflow_run_event env.codec e disk ≡ ok disk' → P disk')
      → Ensures Any (append_run_event env e) (λ t disk. P disk)
  unfolding append_run_event
  Ensures-append e h = record {
    at = λ w p. elim (Result-cases (append_workflow_run_event env.codec e w.disk)) [
      | inl (disk, r) ↦ rw (r, written) (h w.disk disk r)
      | inr (x, r) ↦ rw (r, written) tt
    ];
  }
