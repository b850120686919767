-- ===== src/Intake/Laws.antt =====
-- src/webhook-intake.ts: a request that comes again once its run is over.
use ensen_flow.Common.{
  ℕ, String, ◌≡◌, refl, inl, inr, Option, none, some, ◌==◌, eq_iff, Result, ok, err, >>=-eq-ok,
  require-eq, arith,
}
use ensen_flow.Hygiene.{Runtime}
use ensen_flow.RunState.{RunState, TerminalState}
use ensen_flow.RunState.Store.{Disk, read_workflow_run_state}
use ensen_flow.Runner.Exec.{Thrown, Exec, lift, ◌>>=◌}
use ensen_flow.Runner.Environment.{RunWorld, Environment}
use ensen_flow.Runner.Start.{Texts}
use ensen_flow.Runner.Workflow.{wait, read_existing_run_state, run_workflow}
use ensen_flow.Runner.Workflow.Laws.{run_workflow-over}
use ensen_flow.Intake.{WebRuntime, WebhookInput, normalize_webhook_input}
use ensen_flow.Intake.Fingerprint.{create_webhook_input_fingerprint, existing_fingerprint}
use ensen_flow.Intake.Consume.{
  ConsumeOptions, rejected, path_of, same_fingerprint, assert_webhook_input_matches_state, guard_of,
  check_existing, webhook_run_input, reject_reserved_additional_trigger_context_keys,
  consume_normalized, consume_webhook_input,
}

module _ (js : WebRuntime) (options : ConsumeOptions) where
  -- The call changes nothing: it throws, or its input is the one the run was made of, and it returns
  -- the run.
  pub data Replays (s : RunState) (w : RunWorld) (r : Result Thrown RunState × RunWorld)
      : Type 0 where
    throws : (e : Thrown) → r ≡ (err e, w) → Replays s w r
    returns :
        (path : String) (input : WebhookInput)
        → path_of options.definition.trigger.type ≡ ok path
        → normalize_webhook_input js options.input path ≡ ok input
        → existing_fingerprint js s ≡ some (create_webhook_input_fingerprint js input)
        → r ≡ (ok s, w)
        → Replays s w r

  Replays-lift :
      {A : Type 0} (s : RunState) (w : RunWorld) (r : Result Thrown A)
      (f : A → Exec RunWorld RunState)
      → ((a : A) → r ≡ ok a → Replays s w (f a w))
      → Replays s w ((lift r >>= f) w)
  Replays-lift s w (ok a) f h = h a refl
  Replays-lift s w (err e) f h = throws e refl

  rejected-eq-ok : {A : Type 0} (r : Result String A) {a : A} → rejected r ≡ ok a → r ≡ ok a
  rejected-eq-ok (ok a) h = cc
  rejected-eq-ok (err message) h = cc

  same_fingerprint-eq :
      (o : Option String) (fingerprint : String)
      → same_fingerprint o fingerprint ≡ ok tt
      → o ≡ some fingerprint
  same_fingerprint-eq none fingerprint h = cc
  same_fingerprint-eq (some existing) fingerprint h =
      ground (arith, require-eq (existing == fingerprint) _ h, eq_iff existing fingerprint)

  module _ (hygiene : Runtime) (env : Environment) (texts : Texts) (others : ℕ → Disk → Disk) where
    guard_of-eq-ok :
        (fingerprint : String) (s : RunState)
        → guard_of js hygiene options fingerprint s ≡ ok tt
        → existing_fingerprint js s ≡ some fingerprint
    unfolding assert_webhook_input_matches_state
    guard_of-eq-ok fingerprint s h =
        let (t, first, rest) =
          >>=-eq-ok (rejected (same_fingerprint (existing_fingerprint js s) fingerprint)) _ h in
        same_fingerprint-eq (existing_fingerprint js s) fingerprint (rejected-eq-ok _ first)

    -- the call of `runWorkflow`
    run-Replays :
        (path : String) (input : WebhookInput) (w : RunWorld) (s : RunState) (t : TerminalState)
        → path_of options.definition.trigger.type ≡ ok path
        → normalize_webhook_input js options.input path ≡ ok input
        → existing_fingerprint js s ≡ some (create_webhook_input_fingerprint js input)
        → read_workflow_run_state env.codec w.disk ≡ ok s
        → s.run.terminal_state ≡ some t
        → Replays s w (
            run_workflow env texts others
              (webhook_run_input js hygiene options input
                (create_webhook_input_fingerprint js input))
              w)
    run-Replays path input w s t has_path has_input same reads over =
        elim (run_workflow-over env texts others
          (webhook_run_input js hygiene options input (create_webhook_input_fingerprint js input)) w
          s t reads over) [
            | inl (e, p) ↦ throws e p
            | inr p ↦ returns path input has_path has_input same p
          ]

    consume_normalized-Replays :
        (path : String) (input : WebhookInput) (w : RunWorld) (s : RunState) (t : TerminalState)
        → path_of options.definition.trigger.type ≡ ok path
        → normalize_webhook_input js options.input path ≡ ok input
        → others 5 w.disk ≡ w.disk
        → read_workflow_run_state env.codec w.disk ≡ ok s
        → s.run.terminal_state ≡ some t
        → Replays s w (consume_normalized js hygiene env texts others options input w)
    unfolding consume_normalized read_existing_run_state wait check_existing
    consume_normalized-Replays path input w s t has_path has_input alone reads over =
        let fingerprint = create_webhook_input_fingerprint js input in
        rw reads (
          Replays-lift s w (check_existing js hygiene options input fingerprint (some s)) _
            (λ t1 checked.
              Replays-lift s w
                (rejected (
                  reject_reserved_additional_trigger_context_keys
                    options.additional_trigger_context))
                _
                (λ t2 free. rw alone (
                  run-Replays path input w s t has_path has_input
                    (guard_of-eq-ok fingerprint s checked) reads over))))

    -- Where the file of a request's run reads as a run that is over, and other processes leave it:
    -- consuming an input throws, or the input is a valid one with the fingerprint that the run keeps
    -- and the call returns this run; nothing is changed in either case.
    pub consume_webhook_input-Replays :
        (w : RunWorld) (s : RunState) (t : TerminalState)
        → others 5 w.disk ≡ w.disk
        → read_workflow_run_state env.codec w.disk ≡ ok s
        → s.run.terminal_state ≡ some t
        → Replays s w (consume_webhook_input js hygiene env texts others options w)
    unfolding consume_webhook_input
    consume_webhook_input-Replays w s t alone reads over =
        Replays-lift s w (rejected (path_of options.definition.trigger.type)) _ (λ path has_path.
          Replays-lift s w (rejected (normalize_webhook_input js options.input path)) _
            (λ input has_input.
              consume_normalized-Replays path input w s t (rejected-eq-ok _ has_path)
                (rejected-eq-ok _ has_input) alone reads over))
