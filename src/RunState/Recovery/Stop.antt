-- ===== src/RunState/Recovery/Stop.antt =====
-- src/workflow-run-state.ts: what `stopWorkflowRunRecovery` does to the file and returns.
use ensen_flow.Common.{
  ℕ, ◌+◌, String, false, ◌≡◌, refl, ◌≢◌, inl, inr, ◌∙◌, sym, ap, none, some, List, [], ◌∷◌, ◌++◌,
  arith, length, Bool-cases, Option-cases, Result-cases, ok, err, ◌==◌, eq_iff,
}
use ensen_flow.RunState.{TerminalState, RunStatus, RunState}
use ensen_flow.RunState.Project.{Projection, project_event}
use ensen_flow.RunState.Project.Extension.{projection_of, extended}
use ensen_flow.RunState.Store.{
  StoreError, Codec, Disk, read_workflow_run_state, append_workflow_run_event,
}
use ensen_flow.RunState.Store.Laws.{append-Appended, append-eq-ok, read-append}
use ensen_flow.RunState.Recovery.{
  StopInput, stop_event, inspect_state, inspect_read, inspect_workflow_run_recovery, stop_run,
  stop_with, stop_workflow_run_recovery,
}
use ensen_flow.RunState.Report.{Classification, Report, summarize_recovery_run}

-- the run after the record that a stop writes
abbrev pub canceled : StopInput → RunState → Projection
canceled input s = record {
  run = record s.run {
    updated_at = input.stopped_at;
    status = RunStatus.ended TerminalState.canceled;
    terminal_state = some TerminalState.canceled;
  };
  step_attempts = s.step_attempts;
}

project_event-stop :
    (line : ℕ) (input : StopInput) (s : RunState)
    → s.run.run_id ≡ input.run_id
    → s.run.terminal_state ≡ none
    → project_event line (projection_of s) (stop_event input) ≡ ok (canceled input s)
unfolding project_event
project_event-stop line input s e n = rw n (rw ((eq_iff input.run_id s.run.run_id).1 (sym e)) refl)

-- The report of a state that was read: it carries the run, it never is `corrupt`, and it is
-- `terminal` for a canceled run.
inspect_state-run : (s : RunState) → (inspect_state s).run ≡ some (summarize_recovery_run s.run)
unfolding inspect_state
inspect_state-run s = ground arith

inspect_state-ne-corrupt :
    (s : RunState) → (inspect_state s).classification ≢ Classification.corrupt
unfolding inspect_state
inspect_state-ne-corrupt s = ground arith

inspect_state-open :
    (s : RunState)
    → s.run.terminal_state ≡ none
    → (inspect_state s).classification ≢ Classification.terminal
unfolding inspect_state
inspect_state-open s = ground arith

inspect_state-canceled :
    (s : RunState)
    → s.run.terminal_state ≡ some TerminalState.canceled
    → (inspect_state s).classification ≡ Classification.terminal
unfolding inspect_state
inspect_state-canceled s = ground arith

module _ (codec : Codec) where
  -- A stop of a run that is over changes nothing and returns the report.
  pub stop-ended :
      (input : StopInput) (disk : Disk) (s : RunState) (t : TerminalState)
      → read_workflow_run_state codec disk ≡ ok s
      → s.run.run_id ≡ input.run_id
      → s.run.terminal_state ≡ some t
      → stop_workflow_run_recovery codec input disk ≡ ok (inspect_state s, disk)
  unfolding stop_workflow_run_recovery stop_with summarize_recovery_run
      inspect_workflow_run_recovery inspect_read
  stop-ended input disk s t r e n = ground (
    arith,
    inspect_state-run s,
    inspect_state-ne-corrupt s,
    (eq_iff s.run.run_id input.run_id).1 e,
  )

  stop_run-open :
      (input : StopInput) (ls : List String) (s s' : RunState) {disk' : Disk}
      → read_workflow_run_state codec (some ls) ≡ ok s
      → s.run.run_id ≡ input.run_id
      → s.run.terminal_state ≡ none
      → append_workflow_run_event codec (stop_event input) (some ls) ≡ ok disk'
      → read_workflow_run_state codec disk' ≡ ok s'
      → stop_workflow_run_recovery codec input (some ls) ≡ ok (inspect_state s', disk')
  unfolding stop_workflow_run_recovery stop_with stop_run summarize_recovery_run
      inspect_workflow_run_recovery inspect_read
  stop_run-open input ls s s' r e n a r' = ground (
    arith,
    inspect_state-run s,
    inspect_state-ne-corrupt s,
    inspect_state-open s n,
    (eq_iff s.run.run_id input.run_id).1 e,
  )

  -- A stop of a run that is not over adds the canceling record as the last line and reports the run
  -- as terminal; the file then reads as the same run, canceled, with its history before that record.
  pub stop-open :
      (input : StopInput) (ls : List String) (s : RunState)
      → codec.validate 1 (stop_event input) ≡ ok tt
      → read_workflow_run_state codec (some ls) ≡ ok s
      → s.run.run_id ≡ input.run_id
      → s.run.terminal_state ≡ none
      → (report : Report) × (stop_workflow_run_recovery codec input (some ls)
          ≡ ok (report, some (ls ++ codec.stringify (stop_event input) ∷ [])))
        × (report.classification ≡ Classification.terminal)
        × (read_workflow_run_state codec (some (ls ++ codec.stringify (stop_event input) ∷ []))
            ≡ ok (extended s (stop_event input ∷ []) (canceled input s)))
  stop-open input ls s valid r e n =
      let stepped = project_event-stop (length s.events + 1) input s e n in
      let appended =
        append-eq-ok codec (stop_event input) ls s (canceled input s) valid r stepped in
      let after = read-append codec (stop_event input) ls s (canceled input s) valid r stepped in
      let s' = extended s (stop_event input ∷ []) (canceled input s) in
      (
        inspect_state s',
        stop_run-open input ls s s' r e n appended after,
        inspect_state-canceled s' refl,
        after,
      )

  stop-unreadable :
      (input : StopInput) (disk : Disk) (x : StoreError) (out : Report × Disk)
      → read_workflow_run_state codec disk ≡ err x
      → stop_workflow_run_recovery codec input disk ≢ ok out
  unfolding stop_workflow_run_recovery stop_with inspect_workflow_run_recovery inspect_read
  stop-unreadable input disk x out r h = ground arith

  stop-other_run :
      (input : StopInput) (disk : Disk) (s : RunState) (out : Report × Disk)
      → read_workflow_run_state codec disk ≡ ok s
      → (s.run.run_id == input.run_id) ≡ false
      → stop_workflow_run_recovery codec input disk ≢ ok out
  unfolding stop_workflow_run_recovery stop_with inspect_workflow_run_recovery inspect_read
      summarize_recovery_run
  stop-other_run input disk s out r e h =
      ground (arith, inspect_state-run s, inspect_state-ne-corrupt s)

  stop-append_fails :
      (input : StopInput) (disk : Disk) (s : RunState) (x : StoreError) (out : Report × Disk)
      → read_workflow_run_state codec disk ≡ ok s
      → s.run.terminal_state ≡ none
      → append_workflow_run_event codec (stop_event input) disk ≡ err x
      → stop_workflow_run_recovery codec input disk ≢ ok out
  unfolding stop_workflow_run_recovery stop_with stop_run inspect_workflow_run_recovery inspect_read
      summarize_recovery_run
  stop-append_fails input disk s x out r n a h =
      ground (arith, inspect_state-run s, inspect_state-ne-corrupt s, inspect_state-open s n)

  -- What a stop that returns leaves.
  pub record Stopped (input : StopInput) (disk : Disk) (report : Report) (disk' : Disk)
      : Type 0 where
    pub state : RunState
    pub outcome : TerminalState
    pub read_after : read_workflow_run_state codec disk' ≡ ok state
    pub run_id : state.run.run_id ≡ input.run_id
    pub is_over : state.run.terminal_state ≡ some outcome
    pub reported : report ≡ inspect_state state

  stop-Stopped_open :
      (input : StopInput) (disk disk' disk'' : Disk) (s : RunState) (report : Report)
      → read_workflow_run_state codec disk ≡ ok s
      → s.run.run_id ≡ input.run_id
      → s.run.terminal_state ≡ none
      → append_workflow_run_event codec (stop_event input) disk ≡ ok disk''
      → stop_workflow_run_recovery codec input disk ≡ ok (report, disk')
      → Stopped input disk report disk'
  stop-Stopped_open input disk disk' disk'' s report r e n a h =
      let w = append-Appended codec (stop_event input) disk disk'' a in
      let found : w.state ≡ s = cc (w.read_before, r) in
      let n' : w.state.run.terminal_state ≡ none = w.open_run in
      let e' : w.state.run.run_id ≡ input.run_id = ap (λ (x : RunState). x.run.run_id) found ∙ e in
      let stepped = project_event-stop (length w.state.events + 1) input w.state e' n' in
      let same : w.next ≡ canceled input w.state = cc (w.step, stepped) in
      let s' = extended w.state (stop_event input ∷ []) w.next in
      let returned =
        stop_run-open input w.lines w.state s' {disk' = disk''} (rw (← w.before) w.read_before) e'
          n' (rw (← w.before) a) w.read_after in
      let out : report ≡ inspect_state s' = cc (returned, h, w.before) in
      let left : disk' ≡ disk'' = cc (returned, h, w.before) in
      record {
        state = s';
        outcome = TerminalState.canceled;
        read_after = rw left w.read_after;
        run_id = ap (λ (x : Projection). x.run.run_id) same ∙ e';
        is_over = ap (λ (x : Projection). x.run.terminal_state) same;
        reported = out;
      }

  -- A stop that returns leaves a file that reads as a run of the id that was given, over, and its
  -- report is that of an inspection of this run.
  pub stop-Stopped :
      (input : StopInput) (disk disk' : Disk) (report : Report)
      → stop_workflow_run_recovery codec input disk ≡ ok (report, disk')
      → Stopped input disk report disk'
  stop-Stopped input disk disk' report h =
      elim (Result-cases (read_workflow_run_state codec disk)) [
        | inr (x, r) ↦ absurd (stop-unreadable input disk x (report, disk') r h)
        | inl (s, r) ↦ elim (Bool-cases (s.run.run_id == input.run_id)) [
          | inr e ↦ absurd (stop-other_run input disk s (report, disk') r e h)
          | inl e ↦
              let same_run = (eq_iff s.run.run_id input.run_id).0 e in
              elim (Option-cases s.run.terminal_state) [
                | inr (t, n) ↦
                    let returned = stop-ended input disk s t r same_run n in
                    let left : disk' ≡ disk = cc (returned, h) in
                    record {
                      state = s;
                      outcome = t;
                      read_after = rw left r;
                      run_id = same_run;
                      is_over = n;
                      reported = cc (returned, h);
                    }
                | inl n ↦
                    elim (Result-cases (append_workflow_run_event codec (stop_event input) disk)) [
                      | inr (x, a) ↦
                          absurd (stop-append_fails input disk s x (report, disk') r n a h)
                      | inl (disk'', a) ↦
                          stop-Stopped_open input disk disk' disk'' s report r same_run n a h
                    ]
              ]
        ]
      ]

  -- What a stop that returns leaves, a second stop finds: it returns the same and changes nothing.
  pub stop-stop :
      (input : StopInput) (disk disk' : Disk) (report : Report)
      → stop_workflow_run_recovery codec input disk ≡ ok (report, disk')
      → stop_workflow_run_recovery codec input disk' ≡ ok (report, disk')
  stop-stop input disk disk' report h =
      let w = stop-Stopped input disk disk' report h in
      rw w.reported (stop-ended input disk' w.state w.outcome w.read_after w.run_id w.is_over)
