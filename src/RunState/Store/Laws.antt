-- ===== src/RunState/Store/Laws.antt =====
-- src/workflow-run-state.ts: what an append does to the file, and what is read afterwards.
use ensen_flow.Common.{
  ℕ, ◌+◌, String, true, ◌≡◌, refl, inl, inr, sym, none, some, List, [], ◌∷◌, ◌++◌, arith, length,
  Result-cases, ok, err, ◌==◌, eq_iff, subst,
}
use ensen_flow.RunState.{RunState, Event, run_id_of}
use ensen_flow.RunState.Project.{Projection, project_event, project_workflow_run_events}
use ensen_flow.RunState.Project.Extension.{
  projection_of, extended, events-project, project-concat, project-concat_inv,
}
use ensen_flow.RunState.Project.Accepted.{
  project_event-Accepted, Accepted-run_id, Accepted-open_run,
}
use ensen_flow.RunState.Store.{
  not_found, Codec, Disk, parse_lines, read_workflow_run_state, append_line,
  append_workflow_run_event,
}

module _ (codec : Codec) where
  parse_lines-concat :
      (line : ℕ) (ls : List String) (l : String) (es : List Event) (e : Event)
      → parse_lines codec line ls ≡ ok es
      → ((n : ℕ) → codec.parse n l ≡ ok e)
      → parse_lines codec line (ls ++ l ∷ []) ≡ ok (es ++ e ∷ [])
  unfolding parse_lines
  parse_lines-concat line [] l es e h k =
      let same : [] ≡ es = ground arith in rw (← same) (rw (k line) refl)
  parse_lines-concat line (x ∷ ls) l es e h k = elim (Result-cases (codec.parse line x)) [
    | inr (_, r) ↦ absurd (ground arith)
    | inl (y, r) ↦ elim (Result-cases (parse_lines codec (line + 1) ls)) [
      | inr (_, r') ↦ absurd (ground arith)
      | inl (ys, r') ↦
          let same : y ∷ ys ≡ es = ground arith in
          rw (← same) (rw r (rw (parse_lines-concat (line + 1) ls l ys e r' k) refl))
    ]
  ]

  -- What a file that reads has passed.
  pub read-eq-ok :
      (ls : List String) (s : RunState)
      → read_workflow_run_state codec (some ls) ≡ ok s
      → (parse_lines codec 1 ls ≡ ok s.events) × (project_workflow_run_events s.events ≡ ok s)
  unfolding read_workflow_run_state
  read-eq-ok ls s h = elim (Result-cases (parse_lines codec 1 ls)) [
    | inr (x, r) ↦ absurd (ground arith)
    | inl (es, r) ↦ elim (Result-cases (project_workflow_run_events es)) [
      | inr (x, r') ↦ absurd (ground arith)
      | inl (t, r') ↦
          let same : t ≡ s = ground arith in
          let proj = rw same at r' in
          let ev = events-project es s proj in
          (rw ev r, subst (λ x. project_workflow_run_events x ≡ ok s) (sym ev) proj)
    ]
  ]

  -- What an accepted append has found and leaves: the lines that were there, then one line more.
  pub record Appended (e : Event) (disk disk' : Disk) : Type 0 where
    pub lines : List String
    pub before : disk ≡ some lines
    pub after : disk' ≡ some (lines ++ codec.stringify e ∷ [])
    pub state : RunState
    pub read_before : read_workflow_run_state codec disk ≡ ok state
    pub open_run : state.run.terminal_state ≡ none
    pub next : Projection
    pub step : project_event (length state.events + 1) (projection_of state) e ≡ ok next
    pub read_after : read_workflow_run_state codec disk' ≡ ok (extended state (e ∷ []) next)

  read_none : read_workflow_run_state codec none ≡ err not_found
  unfolding read_workflow_run_state
  read_none = refl

  validated :
      (e : Event) (disk disk' : Disk)
      → append_workflow_run_event codec e disk ≡ ok disk'
      → codec.validate 1 e ≡ ok tt
  unfolding append_workflow_run_event
  validated e disk disk' h = elim (Result-cases (codec.validate 1 e)) [
    | inr (x, r) ↦ absurd (ground arith)
    | inl (u, r) ↦ r
  ]

  read-concat :
      (ls : List String) (e : Event) (s : RunState) (q : Projection)
      → parse_lines codec 1 ls ≡ ok s.events
      → codec.validate 1 e ≡ ok tt
      → project_workflow_run_events (s.events ++ e ∷ []) ≡ ok (extended s (e ∷ []) q)
      → read_workflow_run_state codec (some (ls ++ codec.stringify e ∷ []))
        ≡ ok (extended s (e ∷ []) q)
  unfolding read_workflow_run_state
  read-concat ls e s q lines valid proj =
      rw
        (parse_lines-concat 1 ls (codec.stringify e) s.events e lines
          (λ n. codec.parse-stringify 1 n e valid))
        (rw proj refl)

  -- An append that returns has found a file that reads as a run that is not over, adds one line at
  -- its end, and leaves a file that reads as that run after one more record.
  pub append-Appended :
      (e : Event) (disk disk' : Disk)
      → append_workflow_run_event codec e disk ≡ ok disk'
      → Appended e disk disk'
  unfolding append_workflow_run_event append_line
  append-Appended e none disk' h = absurd (ground (arith, read_none))
  append-Appended e (some ls) disk' h =
      elim (Result-cases (read_workflow_run_state codec (some ls))) [
        | inr (x, r) ↦ absurd (ground arith)
        | inl (s, r) ↦ elim (Result-cases (project_workflow_run_events (s.events ++ e ∷ []))) [
          | inr (x, r') ↦ absurd (ground arith)
          | inl (t, r') ↦
              let (lines, proj) = read-eq-ok ls s r in
              let (q, stepped, same) = project-concat_inv s.events e s t proj r' in
              record {
                lines = ls;
                before = refl;
                after = ground arith;
                state = s;
                read_before = r;
                open_run = ground arith;
                next = q;
                step = stepped;
                read_after =
                    let written : disk' ≡ some (ls ++ codec.stringify e ∷ []) = ground arith in
                    rw written (
                      read-concat ls e s q lines (validated e (some ls) disk' h)
                        (project-concat s.events e s q proj stepped));
              }
        ]
      ]

  -- An append is accepted whenever the record is valid and fits the run that the file reads as.
  pub append-eq-ok :
      (e : Event) (ls : List String) (s : RunState) (q : Projection)
      → codec.validate 1 e ≡ ok tt
      → read_workflow_run_state codec (some ls) ≡ ok s
      → project_event (length s.events + 1) (projection_of s) e ≡ ok q
      → append_workflow_run_event codec e (some ls) ≡ ok (some (ls ++ codec.stringify e ∷ []))
  unfolding append_workflow_run_event append_line
  append-eq-ok e ls s q valid reads stepped =
      let (lines, proj) = read-eq-ok ls s reads in
      let accepted = project_event-Accepted (length s.events + 1) (projection_of s) q e stepped in
      let ids : (s.run.run_id == run_id_of e) ≡ true =
        (eq_iff s.run.run_id (run_id_of e)).1 (sym (Accepted-run_id accepted)) in
      ground (arith, ids, Accepted-open_run accepted, project-concat s.events e s q proj stepped)

  -- and the file then reads as the run after that record.
  pub read-append :
      (e : Event) (ls : List String) (s : RunState) (q : Projection)
      → codec.validate 1 e ≡ ok tt
      → read_workflow_run_state codec (some ls) ≡ ok s
      → project_event (length s.events + 1) (projection_of s) e ≡ ok q
      → read_workflow_run_state codec (some (ls ++ codec.stringify e ∷ []))
        ≡ ok (extended s (e ∷ []) q)
  read-append e ls s q valid reads stepped =
      let (lines, proj) = read-eq-ok ls s reads in
      read-concat ls e s q lines valid (project-concat s.events e s q proj stepped)
