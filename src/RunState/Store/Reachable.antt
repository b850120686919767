-- ===== src/RunState/Store/Reachable.antt =====
-- src/workflow-run-state.ts: the files that `createWorkflowRun` and `appendWorkflowRunEvent` leave,
-- in any order of calls.
use ensen_flow.Common.{
  String, ◌≡◌, refl, inl, inr, ◌∙◌, sym, ap, none, some, List, [], ◌∷◌, ◌++◌, arith, Result-cases,
  ok, append_assoc, append-nil,
}
use ensen_flow.RunState.{RunState, CreatedEvent, Event, run_created}
use ensen_flow.RunState.Project.{project_workflow_run_events, project_events, initial_projection}
use ensen_flow.RunState.Project.Invariant.{
  projected_state, IsWellFormed, project_workflow_run_events-IsWellFormed,
}
use ensen_flow.RunState.Store.{
  Codec, Disk, parse_lines, read_workflow_run_state, create_workflow_run, append_workflow_run_event,
}
use ensen_flow.RunState.Store.Laws.{read-eq-ok, append-Appended}

module _ (codec : Codec) where
  -- A call that returns. One that throws leaves the file as it was.
  pub data Write (disk disk' : Disk) : Type 0 where
    create : (e : CreatedEvent) → create_workflow_run codec e disk ≡ ok disk' → Write disk disk'
    append : (e : Event) → append_workflow_run_event codec e disk ≡ ok disk' → Write disk disk'

  pub data Writes (disk : Disk) : Disk → Type 0 where
    here : Writes disk disk
    next : {d d' : Disk} → Writes disk d → Write d d' → Writes disk d'

  -- no file, or one that reads as a well-formed run
  pub data IsReadable : Disk → Type 0 where
    absent : IsReadable none
    reads :
        {ls : List String} (s : RunState)
        → read_workflow_run_state codec (some ls) ≡ ok s
        → IsWellFormed s
        → IsReadable (some ls)

  -- A creation that returns found no file, and left one line that reads as the run just created.
  pub create-reads :
      (e : CreatedEvent) (disk disk' : Disk)
      → create_workflow_run codec e disk ≡ ok disk'
      → (disk ≡ none)
        × (disk' ≡ some (codec.stringify (run_created e) ∷ []))
        × (read_workflow_run_state codec disk' ≡ ok (projected_state e [] (initial_projection e)))
  unfolding create_workflow_run read_workflow_run_state parse_lines project_workflow_run_events
      project_events
  create-reads e disk disk' h = elim (Result-cases (codec.validate 1 (run_created e))) [
    | inr (x, r) ↦ absurd (ground arith)
    | inl (u, r) ↦
        let parsed = codec.parse-stringify 1 1 (run_created e) r in
        let written : disk' ≡ some (codec.stringify (run_created e) ∷ []) = ground arith in
        (ground arith, written, rw written (rw parsed refl))
  ]

  IsReadable-of :
      (disk : Disk) (s : RunState) → read_workflow_run_state codec disk ≡ ok s → IsReadable disk
  unfolding read_workflow_run_state
  IsReadable-of none s h = cc
  IsReadable-of (some ls) s h =
      reads s h (project_workflow_run_events-IsWellFormed s.events s (read-eq-ok codec ls s h).1)

  -- Whatever calls were made, the file reads as a well-formed run, once it is there.
  pub Writes-IsReadable : {disk : Disk} → Writes none disk → IsReadable disk
  Writes-IsReadable here = absent
  Writes-IsReadable (next {d} {d'} w (create e h)) =
      let (_, _, r) = create-reads e d d' h in
      IsReadable-of d' (projected_state e [] (initial_projection e)) r
  Writes-IsReadable (next {d} {d'} w (append e h)) =
      IsReadable-of d' _ (append-Appended codec e d d' h).read_after

  -- the lines of a file, none if it is not there
  abbrev pub lines_of : Disk → List String
  lines_of none = []
  lines_of (some ls) = ls

  -- A call that returns adds one line at the end.
  Write-lines :
      {disk disk' : Disk}
      → Write disk disk'
      → (line : String) × (lines_of disk' ≡ lines_of disk ++ line ∷ [])
  Write-lines {disk} {disk'} (create e h) =
      let (none_before, after, _) = create-reads e disk disk' h in
      (codec.stringify (run_created e), rw after (rw none_before refl))
  Write-lines {disk} {disk'} (append e h) =
      let a = append-Appended codec e disk disk' h in
      (codec.stringify e, rw a.after (rw a.before refl))

  -- The history of a file is kept: what it held stays, as its beginning.
  pub Writes-lines :
      {disk disk' : Disk}
      → Writes disk disk'
      → (more : List String) × (lines_of disk' ≡ lines_of disk ++ more)
  Writes-lines {disk} here = ([], sym (append-nil (lines_of disk)))
  Writes-lines {disk} (next {d} {d'} w call) =
      let (more, same) = Writes-lines w in
      let (line, added) = Write-lines call in
      (
        more ++ line ∷ [],
        added ∙ ap (λ ls. ls ++ line ∷ []) same ∙ append_assoc (lines_of disk) more (line ∷ []),
      )
