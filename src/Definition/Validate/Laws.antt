-- ===== src/Definition/Validate/Laws.antt =====
-- src/workflow-definition.ts: what a definition that `validateWorkflowDefinition` accepts holds.
use ensen_flow.Common.{
  All-map, ℕ, suc, String, true, ◌≡◌, ◌≢◌, inl, inr, some, List, [], ◌∷◌, arith, map, All,
  Option-cases, is_some,
}
use ensen_flow.Value.{Value, record_of, array_of, get, is_text, one_of}
use ensen_flow.Definition.Errors.{key, must_be_stable_id, must_be_literal}
use ensen_flow.Definition.Fields.{stable_id_of}
use ensen_flow.Definition.Validate.{
  step_errors, validate_steps, validate_workflow_definition, workflow_fields, validate_step_list,
}
use ensen_flow.Definition.Validate.Fits.{
  append-eq-nil, unless-nil, id_of, Distinct, KnownDependency, StepFits, validate_step-StepFits,
}
use ensen_flow.Definition.Validate.Ids.{validate_step_ids-Collected}

id_of-named :
    (steps : List Value) (names : List String)
    → map id_of steps ≡ map some names
    → All (λ step. is_some (id_of step) ≡ true) steps
id_of-named [] names h = tt
id_of-named (step ∷ steps) [] h = absurd (cc)
id_of-named (step ∷ steps) (n ∷ ns) h = (ground arith, id_of-named steps ns (cc))

step_errors-StepFits :
    (names : List String) (i : ℕ) (steps : List Value)
    → All (λ step. is_some (id_of step) ≡ true) steps
    → step_errors names i steps ≡ []
    → All (StepFits names) steps
unfolding step_errors
step_errors-StepFits names i [] stable h = tt
step_errors-StepFits names i (step ∷ steps) stable h =
    let (first, others) = append-eq-nil _ _ h in
    (
      validate_step-StepFits names i step stable.0 first,
      step_errors-StepFits names (suc i) steps stable.1 others,
    )

-- the steps of a valid definition: the names are their ids, in their order
pub record StepsFit (steps : List Value) : Type 0 where
  pub some_step : steps ≢ []
  pub names : List String
  pub named : map id_of steps ≡ map some names
  pub distinct : Distinct names
  pub fit : All (StepFits names) steps

KnownDependency-covered :
    {ids names : List String} {step : Value} {d : Value}
    → ((s : String) → one_of ids s ≡ true → one_of names s ≡ true)
    → KnownDependency ids step d
    → KnownDependency names step d
KnownDependency-covered c k = record {
  name = k.name;
  named = k.named;
  known = c k.name k.known;
  not_itself = k.not_itself;
}

StepFits-covered :
    {ids names : List String} (step : Value)
    → ((s : String) → one_of ids s ≡ true → one_of names s ≡ true)
    → StepFits ids step
    → StepFits names step
StepFits-covered {ids} {names} step c f = record {
  fields = f.fields;
  is_record = f.is_record;
  depends = elim f.depends [
    | inl absent ↦ inl absent
    | inr (ds, there, known) ↦ inr (ds, there, All-map ds (λ d. KnownDependency-covered c) known)
  ];
  retries = f.retries;
}

validate_step_list-StepsFit : (steps : List Value) → validate_step_list steps ≡ [] → StepsFit steps
unfolding validate_step_list
validate_step_list-StepsFit [] h = absurd (cc)
validate_step_list-StepsFit (step ∷ steps) h =
    let (ids, others) = append-eq-nil _ _ h in
    let c = validate_step_ids-Collected 0 [] (step ∷ steps) ids in
    let fit =
      step_errors-StepFits _ 0 (step ∷ steps) (id_of-named (step ∷ steps) c.names c.named) others in
    record {
      some_step = λ e. cc;
      names = c.names;
      named = c.named;
      distinct = c.distinct;
      fit = All-map (step ∷ steps) (λ s. StepFits-covered s c.covered) fit;
    }

-- A definition that the runner can work with.
pub record IsValid (value : Value) : Type 0 where
  pub fields : List (String × Value)
  pub is_record : record_of value ≡ some fields
  pub version : is_text "flow.workflow.v1" (get fields "schemaVersion") ≡ true
  pub named : is_some (stable_id_of (get fields "id")) ≡ true
  pub steps : List Value
  pub is_array : array_of (get fields "steps") ≡ some steps
  pub fit : StepsFit steps

validate_steps-StepsFit :
    (value : Value)
    → validate_steps value ≡ []
    → (steps : List Value) × (array_of value ≡ some steps) × StepsFit steps
unfolding validate_steps
validate_steps-StepsFit value h = elim (Option-cases (array_of value)) [
  | inl e ↦ absurd (ground (arith, rw (e, validate_steps) at h))
  | inr (steps, e) ↦ (steps, e, validate_step_list-StepsFit steps (rw (e, validate_steps) at h))
]

workflow_fields-IsValid :
    (value : Value) (fs : List (String × Value))
    → record_of value ≡ some fs
    → workflow_fields fs ≡ []
    → IsValid value
unfolding workflow_fields
workflow_fields-IsValid value fs e h =
    let last_part = append-eq-nil _ _ h in
    let metadata = append-eq-nil _ _ (append-eq-nil _ _ last_part.0).0 in
    let named = append-eq-nil _ _ (append-eq-nil _ _ (append-eq-nil _ _ metadata.0).0).0 in
    let version = append-eq-nil _ _ named.0 in
    let (steps, there, fit) = validate_steps-StepsFit _ last_part.1 in
    record {
      fields = fs;
      is_record = e;
      version =
          unless-nil (is_text "flow.workflow.v1" (get fs "schemaVersion"))
            (key "workflow" ∷ (key "schemaVersion" ∷ [])) (must_be_literal "flow.workflow.v1")
            version.1;
      named =
          unless-nil (is_some (stable_id_of (get fs "id"))) (key "workflow" ∷ (key "id" ∷ []))
            must_be_stable_id named.1;
      steps = steps;
      is_array = there;
      fit = fit;
    }

-- A value that `validateWorkflowDefinition` finds no error in is a record of schema version
-- `flow.workflow.v1` with a stable id and at least one step. Each step is a record with a stable id,
-- and no two have the same one; each entry of a `dependsOn` is the id of a step of the definition
-- other than its own; and a `retry` is a record with a positive integer `maxAttempts`.
pub validate_workflow_definition-IsValid :
    (value : Value) → validate_workflow_definition value ≡ [] → IsValid value
unfolding validate_workflow_definition
validate_workflow_definition-IsValid value h = elim (Option-cases (record_of value)) [
  | inl e ↦ absurd (ground (arith, rw (e, validate_workflow_definition) at h))
  | inr (fs, e) ↦ workflow_fields-IsValid value fs e (rw (e, validate_workflow_definition) at h)
]
