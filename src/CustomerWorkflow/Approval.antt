-- ===== src/CustomerWorkflow/Approval.antt =====
-- src/customer-workflow-approval-boundary.ts: what the output of a step may say of approval. A
-- record is its fields, and of a step result only the field `executor` is read.
pub mod Laws
pub mod Output
use ensen_flow.Common.{
  String, Bool, true, false, not, ◌&&◌, ◌||◌, Option, none, some, List, [], ◌∷◌, ◌++◌, ◌==◌, any,
  is_some, Result, ok, err, ◌>>=◌, ◌>>◌, require, if◌then◌else◌,
}
use ensen_flow.Value.{Value, undefined, null, bool, str, get, has, record_of, array_of, is_text}
use ensen_flow.CustomerWorkflow.{Mode, mode_of_text, property}
use ensen_flow.CustomerWorkflow.Allowlist.{is_non_empty_string}

pub data ApprovalState : Type 0 where
  approval_required approved rejected revoked superseded : ApprovalState

-- the errors that `assertCustomerWorkflowApprovalBoundary` throws
pub data ApprovalError : Type 0 where
  not_kept_unapplied read_only_creates read_only_records_approval committed_without_approval :
      ApprovalError
  draft_only_creates no_lifecycle_state approved_without_approval : ApprovalError
  infers_quality_decision claims_write_back outside_output output_not_an_object : ApprovalError
  artifact_not_an_object artifacts_not_objects state_not_a_string state_not_supported :
      ApprovalError

unfoldable pub approval_message : ApprovalError → String
approval_message not_kept_unapplied =
    "customer workflow artifacts must remain not-applied in read-only or draft-only mode"
approval_message read_only_creates =
    "read-only customer workflow mode cannot create draft-only or committed artifacts"
approval_message read_only_records_approval =
    "read-only customer workflow mode cannot record approval lifecycle states"
approval_message committed_without_approval =
    "draft-only customer workflow artifacts cannot be committed without explicit human approval"
approval_message draft_only_creates =
    "draft-only customer workflow mode can only create draft-only artifacts before approval"
approval_message no_lifecycle_state =
    "draft-only customer workflow artifacts require an explicit lifecycle approvalState before approval"
approval_message approved_without_approval =
    "draft-only customer workflow artifacts require an explicit human approval before approved state"
approval_message infers_quality_decision =
    "customer workflow output cannot infer automatic quality decisions"
approval_message claims_write_back =
    "customer workflow artifacts cannot claim live write-back or external application"
approval_message outside_output =
    "customer workflow boundary fields must be provided in executor result output"
approval_message output_not_an_object = "customer workflow executor result output must be an object"
approval_message artifact_not_an_object = "customer workflow artifact must be an object"
approval_message artifacts_not_objects = "customer workflow artifacts must be an array of objects"
approval_message state_not_a_string = "customer workflow artifact approvalState must be a string"
approval_message state_not_supported = "customer workflow artifact approvalState is not supported"

abbrev pub Record : Type 0
Record = List (String × Value)

unfoldable pub state_of_text : String → Option ApprovalState
state_of_text s =
    if s == "approval-required"
    then some ApprovalState.approval_required
    else if s == "approved"
    then some ApprovalState.approved
    else if s == "rejected"
    then some ApprovalState.rejected
    else if s == "revoked"
    then some ApprovalState.revoked
    else if s == "superseded"
    then some ApprovalState.superseded
    else none

abbrev supported : Option ApprovalState → Result ApprovalError (Option ApprovalState)
supported none = err state_not_supported
supported (some s) = ok (some s)

abbrev state_of : Value → Result ApprovalError (Option ApprovalState)
state_of (str s) = supported (state_of_text s)
state_of _ = err state_not_a_string

unfoldable pub parse_approval_state : Record → Result ApprovalError (Option ApprovalState)
unfolding state_of_text
parse_approval_state artifact =
    if has artifact "approvalState" then state_of (get artifact "approvalState") else ok none

-- `a ?? b`
abbrev pub nullish : Value → Value → Value
nullish undefined b = b
nullish null b = b
nullish a b = a

abbrev pub artifact_intent : Record → Value
artifact_intent artifact = nullish (get artifact "artifactIntent") (get artifact "intent")

abbrev pub is_undefined : Value → Bool
is_undefined undefined = true
is_undefined _ = false

abbrev pub is_true : Value → Bool
is_true (bool b) = b
is_true _ = false

-- `NON_COMMITTED_APPROVAL_STATES.has(state)`
unfoldable pub is_non_committed : ApprovalState → Bool
is_non_committed ApprovalState.approved = false
is_non_committed _ = true

abbrev pub is_approved : Option ApprovalState → Bool
is_approved (some ApprovalState.approved) = true
is_approved _ = false

abbrev pub has_non_empty_string : Value → Bool
has_non_empty_string v = is_some (is_non_empty_string v)

-- the part of `assertArtifactBoundary` for `read-only`
unfoldable pub read_only_boundary : Value → Option ApprovalState → Result ApprovalError (Unit {0})
read_only_boundary intent state = do
  require (is_undefined intent || is_text "read-only" intent || is_text "observation" intent)
      read_only_creates
  require (not (is_some state)) read_only_records_approval

abbrev before_approval : Option ApprovalState → Result ApprovalError (Unit {0})
before_approval none = err no_lifecycle_state
before_approval (some s) = require (is_non_committed s) approved_without_approval

-- the part for `draft-only`
unfoldable pub draft_only_boundary :
    Record → Value → Option ApprovalState → Result ApprovalError (Unit {0})
unfolding is_non_committed is_non_empty_string
draft_only_boundary artifact intent state =
    if is_text "committed" intent
    then require
        (is_approved state
          && has_non_empty_string (get artifact "humanApprovalRef")
          && has_non_empty_string (get artifact "decisionBoundary"))
        committed_without_approval
    else (do
      require (is_undefined intent || is_text "draft-only" intent) draft_only_creates
      before_approval state)

unfoldable pub boundary_of_mode :
    Mode → Record → Option ApprovalState → Result ApprovalError (Unit {0})
unfolding read_only_boundary draft_only_boundary
boundary_of_mode Mode.read_only artifact state = read_only_boundary (artifact_intent artifact) state
boundary_of_mode Mode.draft_only artifact state =
    draft_only_boundary artifact (artifact_intent artifact) state
boundary_of_mode _ artifact state = ok tt

unfoldable pub assert_artifact_boundary : Mode → Record → Result ApprovalError (Unit {0})
unfolding parse_approval_state boundary_of_mode
assert_artifact_boundary mode artifact = do
  state ← parse_approval_state artifact
  require (is_text "not-applied" (get artifact "externalApplicationState")) not_kept_unapplied
  boundary_of_mode mode artifact state

unfoldable pub assert_no_automatic_quality_decision : Record → Result ApprovalError (Unit {0})
assert_no_automatic_quality_decision result =
    require
      (not (
        is_true (get result "automaticQualityDecision")
        || is_text "automatic-quality-decision" (get result "decisionType")
        || is_text "automatic" (get result "qualityDecisionSource")
        || is_text "automatic" (get result "finalQualityDecisionSource")))
      infers_quality_decision

unfoldable pub assert_no_live_write_back : Record → Result ApprovalError (Unit {0})
assert_no_live_write_back result =
    require
      (not (
        is_true (get result "liveWriteBack")
        || is_text "live" (get result "writeBack")
        || is_text "applied" (get result "externalApplicationState")))
      claims_write_back

abbrev pub customer_workflow_output_boundary_keys : List String
customer_workflow_output_boundary_keys =
    "automaticQualityDecision" ∷ "customerWorkflowArtifact" ∷ "customerWorkflowArtifacts"
    ∷ "decisionType" ∷ "externalApplicationState" ∷ "finalQualityDecisionSource" ∷ "liveWriteBack"
    ∷ "qualityDecisionSource" ∷ "writeBack" ∷ []

unfoldable pub assert_no_boundary_fields_outside_output : Record → Result ApprovalError (Unit {0})
assert_no_boundary_fields_outside_output result =
    require (not (any (has result) customer_workflow_output_boundary_keys)) outside_output

abbrev output_of : Value → Result ApprovalError (Option Record)
output_of undefined = ok none
output_of v = elim (record_of v) [ none ↦ err output_not_an_object | some fs ↦ ok (some fs) ]

abbrev output_in : Option Record → Result ApprovalError (Option Record)
output_in none = ok none
output_in (some result) = do
  assert_no_boundary_fields_outside_output result
  output_of (get result "output")

-- of `stepResult.executor`
unfoldable pub resolve_executor_output : Value → Result ApprovalError (Option Record)
unfolding assert_no_boundary_fields_outside_output
resolve_executor_output executor = elim (record_of executor) [
  | none ↦ ok none
  | some fs ↦ output_in (record_of (get fs "result"))
]

unfoldable pub objects_in : List Value → Result ApprovalError (List Record)
objects_in [] = ok []
objects_in (v ∷ vs) = do
  fs ← elim (record_of v) [ none ↦ err artifacts_not_objects | some fs ↦ ok fs ]
  rest ← objects_in vs
  ok (fs ∷ rest)

unfoldable pub resolve_customer_workflow_artifacts : Record → Result ApprovalError (List Record)
unfolding objects_in
resolve_customer_workflow_artifacts result = do
  single ←
      if has result "customerWorkflowArtifact"
      then elim (record_of (get result "customerWorkflowArtifact")) [
        | none ↦ err artifact_not_an_object
        | some fs ↦ ok (fs ∷ [])
      ]
      else ok []
  more ←
      if has result "customerWorkflowArtifacts"
      then elim (array_of (get result "customerWorkflowArtifacts")) [
        | none ↦ err artifacts_not_objects
        | some vs ↦ objects_in vs
      ]
      else ok []
  ok (single ++ more)

-- the mode of what `parseCustomerWorkflowInput` gives; no more of it is read
unfoldable pub parse_customer_workflow_input : Value → Option Mode
unfolding mode_of_text
parse_customer_workflow_input v = elim (record_of v) [
  | none ↦ none
  | some fs ↦ elim (get fs "ref") [
    | str ref ↦ elim (get fs "mode") [ str mode ↦ mode_of_text mode | _ ↦ none ]
    | _ ↦ none
  ]
]

unfoldable pub assert_artifacts : Mode → List Record → Result ApprovalError (Unit {0})
unfolding assert_artifact_boundary
assert_artifacts mode [] = ok tt
assert_artifacts mode (a ∷ as') = do assert_artifact_boundary mode a; assert_artifacts mode as'

unfoldable pub assert_output : Mode → Option Record → Result ApprovalError (Unit {0})
unfolding assert_no_automatic_quality_decision assert_no_live_write_back
    resolve_customer_workflow_artifacts assert_artifacts
assert_output mode none = ok tt
assert_output mode (some output) = do
  assert_no_automatic_quality_decision output
  assert_no_live_write_back output
  artifacts ← resolve_customer_workflow_artifacts output
  assert_artifacts mode artifacts

abbrev assert_executor : Option Mode → Option Value → Result ApprovalError (Unit {0})
assert_executor none executor = ok tt
assert_executor (some mode) none = ok tt
assert_executor (some mode) (some executor) = do
  output ← resolve_executor_output executor
  assert_output mode output

-- `executor` is `stepResult.executor`, if there is a step result
unfoldable pub assert_customer_workflow_approval_boundary :
    Value → Option Value → Result ApprovalError (Unit {0})
unfolding parse_customer_workflow_input resolve_executor_output assert_output
assert_customer_workflow_approval_boundary context executor =
    assert_executor (parse_customer_workflow_input (property "customerWorkflow" context)) executor
