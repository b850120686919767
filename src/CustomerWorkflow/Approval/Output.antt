-- ===== src/CustomerWorkflow/Approval/Output.antt =====
-- src/customer-workflow-approval-boundary.ts: all that is looked at in the output of a step.
use mathlib.Core.Bool.{false≢true}
use ensen_flow.Common.{
  String, true, false, ◌≡◌, ◌≢◌, sym, some, List, [], ◌∷◌, ok, >>=-eq-ok, require-eq, arith, All,
  eq_refl,
}
use ensen_flow.Value.{Value, bool, str, is_text, get}
use ensen_flow.CustomerWorkflow.{Mode, property}
use ensen_flow.CustomerWorkflow.Approval.{
  Record, is_true, claims_write_back, infers_quality_decision, assert_no_live_write_back,
  assert_no_automatic_quality_decision, resolve_customer_workflow_artifacts, assert_artifacts,
  assert_artifact_boundary, assert_output, resolve_executor_output, parse_customer_workflow_input,
  assert_customer_workflow_approval_boundary,
}
use ensen_flow.CustomerWorkflow.Approval.Laws.{Kept, assert_artifact_boundary-Kept}

-- The output claims neither a live write-back nor an automatic decision on quality.
pub record ClaimsNothing (output : Record) : Type 0 where
  pub no_write_back : get output "liveWriteBack" ≢ bool true
  pub not_live : get output "writeBack" ≢ str "live"
  pub not_applied : get output "externalApplicationState" ≢ str "applied"
  pub no_automatic_decision : get output "automaticQualityDecision" ≢ bool true
  pub no_decision_type : get output "decisionType" ≢ str "automatic-quality-decision"
  pub no_automatic_source : get output "qualityDecisionSource" ≢ str "automatic"
  pub no_final_source : get output "finalQualityDecisionSource" ≢ str "automatic"

-- What the boundary makes sure of in an output.
pub record Bounded (mode : Mode) (output : Record) : Type 0 where
  pub claims_nothing : ClaimsNothing output
  pub artifacts : List Record
  pub found : resolve_customer_workflow_artifacts output ≡ ok artifacts
  pub kept : All (Kept mode) artifacts

unlike : (s : String) (v : Value) → is_text s v ≡ false → v ≢ str s
unlike s v h e = absurd (false≢true (cc (rw e at h, eq_refl s)))

untrue : (v : Value) → is_true v ≡ false → v ≢ bool true
untrue v h e = absurd (false≢true (sym (rw e at h)))

assert_artifacts-Kept :
    (mode : Mode) (as' : List Record) → assert_artifacts mode as' ≡ ok tt → All (Kept mode) as'
unfolding assert_artifacts
assert_artifacts-Kept mode [] h = tt
assert_artifacts-Kept mode (a ∷ as') h =
    let (t, first, rest) = >>=-eq-ok (assert_artifact_boundary mode a) _ h in
    ((assert_artifact_boundary-Kept mode a).0 first, assert_artifacts-Kept mode as' rest)

claims_nothing :
    (output : Record)
    → assert_no_automatic_quality_decision output ≡ ok tt
    → assert_no_live_write_back output ≡ ok tt
    → ClaimsNothing output
unfolding assert_no_automatic_quality_decision assert_no_live_write_back
claims_nothing output q w =
    let b = require-eq _ claims_write_back w in
    let d = require-eq _ infers_quality_decision q in
    record {
      no_write_back = untrue _ (ground arith);
      not_live = unlike "live" _ (ground arith);
      not_applied = unlike "applied" _ (ground arith);
      no_automatic_decision = untrue _ (ground arith);
      no_decision_type = unlike "automatic-quality-decision" _ (ground arith);
      no_automatic_source = unlike "automatic" _ (ground arith);
      no_final_source = unlike "automatic" _ (ground arith);
    }

assert_output-Bounded :
    (mode : Mode) (output : Record) → assert_output mode (some output) ≡ ok tt → Bounded mode output
unfolding assert_output
assert_output-Bounded mode output h =
    let (t, q, h1) = >>=-eq-ok (assert_no_automatic_quality_decision output) _ h in
    let (t', w, h2) = >>=-eq-ok (assert_no_live_write_back output) _ h1 in
    let (artifacts, found, h3) = >>=-eq-ok (resolve_customer_workflow_artifacts output) _ h2 in
    record {
      claims_nothing = claims_nothing output q w;
      artifacts = artifacts;
      found = found;
      kept = assert_artifacts-Kept mode artifacts h3;
    }

-- Where a step of a customer workflow passes the boundary with an output, the output claims neither
-- live write-back nor an automatic decision on quality, and each of its artifacts keeps to the mode.
pub assert_customer_workflow_approval_boundary-Bounded :
    (context executor : Value) (mode : Mode) (output : Record)
    → parse_customer_workflow_input (property "customerWorkflow" context) ≡ some mode
    → resolve_executor_output executor ≡ ok (some output)
    → assert_customer_workflow_approval_boundary context (some executor) ≡ ok tt
    → Bounded mode output
unfolding assert_customer_workflow_approval_boundary
assert_customer_workflow_approval_boundary-Bounded context executor mode output p r h =
    assert_output-Bounded mode output (rw (p, r) at h)
