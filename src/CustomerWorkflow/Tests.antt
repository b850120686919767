-- ===== src/CustomerWorkflow/Tests.antt =====
-- src/customer-workflow-allowlist.ts and src/customer-workflow-approval-boundary.ts: runs of the
-- theorems on a policy of one entry.
use ensen_flow.Common.{◌≡◌, refl, ◌↔◌, String, List, some, none, [], ◌∷◌, ok}
use ensen_flow.Value.{Value, str, arr, obj, field, end, cons, nil, Fields, entries}
use ensen_flow.Definition.{WorkflowDefinition, TriggerType}
use ensen_flow.CustomerWorkflow.{Mode}
use ensen_flow.CustomerWorkflow.Approval.{
  assert_artifact_boundary, assert_customer_workflow_approval_boundary,
}
use ensen_flow.CustomerWorkflow.Approval.Laws.{Kept, assert_artifact_boundary-Kept}
use ensen_flow.CustomerWorkflow.Approval.Output.{
  Bounded, assert_customer_workflow_approval_boundary-Bounded,
}
use ensen_flow.CustomerWorkflow.Allowlist.{assert_customer_workflow_allowlisted}
use ensen_flow.CustomerWorkflow.Allowlist.Laws.{
  Allowed, assert_customer_workflow_allowlisted-Allowed,
}

abbrev drafts : Value
drafts = obj (
    field "customerWorkflowRef" (str "quality") (
      field "modes" (arr (cons (str "draft-only") nil))
        (field "erpNext" (obj (field "siteRefs" (arr (cons (str "site") nil)) end)) end)))

abbrev definition : WorkflowDefinition
definition = record {
  protocol_version = none;
  id = "w1";
  name = none;
  description = none;
  metadata = some (
      obj (
        field "customerWorkflowAllowlist"
          (obj (
            field "schemaVersion" (str "flow.customer-workflow-allowlist.v1")
              (field "entries" (arr (cons drafts nil)) end)))
          end));
  trigger = record { type = TriggerType.manual; idempotency_key = none };
  steps = [];
}

abbrev context : Value
context = obj (
    field "customerWorkflow"
      (obj (
        field "ref" (str "quality") (
          field "mode" (str "draft-only")
            (field "erpNext" (obj (field "siteRef" (str "site") end)) end))))
      end)

assert_customer_workflow_allowlisted-Allowed_example :
    assert_customer_workflow_allowlisted definition context ≡ ok tt ↔ Allowed definition context
assert_customer_workflow_allowlisted-Allowed_example =
    assert_customer_workflow_allowlisted-Allowed definition context

-- The draft is let through.
drafts_allowed : assert_customer_workflow_allowlisted definition context ≡ ok tt
unfolding assert_customer_workflow_allowlisted ensen_flow.Common.lookup ensen_flow.Common.is_blank
    ensen_flow.CustomerWorkflow.mode_of_text
drafts_allowed = refl

abbrev draft : Fields
draft =
    (field "externalApplicationState" (str "not-applied") (
      field "artifactIntent" (str "draft-only")
        (field "approvalState" (str "approval-required") end)))

abbrev fields : List (String × Value)
fields = entries draft

abbrev output : Fields
output = field "customerWorkflowArtifact" (obj draft) end

abbrev executor : Value
executor = obj (field "result" (obj (field "output" (obj output) end)) end)

assert_artifact_boundary-Kept_example :
    assert_artifact_boundary Mode.draft_only fields ≡ ok tt ↔ Kept Mode.draft_only fields
assert_artifact_boundary-Kept_example = assert_artifact_boundary-Kept Mode.draft_only fields

assert_customer_workflow_approval_boundary-Bounded_example :
    Bounded Mode.draft_only (entries output)
unfolding assert_customer_workflow_approval_boundary ensen_flow.Common.lookup
assert_customer_workflow_approval_boundary-Bounded_example =
    assert_customer_workflow_approval_boundary-Bounded context executor Mode.draft_only
      (entries output) refl refl refl
