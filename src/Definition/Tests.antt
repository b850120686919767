-- ===== src/Definition/Tests.antt =====
-- src/workflow-definition.ts: runs of the validation on small definitions.
use ensen_flow.Common.{String, lookup, is_blank, ◌≡◌, refl, [], ◌∷◌, true, false}
use ensen_flow.Value.{Value, Fields, field, end, str, num, nat, arr, obj, nil, cons}
use ensen_flow.Definition.Errors.{key, index, error_at, must_be_unique}
use ensen_flow.Definition.Patterns.{
  is_stable_id, matches_rest, fits_field, is_valid_schedule_cron_expression,
}
use ensen_flow.Definition.Validate.{
  validate_workflow_definition, workflow_fields, validate_trigger, validate_steps,
  validate_step_list, validate_step_ids, step_keys, collect_id, step_errors, validate_step,
  step_fields, validate_dependencies, dependency_errors, validate_dependency,
}
use ensen_flow.Definition.Parts.{
  validate_action, validate_retry_policy, retry_fields, validate_backoff,
}
use ensen_flow.Definition.Fields.{stable_id_of, is_positive_integer}
use ensen_flow.Definition.Validate.Laws.{IsValid, validate_workflow_definition-IsValid}

abbrev action : Value
action = obj (field "type" (str "local") (field "name" (str "act") end))

abbrev step_of : String → Fields → Value
step_of id fields = obj (field "id" (str id) (field "action" action fields))

abbrev workflow_of : Value → Value
workflow_of steps = obj (
    field "schemaVersion" (str "flow.workflow.v1") (
      field "id" (str "two-steps")
        (field "trigger" (obj (field "type" (str "manual") end)) (field "steps" steps end))))

abbrev retry_of : Value → Fields
retry_of attempts =
    field "retry"
      (obj (
        field "maxAttempts" attempts
          (field "backoff" (obj (field "strategy" (str "none") end)) end)))
      end

abbrev two_steps : Value
two_steps = workflow_of (
    arr (
      cons (step_of "ship" (field "dependsOn" (arr (cons (str "build") nil)) end))
        (cons (step_of "build" (retry_of (num (nat 3)))) nil)))

accepts : validate_workflow_definition two_steps ≡ []
unfolding validate_workflow_definition workflow_fields validate_trigger validate_steps
    validate_step_list validate_step_ids step_keys collect_id step_errors validate_step step_fields
    validate_dependencies dependency_errors validate_dependency validate_action
    validate_retry_policy retry_fields validate_backoff stable_id_of is_stable_id matches_rest
    is_positive_integer lookup is_blank
accepts = refl

validate_workflow_definition-IsValid_example : IsValid two_steps
validate_workflow_definition-IsValid_example =
    validate_workflow_definition-IsValid two_steps accepts

rejects_repeated :
    validate_workflow_definition
      (workflow_of (arr (cons (step_of "a" end) (cons (step_of "a" end) nil))))
    ≡ error_at (key "steps" ∷ index 1 ∷ key "id" ∷ []) must_be_unique
unfolding validate_workflow_definition workflow_fields validate_trigger validate_steps
    validate_step_list validate_step_ids step_keys collect_id step_errors validate_step step_fields
    validate_dependencies dependency_errors validate_dependency validate_action
    validate_retry_policy retry_fields validate_backoff stable_id_of is_stable_id matches_rest
    is_positive_integer lookup is_blank
rejects_repeated = refl

stable_ids : is_stable_id "a-1-b2" ≡ true
unfolding is_stable_id matches_rest
stable_ids = refl

unstable_ids : is_stable_id "a--b" ≡ false
unfolding is_stable_id matches_rest
unstable_ids = refl

crons : is_valid_schedule_cron_expression " 0 12  * 1 6" ≡ true
unfolding is_valid_schedule_cron_expression fits_field
crons = refl

no_crons : is_valid_schedule_cron_expression "60 * * * *" ≡ false
unfolding is_valid_schedule_cron_expression fits_field
no_crons = refl
