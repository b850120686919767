-- ===== src/Definition/Errors.antt =====
-- src/workflow-definition.ts: `WorkflowDefinitionValidationError`, with a constructor for each
-- message and the segments of each path.
use ensen_flow.Common.{ℕ, String, List, [], ◌∷◌, ◌++◌}
use ensen_flow.Value.{Value}

pub data Segment : Type 0 where
  key : String → Segment
  index : ℕ → Segment

pub data Message : Type 0 where
  must_be_object outside_boundary must_be_stable_id must_be_unique : Message
  must_be_literal : String → Message
  must_be_non_empty_string must_be_string must_be_boolean must_be_array : Message
  must_have_a_step must_be_known_type must_be_cron : Message
  cannot_reference_itself must_reference_existing_step : Message
  must_be_positive_integer must_be_non_negative_integer : Message
  unsupported_protocol_version : Value → Message

pub record ValidationError : Type 0 where
  pub path : List Segment
  pub message : Message

-- `${path}.${k}`
abbrev pub below : List Segment → String → List Segment
below path k = path ++ key k ∷ []

-- `path ? `${path}.${k}` : `workflow.${k}``
abbrev pub below_or_workflow : List Segment → String → List Segment
below_or_workflow [] k = key "workflow" ∷ (key k ∷ [])
below_or_workflow (p ∷ ps) k = below (p ∷ ps) k

abbrev pub error_at : List Segment → Message → List ValidationError
error_at path m = record { path = path; message = m } ∷ []
