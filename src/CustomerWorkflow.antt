-- ===== src/CustomerWorkflow.antt =====
-- The customer workflow that a trigger context names: src/customer-workflow-allowlist.ts and
-- src/customer-workflow-approval-boundary.ts.
pub mod Allowlist
pub mod Approval
mod Tests
use ensen_flow.Common.{String, Option, none, some, ◌==◌, if◌then◌else◌}
use ensen_flow.Value.{Value, undefined, get, record_of}

-- `CustomerWorkflowAllowlistMode`
pub data Mode : Type 0 where
  fake read_only draft_only live_write_back : Mode

-- the modes of `CUSTOMER_WORKFLOW_MODES`
unfoldable pub mode_of_text : String → Option Mode
mode_of_text s =
    if s == "fake"
    then some Mode.fake
    else if s == "read-only"
    then some Mode.read_only
    else if s == "draft-only"
    then some Mode.draft_only
    else if s == "live-write-back"
    then some Mode.live_write_back
    else none

abbrev pub mode_text : Mode → String
mode_text Mode.fake = "fake"
mode_text Mode.read_only = "read-only"
mode_text Mode.draft_only = "draft-only"
mode_text Mode.live_write_back = "live-write-back"

-- `v.k` of a value that is neither null nor undefined
abbrev pub property : String → Value → Value
property k v = elim (record_of v) [ none ↦ undefined | some fs ↦ get fs k ]
