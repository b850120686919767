-- ===== src/Runner.antt =====
-- src/workflow-runner.ts, by its parts, and src/schedule-trigger.ts.
pub mod Order
pub mod Exec
pub mod Outcome
pub mod Checkpoint
pub mod Environment
pub mod Attempt
pub mod Steps
pub mod Start
pub mod Workflow
pub mod Schedule
pub mod Samples
mod Tests
