-- ===== src/Workflow.antt =====
-- The workflow engine (packages/core/src/workflow.ts): what a Task's history holds, which transitions a
-- Route permits, which Gates they need, and what an accepted transition does to the projection.
pub mod Events
pub mod Routes
pub mod Gates
pub mod History
pub mod Guards
pub mod Transition
pub mod Start
pub mod Escalation
pub mod Adoption
pub mod Execution
pub mod Payloads
pub mod Changes
pub mod Replay
