-- ===== src/Workflow/Changes/Requests.antt =====
-- The requests of the changes, and the tests that they share (packages/core/src/workflow.ts).
use say_hi.Prelude.{ℕ, ◌==◌, String, str_eq, Bool, ◌&&◌, Option, [], ◌∷◌, ◌or_else◌, unless}
use say_hi.Records.{Phase, Metadata, DependencyGraph, build, active, field, eq_route, eq_lifecycle}
use say_hi.Workflow.Events.{
  PlanChange, PlanMaterial, ContextChange, Binding, ExecutionResult, TrackerChange,
  TrackerReference, State, contract_version_unsupported, task_mismatch, state_inconsistent,
  version_stale, transition_illegal, Diagnostic,
}
use say_hi.Workflow.Guards.{at}
use say_hi.Workflow.Transition.{workflow_contract_version, validate_event_metadata}

-- RecordContextManifestChangeRequest
pub record ContextRequest : Type 0 where
  pub contract_version : ℕ
  pub task_id : String
  pub expected_version : ℕ
  pub phase : Phase
  pub manifest_path : String
  pub manifest_identity : String
  pub change : ContextChange
  pub event : Metadata

-- RecordBuildPlanChangeRequest
pub record PlanRequest : Type 0 where
  pub contract_version : ℕ
  pub task_id : String
  pub expected_version : ℕ
  pub change : PlanChange
  pub material : PlanMaterial
  pub event : Metadata

-- ReviseInitiativeGraphRequest
pub record GraphRequest : Type 0 where
  pub contract_version : ℕ
  pub task_id : String
  pub expected_version : ℕ
  pub expected_graph_version : ℕ
  pub graph : DependencyGraph
  pub event : Metadata

-- RecordPhaseExecutionDispatchRequest
pub record DispatchRequest : Type 0 where
  pub contract_version : ℕ
  pub task_id : String
  pub expected_version : ℕ
  pub plan_identity : String
  pub binding : Binding
  pub event : Metadata

-- RecordPhaseExecutionResultRequest
pub record ResultRequest : Type 0 where
  pub contract_version : ℕ
  pub task_id : String
  pub expected_version : ℕ
  pub result : ExecutionResult
  pub event : Metadata

-- RecordTrackerSynchronizationRequest
pub record TrackerRequest : Type 0 where
  pub contract_version : ℕ
  pub task_id : String
  pub expected_version : ℕ
  pub change : TrackerChange
  pub reference : TrackerReference
  pub event : Metadata

-- The first tests of every request but those of a Phase execution.
abbrev pub validate_current : Bool → State → ℕ → String → ℕ → Option Diagnostic
validate_current is_consistent state contract_version task_id expected_version =
    unless (contract_version == workflow_contract_version)
      (at contract_version_unsupported "contractVersion")
    or_else unless (str_eq task_id state.projection.task.id) (at task_mismatch "taskId")
    or_else unless is_consistent (at state_inconsistent "state")
    or_else unless (expected_version == state.projection.version)
        (at version_stale "expectedVersion")

unfoldable pub validate_phase_execution_request :
    State → ℕ → String → ℕ → Metadata → Option Diagnostic
validate_phase_execution_request state contract_version task_id expected_version event =
    unless (contract_version == workflow_contract_version)
      (at contract_version_unsupported "contractVersion")
    or_else unless (str_eq task_id state.projection.task.id) (at task_mismatch "taskId")
    or_else unless (expected_version == state.projection.version)
        (at version_stale "expectedVersion")
    or_else unless
        (eq_route state.projection.task.route build
          && eq_lifecycle state.projection.lifecycle active)
        (at transition_illegal "state")
    or_else validate_event_metadata (field "event" ∷ []) event
