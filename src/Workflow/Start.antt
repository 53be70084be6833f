-- ===== src/Workflow/Start.antt =====
-- The creation of a Task (startWorkflowTask and what it calls, packages/core/src/workflow.ts).
pub mod Sound
pub mod Tests
use say_hi.Prelude.{
  ℕ, suc, leb, ◌==◌, String, Bool, true, false, not, Option, none, some, List, [], ◌∷◌, ◌++◌,
  ◌or_else◌, unless, is_blank,
}
use say_hi.Records.{
  Phase, triage, explore, plan, implement, review, integrate, finish, active, GateAcceptance,
  Metadata, field, index, JsonPath,
}
use say_hi.Validation.{is_identifier}
use say_hi.RepositoryPath.{is_repository_relative_path}
use say_hi.Workflow.Events.{
  Position, Context, TaskDefinition, Projection, task_created, WorkflowEvent, State, Host,
  contract_version_unsupported, request_invalid, Diagnostic,
}
use say_hi.Workflow.Gates.{validate_route_gate}
use say_hi.Workflow.Guards.{at}
use say_hi.Workflow.Transition.{
  workflow_contract_version, invalid_request, validate_event_metadata, signed, event_head,
}

-- StartWorkflowTaskRequest
pub record StartRequest : Type 0 where
  pub contract_version : ℕ
  pub task : TaskDefinition
  pub route_gate : Option GateAcceptance
  pub event : Metadata

abbrev phase_name : Phase → String
phase_name triage = "triage"
phase_name explore = "explore"
phase_name plan = "plan"
phase_name implement = "implement"
phase_name review = "review"
phase_name integrate = "integrate"
phase_name finish = "finish"

abbrev in_task : JsonPath
in_task = field "task" ∷ []

-- The inner loop of validateTaskPaths.
unfoldable pub validate_scope_paths : String → ℕ → List String → Option Diagnostic
validate_scope_paths kind i [] = none
validate_scope_paths kind i (value ∷ values) =
    unless (is_repository_relative_path value) (record {
      code = request_invalid;
      path = field "task" ∷ field "scope" ∷ field kind ∷ index i ∷ [];
    })
    or_else validate_scope_paths kind (suc i) values

-- The loop over `Object.entries(task.contexts)`.
unfoldable pub validate_context_paths : List Context → Option Diagnostic
validate_context_paths [] = none
validate_context_paths (c ∷ contexts) =
    unless (is_repository_relative_path c.path)
      (invalid_request (field "task" ∷ field "contexts" ∷ []) (phase_name c.phase))
    or_else validate_context_paths contexts

unfoldable pub validate_task_paths : TaskDefinition → Option Diagnostic
validate_task_paths task =
    validate_scope_paths "files" 0 task.scope.files
    or_else validate_scope_paths "locks" 0 task.scope.locks
    or_else unless (is_repository_relative_path task.baseline_ref)
        (invalid_request in_task "baselineRef")
    or_else validate_context_paths task.contexts

-- validateStartRequest. A typed Route is supported, and a natural number of attempts is not negative.
unfoldable pub validate_start_request : StartRequest → Option Diagnostic
validate_start_request request =
    unless (request.contract_version == workflow_contract_version)
      (at contract_version_unsupported "contractVersion")
    or_else unless (is_identifier request.task.id) (invalid_request in_task "id")
    or_else unless (not (is_blank request.task.title)) (invalid_request in_task "title")
    or_else unless (not (is_blank request.task.baseline_ref))
        (invalid_request in_task "baselineRef")
    or_else unless (leb request.task.policies.max_repair_attempts 2)
        (invalid_request (field "task" ∷ field "policies" ∷ []) "maxRepairAttempts")
    or_else validate_task_paths request.task
    or_else validate_route_gate request.task.route request.route_gate
    or_else validate_event_metadata (field "event" ∷ []) request.event

-- `[request.routeGate!]`
abbrev pub route_gates : Option GateAcceptance → List GateAcceptance
route_gates none = []
route_gates (some gate) = gate ∷ []

unfoldable pub created_event : Host → StartRequest → WorkflowEvent
created_event host request = signed host (record {
  event_id = request.event.event_id;
  task_id = request.task.id;
  route = request.task.route;
  sequence = 1;
  previous_chain_digest = none;
  payload = task_created request.task;
  from = none;
  to = record { lifecycle = active; phase = triage; step = "ready" };
  actor = request.event.actor;
  gates = route_gates request.route_gate;
  blockers = [];
  initiative_graph = none;
  reason = request.event.reason;
  idempotency_key = request.event.idempotency_key;
  occurred_at = request.event.occurred_at;
})

-- projectCreatedEvent, of an event that creates the Task.
unfoldable pub project_created_event : TaskDefinition → WorkflowEvent → Projection
project_created_event task e = record {
  task = task;
  lifecycle = e.content.to.lifecycle;
  phase = e.content.to.phase;
  step = e.content.to.step;
  version = e.content.sequence;
  event_head = event_head e;
  blockers = e.content.blockers;
  external_references = [];
  created_at = e.content.occurred_at;
  updated_at = e.content.occurred_at;
}

-- StartWorkflowTaskResult
pub data StartResult : Type 0 where
  started : State → WorkflowEvent → StartResult
  refused : Diagnostic → StartResult

abbrev pub first_state : Host → StartRequest → State
first_state host request = record {
  events = created_event host request ∷ [];
  projection = project_created_event request.task (created_event host request);
}

abbrev pub start : Host → StartRequest → Option Diagnostic → StartResult
start host request (some d) = refused d
start host request none = started (first_state host request) (created_event host request)

unfoldable pub start_workflow_task : Host → StartRequest → StartResult
start_workflow_task host request = start host request (validate_start_request request)
