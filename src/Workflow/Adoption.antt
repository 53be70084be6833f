-- ===== src/Workflow/Adoption.antt =====
-- The adoption of a Baseline (adoptWorkflowBaseline and what it calls, packages/core/src/workflow.ts).
-- Whether the state matches its accepted history is an argument.
pub mod Sound
use say_hi.Prelude.{
  ℕ, ◌+◌, ◌==◌, String, str_eq, string_discrete, Bool, true, false, not, ◌&&◌, Option, none, some,
  List, [], ◌∷◌, ◌++◌, find, ◌or_else◌, unless, if◌then◌else◌,
}
use say_hi.Records.{Metadata, field, eq_actor_kind}
use say_hi.Validation.{is_contract_identity}
use say_hi.RepositoryPath.{is_repository_relative_path}
use say_hi.DependencyGraph.Cycle.{contains}
use say_hi.Workflow.Events.{
  Projection, AdoptedPath, Payload, baseline_adopted, Content, WorkflowEvent, State, Host,
  contract_version_unsupported, task_mismatch, state_inconsistent, version_stale, request_invalid,
  event_idempotency_conflict, Diagnostic,
}
use say_hi.Workflow.Routes.{position_of}
use say_hi.Workflow.Guards.{at}
use say_hi.Workflow.Transition.{
  workflow_contract_version, validate_event_metadata, signed, event_head, tail_digest, decided,
  Result, ok, failure, has_key,
}

-- AdoptWorkflowBaselineRequest
pub record AdoptionRequest : Type 0 where
  pub contract_version : ℕ
  pub task_id : String
  pub expected_version : ℕ
  pub baseline_identity : String
  pub adopted : List AdoptedPath
  pub event : Metadata

-- isBaselineAdoptedPaths; `paths` is the set so far.
unfoldable pub are_adopted_paths : List String → List AdoptedPath → Bool
are_adopted_paths paths [] = true
are_adopted_paths paths (entry ∷ entries) =
    is_repository_relative_path entry.path
    && is_contract_identity entry.identity
    && not (contains paths entry.path)
    && are_adopted_paths (entry.path ∷ paths) entries

-- validateBaselineAdoptionRequest
unfoldable pub validate_baseline_adoption_request :
    Bool → State → AdoptionRequest → Option Diagnostic
validate_baseline_adoption_request is_consistent state request =
    unless (request.contract_version == workflow_contract_version)
      (at contract_version_unsupported "contractVersion")
    or_else unless (str_eq request.task_id state.projection.task.id) (at task_mismatch "taskId")
    or_else unless is_consistent (at state_inconsistent "state")
    or_else unless (request.expected_version == state.projection.version)
        (at version_stale "expectedVersion")
    or_else unless (is_contract_identity request.baseline_identity)
        (at request_invalid "baselineIdentity")
    or_else unless (are_adopted_paths [] request.adopted) (at request_invalid "adopted")
    or_else validate_event_metadata (field "event" ∷ []) request.event

pub adopted_discrete : Discrete (List AdoptedPath)
adopted_discrete = hlevel string_discrete

-- The fields of a `baseline_adopted` event that the intent of a request fixes.
unfoldable pub matches_baseline_adoption_intent :
    Content → String → List AdoptedPath → AdoptionRequest → Bool
matches_baseline_adoption_intent e identity adopted request =
    str_eq e.task_id request.task_id
    && e.sequence == request.expected_version + 1
    && str_eq identity request.baseline_identity
    && decided (adopted_discrete adopted request.adopted)
    && str_eq e.reason request.event.reason
    && eq_actor_kind e.actor.kind request.event.actor.kind
    && str_eq e.actor.id request.event.actor.id
    && str_eq e.actor.session_ref request.event.actor.session_ref

unfoldable pub adoption_event : Host → State → AdoptionRequest → WorkflowEvent
adoption_event host state request = signed host (record {
  event_id = request.event.event_id;
  task_id = state.projection.task.id;
  route = state.projection.task.route;
  sequence = state.projection.version + 1;
  previous_chain_digest = tail_digest state.events;
  payload = baseline_adopted request.baseline_identity request.adopted;
  from = some (position_of state.projection);
  to = position_of state.projection;
  actor = request.event.actor;
  gates = [];
  blockers = state.projection.blockers;
  initiative_graph = none;
  reason = request.event.reason;
  idempotency_key = request.event.idempotency_key;
  occurred_at = request.event.occurred_at;
})

unfoldable pub project_baseline_adopted_event : Projection → WorkflowEvent → Projection
project_baseline_adopted_event p e = record p {
  version = e.content.sequence;
  event_head = event_head e;
  updated_at = e.content.occurred_at;
}

abbrev pub adopted_state : Host → State → AdoptionRequest → State
adopted_state host state request =
    let e = adoption_event host state request in
    record {
      events = state.events ++ e ∷ [];
      projection = project_baseline_adopted_event state.projection e;
    }

abbrev pub adopted_if : Host → State → AdoptionRequest → Option Diagnostic → Result
adopted_if host state request (some d) = failure state d
adopted_if host state request none =
    ok (adopted_state host state request) (adoption_event host state request)

abbrev pub is_same_adoption : Content → Payload → AdoptionRequest → Bool
is_same_adoption e (baseline_adopted identity adopted) request =
    matches_baseline_adoption_intent e identity adopted request
is_same_adoption e _ request = false

abbrev pub repeated_adoption : State → AdoptionRequest → WorkflowEvent → Result
repeated_adoption state request e =
    if is_same_adoption e.content e.content.payload request
    then ok state e
    else failure state (record {
      code = event_idempotency_conflict;
      path = field "event" ∷ field "idempotencyKey" ∷ [];
    })

-- The retry is looked at only where the version, the Task and the history are right.
abbrev pub is_adoption_retry : Bool → State → AdoptionRequest → Bool
is_adoption_retry is_consistent state request =
    request.contract_version == workflow_contract_version
    && str_eq request.task_id state.projection.task.id
    && is_consistent

abbrev pub adoption_answer :
    Bool → Host → Bool → State → AdoptionRequest → Option WorkflowEvent → Result
adoption_answer true host c state request (some e) = repeated_adoption state request e
adoption_answer _ host c state request _ =
    adopted_if host state request (validate_baseline_adoption_request c state request)

unfoldable pub adopt_workflow_baseline : Host → Bool → State → AdoptionRequest → Result
adopt_workflow_baseline host is_consistent state request =
    adoption_answer (is_adoption_retry is_consistent state request) host is_consistent state request
      (find (has_key request.event.idempotency_key) state.events)
