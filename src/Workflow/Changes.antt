-- ===== src/Workflow/Changes.antt =====
-- What the operations share that record a change and leave the Task's position as it is
-- (recordContextManifestChange, recordBuildPlanChange, reviseInitiativeGraph, recordPhaseExecutionDispatch,
-- recordPhaseExecutionResult and recordTrackerSynchronization of packages/core/src/workflow.ts). Whether
-- the state matches its accepted history is an argument of each.
pub mod Requests
pub mod Plan
pub mod Graph
pub mod Dispatch
pub mod Outcomes
pub mod Tracker
pub mod Accepted
use say_hi.Prelude.{
  ℕ, ◌+◌, ◌==◌, String, str_eq, Bool, true, false, ◌&&◌, Option, none, some, List, [], ◌∷◌, ◌++◌,
  if◌then◌else◌,
}
use say_hi.Records.{Metadata, DependencyGraph, field, eq_actor_kind}
use say_hi.Workflow.Events.{
  Projection, Payload, Content, WorkflowEvent, State, Host, event_idempotency_conflict, Diagnostic,
}
use say_hi.Workflow.Routes.{position_of}
use say_hi.Workflow.Transition.{
  workflow_contract_version, signed, event_head, tail_digest, Result, ok, failure,
}

-- The event of a change: `from` and `to` are the position of the Task.
unfoldable pub change_event :
    Host → State → Metadata → Payload → Option DependencyGraph → WorkflowEvent
change_event host state event payload graph = signed host (record {
  event_id = event.event_id;
  task_id = state.projection.task.id;
  route = state.projection.task.route;
  sequence = state.projection.version + 1;
  previous_chain_digest = tail_digest state.events;
  payload = payload;
  from = some (position_of state.projection);
  to = position_of state.projection;
  actor = event.actor;
  gates = [];
  blockers = state.projection.blockers;
  initiative_graph = graph;
  reason = event.reason;
  idempotency_key = event.idempotency_key;
  occurred_at = event.occurred_at;
})

-- The fields that every projection of such an event sets.
unfoldable pub touch : Projection → WorkflowEvent → Projection
touch p e = record p {
  version = e.content.sequence;
  event_head = event_head e;
  updated_at = e.content.occurred_at;
}

-- What an event and a request have in common, whatever the change.
unfoldable pub matches_request : Content → String → ℕ → Metadata → Bool
matches_request e task_id expected_version event =
    str_eq e.task_id task_id
    && e.sequence == expected_version + 1
    && str_eq e.reason event.reason
    && eq_actor_kind e.actor.kind event.actor.kind
    && str_eq e.actor.id event.actor.id
    && str_eq e.actor.session_ref event.actor.session_ref

abbrev pub conflict : Diagnostic
conflict = record {
  code = event_idempotency_conflict;
  path = field "event" ∷ field "idempotencyKey" ∷ [];
}

-- Whether an event with the key of the request is looked at.
abbrev pub looks_back : Bool → State → ℕ → String → Bool
looks_back is_consistent state contract_version task_id =
    contract_version == workflow_contract_version
    && str_eq task_id state.projection.task.id
    && is_consistent

abbrev pub appended : State → WorkflowEvent → Projection → Result
appended state e p = ok (record { events = state.events ++ e ∷ []; projection = p }) e

-- The state after the tests of a request.
abbrev pub unless_refused : Option Diagnostic → State → Result → Result
unless_refused none state result = result
unless_refused (some d) state result = failure state d

-- The retry of a request that an event of the history records, or the rest of the operation.
abbrev pub retry_or : Bool → Option WorkflowEvent → (Content → Bool) → State → Result → Result
retry_or true (some e) matches state rest =
    if matches e.content then ok state e else failure state conflict
retry_or _ _ matches state rest = rest
