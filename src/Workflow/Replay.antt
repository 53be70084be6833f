-- ===== src/Workflow/Replay.antt =====
-- The replay of a history (replayWorkflowEvents and what it calls, packages/core/src/workflow.ts). An
-- event is replayed on the state of the events before it, whose number is its index.
pub mod Envelope
pub mod Failures
pub mod Carries
pub mod Snapshots
pub mod Accepts
pub mod Admitted
pub mod Sound
pub mod Appends
pub mod Admits
pub mod Changed
pub mod Grows
pub mod Executed
pub mod Revised
pub mod References
pub mod Moved
pub mod Raised
pub mod Begun
pub mod Operations
pub mod Recorded
pub mod Graphs
pub mod History
pub mod Reuse
pub mod Results
mod Tests
use say_hi.Prelude.{
  string_discrete, ℕ, ◌+◌, ◌==◌, String, str_eq, Bool, true, false, not, ◌&&◌, ◌||◌, Option, none,
  some, List, [], ◌∷◌, ◌++◌, any, length, is_none, ◌or_else◌, unless, if◌then◌else◌,
}
use native.Mathlib.Decide.{ℕ_discrete}
use say_hi.Records.{DependencyGraph, field, index, JsonPath}
use say_hi.Workflow.Events.{
  Projection, Binding, ExecutionResult, PlanChange, PlanMaterial, Payload, task_created,
  workflow_transitioned, route_escalated, baseline_adopted, context_manifest_changed,
  build_plan_changed, initiative_graph_revised, phase_execution_dispatched,
  phase_execution_result_accepted, tracker_synchronized, Content, WorkflowEvent, State, Host,
  event_sequence_invalid, event_chain_invalid, event_idempotency_conflict, event_id_conflict,
  transition_illegal, Diagnostic,
}
use say_hi.Workflow.Routes.{Transition, find_transition}
use say_hi.Workflow.Gates.{validate_gates}
use say_hi.Workflow.Guards.{
  Snapshot, no_graph, snapshot, refused, validate_initiative_graph_transition,
}
use say_hi.Workflow.Transition.{
  decided, event_head, tail_digest, guard_failure, project_transition_event,
}
use say_hi.Workflow.Start.{project_created_event}
use say_hi.Workflow.Escalation.{project_route_escalated_event}
use say_hi.Workflow.Adoption.{project_baseline_adopted_event}
use say_hi.Workflow.Execution.{is_binding, is_agent_result}
use say_hi.Workflow.Payloads.{metadata_of, event_failure, validate_replay_event}
use say_hi.Workflow.Changes.{touch}
use say_hi.Workflow.Changes.Requests.{GraphRequest}
use say_hi.Workflow.Changes.Plan.{project_context_manifest_changed_event}
use say_hi.Workflow.Changes.Graph.{validate_initiative_graph_revision_request}
use say_hi.Workflow.Changes.Dispatch.{
  is_approved_identity, validate_phase_execution_dispatch_binding,
  validate_build_review_dispatch_binding,
}
use say_hi.Workflow.Changes.Outcomes.{
  validate_phase_execution_result_binding, validate_build_review_result_payload,
}
use say_hi.Workflow.Changes.Tracker.{project_tracker_synchronized_event}
use say_hi.Workflow.Replay.Envelope.{
  is_valid_creation_event, is_escalation_envelope, keeps_position,
  is_phase_execution_event_envelope, is_plan_envelope, is_plan_sequence, continues,
}
use say_hi.Workflow.Replay.Failures.{
  in_event, relocated, dispatch_replay_failure, result_replay_failure, plan_replay_failure,
  gates_failure, transition_replay_failure,
}

-- ReplayWorkflowEventsResult
pub data Replayed : Type 0 where
  replayed : State → Replayed
  replay_failure : Diagnostic → Replayed

abbrev pub has_event_key : String → WorkflowEvent → Bool
has_event_key key e = str_eq e.content.idempotency_key key

abbrev pub has_event_id : String → WorkflowEvent → Bool
has_event_id id e = str_eq e.content.event_id id

abbrev pub same_digest : Option String → Option String → Bool
same_digest none none = true
same_digest (some a) (some b) = str_eq a b
same_digest _ _ = false

-- What is asked of an event whatever its type, after the events that are accepted.
unfoldable pub admission_failure : Host → List WorkflowEvent → WorkflowEvent → Option Diagnostic
admission_failure host accepted e =
    let i = length accepted in
    validate_replay_event host e.content i
    or_else unless (not (any (has_event_key e.content.idempotency_key) accepted))
        (record { code = event_idempotency_conflict; path = in_event i "idempotencyKey" })
    or_else unless (not (any (has_event_id e.content.event_id) accepted))
        (record { code = event_id_conflict; path = in_event i "eventId" })
    or_else unless (e.content.sequence == i + 1)
        (record { code = event_sequence_invalid; path = in_event i "sequence" })
    or_else unless (same_digest e.content.previous_chain_digest (tail_digest accepted))
        (record { code = event_chain_invalid; path = in_event i "previousChainDigest" })
    or_else unless (str_eq e.chain_digest (host.event_digest e.content))
        (record { code = event_chain_invalid; path = in_event i "chainDigest" })

-- The accepted event and its projection, unless a test fails.
abbrev pub accepted_unless : Option Diagnostic → State → WorkflowEvent → Projection → Replayed
accepted_unless (some d) s e p = replay_failure d
accepted_unless none s e p = replayed (record { events = s.events ++ e ∷ []; projection = p })

-- The event with the graph that its test yields; a failure lies in the event.
abbrev pub accepted_with :
    Snapshot → State → WorkflowEvent → (WorkflowEvent → Projection) → Replayed
accepted_with (refused d) s e project =
    replay_failure (record { code = d.code; path = index (length s.events) ∷ d.path })
accepted_with no_graph s e project =
    let f = record e { content = record e.content { initiative_graph = none } } in
    accepted_unless none s f (project f)
accepted_with (snapshot graph) s e project =
    let f = record e { content = record e.content { initiative_graph = some graph } } in
    accepted_unless none s f (project f)

abbrev pub graph_request : State → Content → ℕ → DependencyGraph → GraphRequest
graph_request s e expected graph = record {
  contract_version = 1;
  task_id = e.task_id;
  expected_version = s.projection.version;
  expected_graph_version = expected;
  graph = graph;
  event = metadata_of e;
}

-- An event without a graph does not pass validateReplayEvent.
abbrev pub replay_graph_revision : State → WorkflowEvent → ℕ → Option DependencyGraph → Replayed
replay_graph_revision s e expected none = replay_failure (event_failure (length s.events))
replay_graph_revision s e expected (some graph) =
    accepted_with
      (validate_initiative_graph_revision_request true s (graph_request s e.content expected graph)
        true)
      s e (touch s.projection)

abbrev pub replay_transition : Host → State → WorkflowEvent → Option Diagnostic → Replayed
replay_transition host s e (some d) = replay_failure d
replay_transition host s e none =
    accepted_with
      (validate_initiative_graph_transition s.projection s.events e.content.to
        e.content.initiative_graph)
      s e (project_transition_event s.projection)

-- The part of the loop's body that the type of the event selects.
unfoldable pub replay_payload : Host → State → WorkflowEvent → Payload → Replayed
replay_payload host s e (task_created task) = replay_failure (event_failure (length s.events))
replay_payload host s e route_escalated =
    accepted_unless
      (unless (is_escalation_envelope e.content s.projection) (event_failure (length s.events))) s e
      (project_route_escalated_event s.projection e)
replay_payload host s e (baseline_adopted identity adopted) =
    accepted_unless
      (unless (keeps_position e.content s.projection) (event_failure (length s.events))) s e
      (project_baseline_adopted_event s.projection e)
replay_payload host s e (context_manifest_changed phase path identity change) =
    accepted_unless
      (unless (keeps_position e.content s.projection) (event_failure (length s.events))) s e
      (project_context_manifest_changed_event s.projection e phase path)
replay_payload host s e (tracker_synchronized change reference) =
    accepted_unless
      (unless (keeps_position e.content s.projection) (event_failure (length s.events))) s e
      (project_tracker_synchronized_event s.projection e reference)
replay_payload host s e (build_plan_changed change material) =
    accepted_unless (plan_replay_failure host s e.content change material) s e
      (touch s.projection e)
replay_payload host s e (initiative_graph_revised expected) =
    replay_graph_revision s e expected e.content.initiative_graph
replay_payload host s e (phase_execution_dispatched identity binding) =
    accepted_unless (dispatch_replay_failure s e.content identity binding) s e
      (touch s.projection e)
replay_payload host s e (phase_execution_result_accepted result) =
    accepted_unless (result_replay_failure s e.content result) s e (touch s.projection e)
replay_payload host s e workflow_transitioned =
    replay_transition host s e (transition_replay_failure host s e.content)

abbrev pub replay_admitted : Option Diagnostic → Replayed → Replayed
replay_admitted (some d) r = replay_failure d
replay_admitted none r = r

-- The loop's body after the first event.
unfoldable pub replay_event : Host → State → WorkflowEvent → Replayed
replay_event host s e =
    replay_admitted (admission_failure host s.events e) (replay_payload host s e e.content.payload)

abbrev pub created_by : WorkflowEvent → Payload → Replayed
created_by e (task_created task) =
    replayed (record { events = e ∷ []; projection = project_created_event task e })
created_by e _ = replay_failure (event_failure 0)

-- The loop's body at the first event.
unfoldable pub replay_first : Host → WorkflowEvent → Replayed
replay_first host e =
    replay_admitted
      (admission_failure host [] e
        or_else unless (is_valid_creation_event e.content) (event_failure 0))
      (created_by e e.content.payload)

unfoldable pub replay_rest : Host → Replayed → List WorkflowEvent → Replayed
replay_rest host r [] = r
replay_rest host (replay_failure d) (e ∷ events) = replay_failure d
replay_rest host (replayed s) (e ∷ events) = replay_rest host (replay_event host s e) events

unfoldable pub replay_workflow_events : Host → List WorkflowEvent → Replayed
replay_workflow_events host [] =
    replay_failure (record { code = event_sequence_invalid; path = index 0 ∷ [] })
replay_workflow_events host (e ∷ events) = replay_rest host (replay_first host e) events

pub Projection-discrete : Discrete Projection
Projection-discrete = hlevel (string_discrete, ℕ_discrete)

abbrev pub same_projection : Projection → Replayed → Bool
same_projection p (replay_failure d) = false
same_projection p (replayed s) = decided (Projection-discrete s.projection p)

-- stateMatchesAcceptedHistory
unfoldable pub state_matches_accepted_history : Host → State → Bool
state_matches_accepted_history host s =
    same_projection s.projection (replay_workflow_events host s.events)
