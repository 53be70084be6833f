-- ===== src/Workflow/Escalation.antt =====
-- The escalation of a Quick to a Build (escalateQuickToBuild and what it calls,
-- packages/core/src/workflow.ts). Whether the state matches its accepted history is an argument.
pub mod Sound
use say_hi.Prelude.{
  ℕ, ◌+◌, ◌==◌, String, str_eq, Bool, true, false, not, ◌&&◌, Option, none, some, List, [], ◌∷◌,
  ◌++◌, find, ◌or_else◌, unless, if◌then◌else◌,
}
use say_hi.Records.{
  quick, build, explore, active, GateAcceptance, Metadata, field, eq_route, eq_lifecycle,
  eq_actor_kind,
}
use say_hi.Workflow.Events.{
  Projection, Payload, route_escalated, Content, WorkflowEvent, State, Host,
  contract_version_unsupported, task_mismatch, state_inconsistent, version_stale,
  transition_illegal, event_idempotency_conflict, Diagnostic,
}
use say_hi.Workflow.Routes.{position_of}
use say_hi.Workflow.Gates.{validate_route_gate}
use say_hi.Workflow.Guards.{at}
use say_hi.Workflow.Transition.{
  workflow_contract_version, validate_event_metadata, signed, event_head, tail_digest, same_gates,
  Result, ok, failure, has_key,
}

-- EscalateQuickToBuildRequest
pub record EscalationRequest : Type 0 where
  pub contract_version : ℕ
  pub task_id : String
  pub expected_version : ℕ
  pub route_gate : GateAcceptance
  pub event : Metadata

-- validateQuickEscalationRequest
unfoldable pub validate_quick_escalation_request :
    Bool → State → EscalationRequest → Option Diagnostic
validate_quick_escalation_request is_consistent state request =
    unless (request.contract_version == workflow_contract_version)
      (at contract_version_unsupported "contractVersion")
    or_else unless (str_eq request.task_id state.projection.task.id) (at task_mismatch "taskId")
    or_else unless is_consistent (at state_inconsistent "state")
    or_else unless (request.expected_version == state.projection.version)
        (at version_stale "expectedVersion")
    or_else unless
        (eq_route state.projection.task.route quick
          && eq_lifecycle state.projection.lifecycle active)
        (at transition_illegal "state")
    or_else validate_route_gate build (some request.route_gate)
    or_else validate_event_metadata (field "event" ∷ []) request.event

abbrev pub is_escalation : Payload → Bool
is_escalation route_escalated = true
is_escalation _ = false

unfoldable pub matches_route_escalation_intent : Content → EscalationRequest → Bool
matches_route_escalation_intent e request =
    str_eq e.task_id request.task_id
    && eq_route e.route build
    && e.sequence == request.expected_version + 1
    && same_gates e.gates (request.route_gate ∷ [])
    && str_eq e.reason request.event.reason
    && eq_actor_kind e.actor.kind request.event.actor.kind
    && str_eq e.actor.id request.event.actor.id
    && str_eq e.actor.session_ref request.event.actor.session_ref

unfoldable pub escalation_event : Host → State → EscalationRequest → WorkflowEvent
escalation_event host state request = signed host (record {
  event_id = request.event.event_id;
  task_id = state.projection.task.id;
  route = build;
  sequence = state.projection.version + 1;
  previous_chain_digest = tail_digest state.events;
  payload = route_escalated;
  from = some (position_of state.projection);
  to = record { lifecycle = active; phase = explore; step = "ready" };
  actor = request.event.actor;
  gates = request.route_gate ∷ [];
  blockers = [];
  initiative_graph = none;
  reason = request.event.reason;
  idempotency_key = request.event.idempotency_key;
  occurred_at = request.event.occurred_at;
})

unfoldable pub project_route_escalated_event : Projection → WorkflowEvent → Projection
project_route_escalated_event p e = record {
  task = record p.task { route = build };
  lifecycle = e.content.to.lifecycle;
  phase = e.content.to.phase;
  step = e.content.to.step;
  version = e.content.sequence;
  event_head = event_head e;
  blockers = [];
  external_references = p.external_references;
  created_at = p.created_at;
  updated_at = e.content.occurred_at;
}

abbrev pub escalated : Host → State → EscalationRequest → State
escalated host state request =
    let e = escalation_event host state request in
    record {
      events = state.events ++ e ∷ [];
      projection = project_route_escalated_event state.projection e;
    }

abbrev pub escalated_if : Host → State → EscalationRequest → Option Diagnostic → Result
escalated_if host state request (some d) = failure state d
escalated_if host state request none =
    ok (escalated host state request) (escalation_event host state request)

abbrev pub repeated : State → EscalationRequest → WorkflowEvent → Result
repeated state request e =
    if is_escalation e.content.payload && matches_route_escalation_intent e.content request
    then ok state e
    else failure state (record {
      code = event_idempotency_conflict;
      path = field "event" ∷ field "idempotencyKey" ∷ [];
    })

-- The retry is looked at only where the version, the Task and the history are right.
abbrev pub is_retry : Bool → State → EscalationRequest → Bool
is_retry is_consistent state request =
    request.contract_version == workflow_contract_version
    && str_eq request.task_id state.projection.task.id
    && is_consistent

abbrev pub answered : Bool → Host → Bool → State → EscalationRequest → Option WorkflowEvent → Result
answered true host c state request (some e) = repeated state request e
answered _ host c state request _ =
    escalated_if host state request (validate_quick_escalation_request c state request)

unfoldable pub escalate_quick_to_build : Host → Bool → State → EscalationRequest → Result
escalate_quick_to_build host is_consistent state request =
    answered (is_retry is_consistent state request) host is_consistent state request
      (find (has_key request.event.idempotency_key) state.events)
