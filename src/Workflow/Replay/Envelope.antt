-- ===== src/Workflow/Replay/Envelope.antt =====
-- What the replay asks of an event by its type, of the fields around its payload
-- (packages/core/src/workflow.ts).
use say_hi.Prelude.{
  ◌==◌, str_eq, codes, Bool, true, false, not, ◌&&◌, Option, none, some, List, [], ◌∷◌, is_none,
  is_empty,
}
use say_hi.Records.{
  quick, build, triage, explore, plan, active, user, Actor, GateAcceptance, eq_route, eq_phase,
  eq_lifecycle, eq_actor_kind,
}
use say_hi.Workflow.Events.{
  Position, TaskDefinition, Projection, PlanChange, recorded, rejected, PlanMaterial, Payload,
  task_created, Content, WorkflowEvent, State, Host,
}
use say_hi.Workflow.Routes.{positions_equal, position_of}
use say_hi.Workflow.Gates.{validate_route_gate}
use say_hi.Workflow.History.{current_build_plan_change, has_frozen_implement_context}
use say_hi.Workflow.Transition.{same_strings}
use say_hi.Workflow.Start.{StartRequest, validate_start_request}
use say_hi.Workflow.Payloads.{is_absent, is_given, metadata_of}
use say_hi.Workflow.Changes.Plan.{latest_build_plan_change, rejects_recorded, was_rejected}

abbrev pub gate_of : List GateAcceptance → Option GateAcceptance
gate_of [] = none
gate_of (gate ∷ gates) = some gate

abbrev pub is_single : List GateAcceptance → Bool
is_single (gate ∷ []) = true
is_single _ = false

abbrev pub start_request : Content → TaskDefinition → StartRequest
start_request e task = record {
  contract_version = 1;
  task = task;
  route_gate = gate_of e.gates;
  event = metadata_of e;
}

abbrev pub creates : Content → Payload → Bool
creates e (task_created task) =
    str_eq e.task_id task.id
    && eq_route e.route task.route
    && is_none (validate_start_request (start_request e task))
creates e _ = false

-- isValidCreationEvent
unfoldable pub is_valid_creation_event : Content → Bool
is_valid_creation_event e =
    is_absent e.from
    && e.sequence == 1
    && is_none e.previous_chain_digest
    && eq_lifecycle e.to.lifecycle active
    && eq_phase e.to.phase triage
    && not (is_empty e.to.step)
    && is_single e.gates
    && is_none (validate_route_gate e.route (gate_of e.gates))
    && same_strings e.blockers []
    && not (is_given e.initiative_graph)
    && creates e e.payload

-- `positionsEqual(from, to)`, of a `from` that may be null.
abbrev pub is_position : Option Position → Position → Bool
is_position none to = false
is_position (some from) to = positions_equal from to

abbrev pub is_empty_list {ℓ} : {A : Type ℓ} → List A → Bool
is_empty_list [] = true
is_empty_list (a ∷ rest) = false

-- The fields by which an event keeps the position of the Task.
abbrev pub keeps : Content → Projection → Bool
keeps e p =
    is_position e.from (position_of p)
    && positions_equal e.to (position_of p)
    && is_empty_list e.gates
    && not (is_given e.initiative_graph)
    && same_strings e.blockers p.blockers

-- The test of baseline_adopted, of context_manifest_changed (whose path validateReplayEvent has looked
-- at) and of tracker_synchronized (isTrackerSynchronizationEventEnvelope).
unfoldable pub keeps_position : Content → Projection → Bool
keeps_position e p = str_eq e.task_id p.task.id && eq_route e.route p.task.route && keeps e p

unfoldable pub is_escalation_envelope : Content → Projection → Bool
is_escalation_envelope e p =
    str_eq e.task_id p.task.id
    && eq_route p.task.route quick
    && eq_lifecycle p.lifecycle active
    && eq_route e.route build
    && is_position e.from (position_of p)
    && eq_lifecycle e.to.lifecycle active
    && eq_phase e.to.phase explore
    && str_eq e.to.step "ready"
    && is_empty_list e.blockers
    && not (is_given e.initiative_graph)
    && is_single e.gates
    && is_none (validate_route_gate build (gate_of e.gates))

unfoldable pub is_phase_execution_event_envelope : Content → Projection → Bool
is_phase_execution_event_envelope e p =
    str_eq e.task_id p.task.id
    && eq_route e.route build
    && eq_route p.task.route build
    && eq_lifecycle p.lifecycle active
    && keeps e p

-- The first two tests of a `build_plan_changed` event.
unfoldable pub is_plan_envelope : Host → State → Content → PlanMaterial → Bool
unfolding codes
is_plan_envelope host s e material =
    str_eq e.task_id s.projection.task.id
    && eq_route e.route build
    && eq_route s.projection.task.route build
    && eq_lifecycle s.projection.lifecycle active
    && eq_phase s.projection.phase plan
    && keeps e s.projection
    && str_eq material.requirements_identity (host.intent_identity s.projection.task.intent)
    && str_eq material.context_manifest_path "context/implement.jsonl"
    && has_frozen_implement_context s.events (codes material.context_manifest_identity)

unfoldable pub is_plan_sequence : List WorkflowEvent → Actor → PlanChange → PlanMaterial → Bool
is_plan_sequence events actor rejected material =
    eq_actor_kind actor.kind user && rejects_recorded (current_build_plan_change events) material
is_plan_sequence events actor recorded material =
    not (was_rejected (latest_build_plan_change events material))

-- What makes a transition go on from the projection.
unfoldable pub continues : Content → Projection → Bool
continues e p =
    str_eq e.task_id p.task.id
    && eq_route e.route p.task.route
    && is_position e.from (position_of p)
