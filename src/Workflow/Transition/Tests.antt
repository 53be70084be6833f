-- ===== src/Workflow/Transition/Tests.antt =====
-- Transitions of concrete Tasks.
use say_hi.Prelude.{
  ◌⊎◌, ◌++◌, ◌+◌, false, ℕ, ◌≡◌, refl, ◌↔◌, String, codes, is_blank, is_empty, true, false, Option,
  none, some, List, [], ◌∷◌, arith,
}
use say_hi.Records.{
  field, Route, quick, build, initiative, Phase, triage, plan, implement, review, integrate, finish,
  active, Gate, to_route, to_plan, to_review, initiative_ready, EvidenceKind, human_approval,
  review_evidence, workflow, GateAcceptance, user, Actor, TaskScope, DependencyGraph, pos,
}
use say_hi.Validation.{is_identifier, is_timestamp, is_contract_identity}
use say_hi.DependencyGraph.Validate as Graph
use say_hi.DependencyGraph.Cycle as Cycle
use say_hi.DependencyGraph.Accepts.{IsWellFormed, validate_dependency_graph-IsWellFormed}
use say_hi.Workflow.Events.{
  approved_spec, Diagnostic, state_inconsistent, Position, never, TaskDefinition, Payload,
  task_created, workflow_transitioned, phase_execution_result_accepted, ExecutionResult, succeeded,
  advisory, AgentRole, implementation, standards_review, spec_review, WorkflowEvent, State,
  TransitionRequest, Host,
}
use say_hi.Workflow.Routes.{transition, find_transition}
use say_hi.Workflow.Routes.Table.{is_permitted, find_transition-is_permitted}
use say_hi.Workflow.Gates.{declared_once, accepted, required_met, declared_expected, validate_gates}
use say_hi.Workflow.Gates.Exact.{Satisfies, validate_gates-exact}
use say_hi.Workflow.History.{
  count_repair_attempts, current_build_implementation_result, current_build_review_result,
}
use say_hi.Workflow.Guards.{
  validate_build_plan_implementation_transition, validate_build_implementation_result_transition,
  validate_build_review_result_transition, validate_transition_invariants,
  validate_initiative_graph_transition, validate_initiative_graph_snapshot,
}
use say_hi.Workflow.Transition.{
  is_workflow_actor, validate_event_metadata, validate_transition_request, guard_failure,
  admit_transition, transition_event, ok, after, transition_workflow, signed, event_head,
}
use say_hi.Workflow.Transition.{failure}
use say_hi.Workflow.Transition.Optimistic.{transition_workflow-ok, transition_workflow-failure}
use say_hi.Workflow.Transition.Sound.{IsSound, transition_workflow-IsSound}
use say_hi.Workflow.Transition.Retry.{transition_workflow-retry}
use say_hi.Workflow.Transition.Reviewed.{transition_workflow-IsReviewed, IsReviewed}
use say_hi.Workflow.Transition.Guarded.{transition_workflow-IsBound, IsBound}

-- A digest that is the event's id.
abbrev host : Host
host = record {
  intent_identity = λ intent. "intent";
  event_digest = λ c. c.event_id;
  new_url = λ s. none;
}

abbrev no_scope : TaskScope
no_scope = record { files = []; apis = []; schemas = []; locks = [] }

abbrev task : Route → TaskDefinition
task route = record {
  id = "task";
  title = "Title";
  route = route;
  parent_task_id = none;
  initiative_graph_id = some "graph";
  intent = record { goals = "goal" ∷ []; non_goals = []; acceptance_criteria = "works" ∷ [] };
  scope = no_scope;
  baseline_ref = "baseline.json";
  contexts = [];
  policies = record { commit = never; max_repair_attempts = 1 };
}

abbrev at : Phase → Position
at phase = record { lifecycle = active; phase = phase; step = "ready" }

abbrev person : Actor
person = record { kind = user; id = "user"; session_ref = "session" }

abbrev gate : Gate → EvidenceKind → GateAcceptance
gate g kind = record { gate = g; evidence = record { kind = kind; reference = "reference" } ∷ [] }

abbrev event :
    Route → String → ℕ → Option String → Payload → Option Position → Position → WorkflowEvent
event route id sequence previous payload from to = signed host (record {
  event_id = id;
  task_id = "task";
  route = route;
  sequence = sequence;
  previous_chain_digest = previous;
  payload = payload;
  from = from;
  to = to;
  actor = person;
  gates = [];
  blockers = [];
  initiative_graph = none;
  reason = "reason";
  idempotency_key = id;
  occurred_at = "2026-01-01T00:00:00Z";
})

abbrev created : Route → WorkflowEvent
created route = event route "e1" 1 none (task_created (task route)) none (at triage)

abbrev state : Route → Phase → ℕ → WorkflowEvent → List WorkflowEvent → State
state route phase version last events = record {
  events = events;
  projection = record {
    task = task route;
    lifecycle = active;
    phase = phase;
    step = "ready";
    version = version;
    event_head = event_head last;
    blockers = [];
    external_references = [];
    created_at = "2026-01-01T00:00:00Z";
    updated_at = "2026-01-01T00:00:00Z";
  };
}

abbrev request : ℕ → Phase → List GateAcceptance → Option DependencyGraph → TransitionRequest
request version phase gates graph = record {
  contract_version = 1;
  task_id = "task";
  expected_version = version;
  to = at phase;
  gates = gates;
  blockers = none;
  initiative_graph = graph;
  event = record {
    event_id = "next";
    actor = person;
    reason = "reason";
    idempotency_key = "next";
    occurred_at = "2026-01-01T00:00:00Z";
  };
}

abbrev started : State
started = state quick triage 1 (created quick) (created quick ∷ [])

abbrev to_work : TransitionRequest
to_work = request 1 implement (gate to_route workflow ∷ []) none

started-ok :
    transition_workflow host true started to_work
    ≡ ok (after host started to_work none) (transition_event host started to_work none)
unfolding transition_workflow validate_transition_request validate_event_metadata is_workflow_actor
    is_identifier is_empty is_blank codes is_timestamp admit_transition find_transition
    validate_gates declared_once accepted required_met declared_expected guard_failure
    validate_build_plan_implementation_transition validate_build_implementation_result_transition
    validate_build_review_result_transition validate_transition_invariants
    validate_initiative_graph_transition
started-ok = refl

started-IsSound : IsSound host started
unfolding count_repair_attempts
started-IsSound = (((refl, refl, refl), tt), refl, ground arith, refl)

transition_workflow-IsSound_example : IsSound host (after host started to_work none)
transition_workflow-IsSound_example =
    transition_workflow-IsSound host true started to_work (after host started to_work none)
      (transition_event host started to_work none) started-IsSound started-ok

transition_workflow-retry_example :
    transition_workflow host false (after host started to_work none) to_work
    ≡ ok (after host started to_work none) (transition_event host started to_work none)
transition_workflow-retry_example =
    transition_workflow-retry host true false started to_work (after host started to_work none)
      (transition_event host started to_work none) refl started-ok

abbrev plan_acceptance : List GateAcceptance
plan_acceptance = gate to_plan human_approval ∷ []

validate_gates-exact_example :
    (validate_gates (to_plan ∷ []) plan_acceptance ≡ none)
    ↔ Satisfies (to_plan ∷ []) plan_acceptance
validate_gates-exact_example = validate_gates-exact (to_plan ∷ []) plan_acceptance

found-route :
    find_transition started.projection (at implement)
    ≡ some (transition active triage active implement (to_route ∷ []))
unfolding find_transition
found-route = refl

find_transition-is_permitted_example : is_permitted quick active triage active implement ≡ true
find_transition-is_permitted_example =
    find_transition-is_permitted started.projection (at implement)
      (transition active triage active implement (to_route ∷ [])) found-route

abbrev digest : String
digest = "sha256:0000000000000000000000000000000000000000000000000000000000000000"

abbrev result : Phase → AgentRole → ExecutionResult
result phase role = record {
  schema_version = 1;
  dispatch_id = "dispatch";
  task_id = "task";
  expected_task_version = 2;
  context_manifest_identity = digest;
  agent_contract_identity = digest;
  artifacts = [];
  evidence = [];
  findings = [];
  phase = phase;
  agent_role = role;
  outcome = succeeded;
  base_fingerprint = digest;
  observed_final_fingerprint = digest;
  review_findings = some (
      record {
        id = "finding";
        severity = advisory;
        subject = approved_spec;
        reference = "spec";
        message = "message";
        remediation = "remediation";
      }
      ∷ []);
}

abbrev standards_event : WorkflowEvent
standards_event =
    event build "e4" 4 (some "e3")
      (phase_execution_result_accepted (result review standards_review)) (some (at review))
      (at review)

abbrev spec_event : WorkflowEvent
spec_event =
    event build "e5" 5 (some "e4") (phase_execution_result_accepted (result review spec_review))
      (some (at review)) (at review)

abbrev reviewed_build : State
reviewed_build = state build review 5 spec_event (
    created build
    ∷ event build "e2" 2 (some "e1")
        (phase_execution_result_accepted (result implement implementation)) (some (at implement))
        (at implement)
    ∷ event build "e3" 3 (some "e2") workflow_transitioned (some (at implement)) (at review)
    ∷ standards_event
    ∷ spec_event
    ∷ [])

abbrev to_end : TransitionRequest
to_end = request 5 finish (gate to_review review_evidence ∷ []) none

reviewed-ok :
    transition_workflow host true reviewed_build to_end
    ≡ ok (after host reviewed_build to_end none) (transition_event host reviewed_build to_end none)
unfolding transition_workflow validate_transition_request validate_event_metadata is_workflow_actor
    is_identifier is_empty is_blank codes is_timestamp admit_transition find_transition
    validate_gates declared_once accepted required_met declared_expected guard_failure
    validate_build_plan_implementation_transition validate_build_implementation_result_transition
    validate_build_review_result_transition validate_transition_invariants
    validate_initiative_graph_transition current_build_implementation_result
    current_build_review_result is_contract_identity
reviewed-ok = refl

transition_workflow-IsReviewed_example : IsReviewed reviewed_build.events
transition_workflow-IsReviewed_example =
    transition_workflow-IsReviewed host true reviewed_build to_end
      (after host reviewed_build to_end none) (transition_event host reviewed_build to_end none)
      reviewed-ok refl refl refl refl

abbrev graph : DependencyGraph
graph = record {
  schema_version = 1;
  id = "graph";
  initiative_task_id = "task";
  version = 1;
  nodes =
      record {
        task_id = "child";
        priority = pos 1;
        resources = no_scope;
        repair = none;
        repair_intent = none;
      }
      ∷ [];
  edges = [];
  updated_by_event = "e1";
}

abbrev planned : State
planned = state initiative plan 1 (created initiative) (created initiative ∷ [])

abbrev to_integrate_request : TransitionRequest
to_integrate_request =
    request 1 integrate (gate to_plan human_approval ∷ gate initiative_ready workflow ∷ [])
      (some graph)

graph-valid : Graph.validate_dependency_graph graph ≡ Graph.valid graph
unfolding Graph.validate_dependency_graph Graph.graph_failure Graph.validate_graph_metadata
    Graph.validate_nodes Graph.validate_edges Graph.validate_repair_predecessors
    Cycle.find_cycle_task_id is_identifier is_empty Cycle.contains Cycle.search Cycle.initial_marks
    Cycle.drain Cycle.enough_fuel Cycle.outgoing Cycle.round
graph-valid = refl

validate_dependency_graph-IsWellFormed_example : (graph ≡ graph) × IsWellFormed graph
validate_dependency_graph-IsWellFormed_example =
    validate_dependency_graph-IsWellFormed graph graph graph-valid

integrate-ok :
    transition_workflow host true planned to_integrate_request
    ≡ ok
        (after host planned to_integrate_request (some graph))
        (transition_event host planned to_integrate_request (some graph))
unfolding transition_workflow validate_transition_request validate_event_metadata is_workflow_actor
    is_blank codes is_timestamp admit_transition find_transition validate_gates declared_once
    accepted required_met declared_expected guard_failure
    validate_build_plan_implementation_transition validate_build_implementation_result_transition
    validate_build_review_result_transition validate_transition_invariants
    validate_initiative_graph_transition validate_initiative_graph_snapshot
    Graph.validate_dependency_graph Graph.graph_failure Graph.validate_graph_metadata
    Graph.validate_nodes Graph.validate_edges Graph.validate_repair_predecessors
    Cycle.find_cycle_task_id is_identifier is_empty Cycle.contains Cycle.search Cycle.initial_marks
    Cycle.drain Cycle.enough_fuel Cycle.outgoing Cycle.round
integrate-ok = refl

transition_workflow-IsBound_example :
    (g : DependencyGraph) × ((transition_event host planned to_integrate_request
        (some graph)).content.initiative_graph
      ≡ some g)
    × IsBound planned.projection planned.events g
transition_workflow-IsBound_example =
    transition_workflow-IsBound host true planned to_integrate_request
      (after host planned to_integrate_request (some graph))
      (transition_event host planned to_integrate_request (some graph)) integrate-ok refl refl

transition_workflow-ok_example :
    (after host started to_work none ≡ started)
    ⊎ ((true ≡ true)
        × (to_work.task_id ≡ started.projection.task.id)
        × (to_work.expected_version ≡ started.projection.version)
        × ((after host started to_work none).projection.version ≡ to_work.expected_version + 1)
        × ((after host started to_work none).events
            ≡ started.events ++ transition_event host started to_work none ∷ []))
transition_workflow-ok_example =
    transition_workflow-ok host true started to_work (after host started to_work none)
      (transition_event host started to_work none) started-ok

abbrev inconsistent : Diagnostic
inconsistent = record { code = state_inconsistent; path = field "state" ∷ [] }

started-failure : transition_workflow host false started to_work ≡ failure started inconsistent
unfolding transition_workflow validate_transition_request
started-failure = refl

transition_workflow-failure_example : started ≡ started
transition_workflow-failure_example =
    transition_workflow-failure host false started to_work started inconsistent started-failure
