-- ===== src/Workflow/Guards.antt =====
-- The tests that a transition passes besides the Route's table and its Gates
-- (packages/core/src/workflow.ts).
use say_hi.Prelude.{
  leb, ltb, ◌==◌, String, str_eq, Bool, true, false, not, ◌&&◌, ◌||◌, Option, none, some, List, [],
  ◌∷◌, any, is_none, length, ◌or_else◌, unless, if◌then◌else◌,
}
use say_hi.Records.{
  build, initiative, plan, implement, review, integrate, finish, active, blocked, cancelled, user,
  Actor, GateAcceptance, DependencyGraph, field, JsonPath, eq_route, eq_phase, eq_lifecycle,
  eq_actor_kind,
}
use say_hi.DependencyGraph.Validate as Graph
use say_hi.Workflow.Events.{
  Position, Projection, PlanChange, recorded, rejected, PlanMaterial, standards_review, spec_review,
  ExecutionResult, WorkflowEvent, Host, Code, graph_code, request_invalid, transition_illegal,
  gate_unmet, gate_evidence_invalid, repair_exhausted, graph_invalid, Diagnostic,
}
use say_hi.Workflow.History.{
  count_repair_attempts, current_build_plan_change, has_frozen_implement_context, PlanApproval,
  build_plan_approval_evidence, matches_build_plan_material, current_build_implementation_result,
  current_build_review_result, has_blocking_review_finding, has_succeeded,
}

abbrev pub at : Code → String → Diagnostic
at code name = record { code = code; path = field name ∷ [] }

abbrev pub is_recorded : PlanChange → Bool
is_recorded recorded = true
is_recorded rejected = false

abbrev pub is_current_plan :
    Host → Projection → PlanApproval → Option (PlanChange × PlanMaterial) → Bool
is_current_plan host p approval none = false
is_current_plan host p approval (some change) =
    matches_build_plan_material change.1 approval (host.intent_identity p.task.intent)
    && is_recorded change.0

abbrev pub approval_failure :
    Host → Projection → List WorkflowEvent → Option PlanApproval → Option Diagnostic
approval_failure host p events none = some (at gate_evidence_invalid "gates")
approval_failure host p events (some approval) =
    unless (is_current_plan host p approval (current_build_plan_change events))
      (at gate_evidence_invalid "gates")
    or_else unless (has_frozen_implement_context events approval.context_manifest_identity)
        (at gate_evidence_invalid "gates")

-- The guard of a Build that goes from one active Phase to another.
abbrev pub build_moves : Projection → Position → Bool
build_moves p to =
    eq_route p.task.route build
    && eq_lifecycle p.lifecycle active
    && eq_lifecycle to.lifecycle active

unfoldable pub validate_build_plan_implementation_transition :
    Host
    → Projection
    → List WorkflowEvent
    → Position
    → Actor
    → List GateAcceptance
    → Option Diagnostic
validate_build_plan_implementation_transition host p events to actor gates =
    if build_moves p to && eq_phase p.phase plan && eq_phase to.phase implement
    then (unless (eq_actor_kind actor.kind user) (record {
      code = gate_evidence_invalid;
      path = field "event" ∷ field "actor" ∷ field "kind" ∷ [];
    })
        or_else approval_failure host p events (build_plan_approval_evidence gates))
    else none

unfoldable pub validate_build_implementation_result_transition :
    Projection → List WorkflowEvent → Position → Option Diagnostic
validate_build_implementation_result_transition p events to =
    if build_moves p to && eq_phase p.phase implement && eq_phase to.phase review
    then unless (not (is_none (current_build_implementation_result events)))
        (at transition_illegal "to")
    else none

-- A Review result that assesses a fingerprint.
abbrev pub assesses : String → ExecutionResult → Bool
assesses fingerprint result =
    str_eq result.base_fingerprint fingerprint
    && str_eq result.observed_final_fingerprint fingerprint

-- The verdict on two Review results: `finishes` is `to.phase === "finish"`.
abbrev pub verdict : Bool → ExecutionResult → ExecutionResult → Bool
verdict true standards spec =
    not (has_blocking_review_finding standards || has_blocking_review_finding spec)
    && (has_succeeded standards.outcome && has_succeeded spec.outcome)
verdict false standards spec =
    has_blocking_review_finding standards || has_blocking_review_finding spec

abbrev pub reviews_failure :
    Bool
    → Option ExecutionResult
    → Option ExecutionResult
    → Option ExecutionResult
    → Option Diagnostic
reviews_failure finishes (some implementation) (some standards) (some spec) =
    unless
      (assesses implementation.observed_final_fingerprint standards
        && assesses implementation.observed_final_fingerprint spec)
      (at transition_illegal "to")
    or_else unless (verdict finishes standards spec) (at transition_illegal "to")
reviews_failure finishes _ _ _ = some (at transition_illegal "to")

unfoldable pub validate_build_review_result_transition :
    Projection → List WorkflowEvent → Position → Option Diagnostic
validate_build_review_result_transition p events to =
    if build_moves p to
      && eq_phase p.phase review
      && (eq_phase to.phase finish || eq_phase to.phase implement)
    then reviews_failure (eq_phase to.phase finish) (current_build_implementation_result events)
        (current_build_review_result standards_review events)
        (current_build_review_result spec_review events)
    else none

abbrev pub given : Option (List String) → List String
given none = []
given (some blockers) = blockers

abbrev pub preserves_position : Projection → Position → Bool
preserves_position p to =
    eq_lifecycle to.lifecycle blocked
    || eq_lifecycle to.lifecycle cancelled
    || eq_lifecycle p.lifecycle blocked && eq_lifecycle to.lifecycle active

unfoldable pub validate_transition_invariants :
    Projection → List WorkflowEvent → Position → Option (List String) → Option Diagnostic
validate_transition_invariants p events to blockers =
    unless (not (preserves_position p to) || eq_phase to.phase p.phase && str_eq to.step p.step)
      (at request_invalid "to")
    or_else unless (not (eq_lifecycle to.lifecycle blocked) || leb 1 (length (given blockers)))
        (at request_invalid "blockers")
    or_else unless (eq_lifecycle to.lifecycle blocked || length (given blockers) == 0)
        (at request_invalid "blockers")
    or_else unless
        (not (
            eq_lifecycle p.lifecycle active
            && eq_phase p.phase review
            && eq_lifecycle to.lifecycle active
            && eq_phase to.phase implement)
          || ltb (count_repair_attempts events) p.task.policies.max_repair_attempts)
        (at repair_exhausted "to")

-- DependencyGraph | WorkflowDiagnostic | null
pub data Snapshot : Type 0 where
  no_graph : Snapshot
  snapshot : DependencyGraph → Snapshot
  refused : Diagnostic → Snapshot

-- dependencyGraphWorkflowDiagnostic: the paths of these diagnostics start with `$.graph`.
abbrev pub graph_path : JsonPath → JsonPath
graph_path [] = field "initiativeGraph" ∷ []
graph_path (s ∷ path) = field "initiativeGraph" ∷ path

abbrev pub dependency_graph_workflow_diagnostic : Graph.Diagnostic → Diagnostic
dependency_graph_workflow_diagnostic d = record {
  code = graph_code d.code;
  path = graph_path d.path;
}

abbrev graph_failure : String → Diagnostic
graph_failure name = record {
  code = graph_invalid;
  path = field "initiativeGraph" ∷ field name ∷ [];
}

abbrev pub is_id : Option String → String → Bool
is_id none id = false
is_id (some s) id = str_eq id s

abbrev pub binding_failure : DependencyGraph → Projection → List WorkflowEvent → Option Diagnostic
binding_failure graph p events =
    unless (is_id p.task.initiative_graph_id graph.id) (graph_failure "id")
    or_else unless (str_eq graph.initiative_task_id p.task.id) (graph_failure "initiativeTaskId")
    or_else unless (any (λ e. str_eq e.content.event_id graph.updated_by_event) events)
        (graph_failure "updatedByEvent")

abbrev pub bound : DependencyGraph → Option Diagnostic → Snapshot
bound graph none = snapshot graph
bound graph (some d) = refused d

abbrev pub snapshot_from : Projection → List WorkflowEvent → Graph.Validated → Snapshot
snapshot_from p events (Graph.failure d) = refused (dependency_graph_workflow_diagnostic d)
snapshot_from p events (Graph.valid graph) = bound graph (binding_failure graph p events)

unfoldable pub validate_initiative_graph_snapshot :
    DependencyGraph → Projection → List WorkflowEvent → Snapshot
validate_initiative_graph_snapshot graph p events =
    snapshot_from p events (Graph.validate_dependency_graph graph)

abbrev pub enters_integrate : Projection → Position → Bool
enters_integrate p to =
    eq_route p.task.route initiative && eq_phase p.phase plan && eq_phase to.phase integrate

abbrev pub snapshot_of : Bool → Option DependencyGraph → Projection → List WorkflowEvent → Snapshot
snapshot_of false none p events = no_graph
snapshot_of false (some graph) p events = refused (at request_invalid "initiativeGraph")
snapshot_of true none p events = refused (at gate_unmet "initiativeGraph")
snapshot_of true (some graph) p events = validate_initiative_graph_snapshot graph p events

unfoldable pub validate_initiative_graph_transition :
    Projection → List WorkflowEvent → Position → Option DependencyGraph → Snapshot
validate_initiative_graph_transition p events to graph =
    snapshot_of (enters_integrate p to) graph p events
