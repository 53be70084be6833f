-- ===== src/Workflow/Changes/Graph.antt =====
-- reviseInitiativeGraph and reviseInitiativeGraphWithRepairs (packages/core/src/workflow.ts).
use say_hi.Prelude.{
  ℕ, suc, ◌+◌, ◌==◌, leb, String, str_eq, string_discrete, Bool, true, false, not, ◌&&◌, Option,
  none, some, List, [], ◌∷◌, all, find, ◌or_else◌, unless, if◌then◌else◌,
}
use say_hi.Records.{
  initiative, integrate, active, user, Node, DependencyGraph, RepairContext, field, index, JsonPath,
  is_safe, eq_route, eq_phase, eq_lifecycle, eq_actor_kind,
}
use say_hi.DependencyGraph.Cycle.{contains}
use say_hi.DependencyGraph.Validate as Graph
use say_hi.Workflow.Events.{
  Projection, initiative_graph_revised, Content, WorkflowEvent, State, Host, request_invalid,
  event_id_conflict, transition_illegal, version_stale, gate_unmet, graph_invalid, Diagnostic,
}
use say_hi.Workflow.History.{newest_first}
use say_hi.Workflow.Guards.{
  at, Snapshot, no_graph, snapshot, refused, dependency_graph_workflow_diagnostic,
}
use say_hi.Workflow.Transition.{
  validate_event_metadata, decided, same_graph, Result, failure, has_key,
}
use say_hi.Workflow.Changes.{
  change_event, touch, matches_request, looks_back, appended, unless_refused, retry_or,
}
use say_hi.Workflow.Changes.Requests.{GraphRequest, validate_current}

abbrev pub graph_from : List WorkflowEvent → Option DependencyGraph
graph_from [] = none
graph_from (e ∷ older) =
    let rest = graph_from older in
    elim e.content.initiative_graph [ none ↦ rest | some graph ↦ some graph ]

unfoldable pub latest_initiative_graph : List WorkflowEvent → Option DependencyGraph
latest_initiative_graph events = graph_from (newest_first events [])

pub RepairContext-discrete : Discrete RepairContext
RepairContext-discrete = hlevel string_discrete

abbrev pub same_repair : Option RepairContext → RepairContext → Bool
same_repair none r = false
same_repair (some q) r = decided (RepairContext-discrete r q)

abbrev pub node_of : List Node → String → Option Node
node_of nodes id = find (λ n. str_eq n.task_id id) nodes

-- A node that repairs, and that did not repair in just this way before.
abbrev pub introduces_repair : List Node → Node → Bool
introduces_repair current node = elim node.repair [
  | none ↦ false
  | some repair ↦ elim (node_of current node.task_id) [
    | none ↦ true
    | some previous ↦ not (same_repair previous.repair repair)
  ]
]

abbrev pub revision_failure : JsonPath → Diagnostic
revision_failure path = record { code = graph_invalid; path = field "graph" ∷ path }

-- The index of the first node that introduces a repair.
unfoldable pub no_introduced_repair : List Node → ℕ → List Node → Option Diagnostic
no_introduced_repair current i [] = none
no_introduced_repair current i (node ∷ nodes) =
    unless (not (introduces_repair current node))
      (revision_failure (field "nodes" ∷ index i ∷ field "repair" ∷ []))
    or_else no_introduced_repair current (suc i) nodes

-- What the revision keeps of the graph that is accepted now.
unfoldable pub validate_succession :
    State → GraphRequest → Bool → DependencyGraph → DependencyGraph → Option Diagnostic
validate_succession state r allow_repair_nodes graph current =
    unless (r.expected_graph_version == current.version) (at version_stale "expectedGraphVersion")
    or_else unless (str_eq graph.id current.id) (revision_failure (field "id" ∷ []))
    or_else unless (str_eq graph.initiative_task_id state.projection.task.id)
        (revision_failure (field "initiativeTaskId" ∷ []))
    or_else unless (graph.version == current.version + 1) (revision_failure (field "version" ∷ []))
    or_else unless (str_eq graph.updated_by_event r.event.event_id)
        (revision_failure (field "updatedByEvent" ∷ []))
    or_else unless (all (λ n. contains (Graph.task_ids graph.nodes) n.task_id) current.nodes)
        (revision_failure (field "nodes" ∷ []))
    or_else (if allow_repair_nodes then none else no_introduced_repair current.nodes 0 graph.nodes)

abbrev pub succession_failure :
    State → GraphRequest → Bool → DependencyGraph → Option DependencyGraph → Option Diagnostic
succession_failure state r allow graph none = some (revision_failure [])
succession_failure state r allow graph (some current) =
    validate_succession state r allow graph current

abbrev pub kept : DependencyGraph → Option Diagnostic → Snapshot
kept graph none = snapshot graph
kept graph (some d) = refused d

abbrev pub revised : State → GraphRequest → Bool → Graph.Validated → Snapshot
revised state r allow (Graph.failure d) = refused (dependency_graph_workflow_diagnostic d)
revised state r allow (Graph.valid graph) =
    kept graph (succession_failure state r allow graph (latest_initiative_graph state.events))

abbrev pub in_active_integrate : Projection → Bool
in_active_integrate p =
    eq_route p.task.route initiative
    && eq_lifecycle p.lifecycle active
    && eq_phase p.phase integrate

-- The tests of the request before its graph.
unfoldable pub validate_revision : Bool → State → GraphRequest → Option Diagnostic
validate_revision is_consistent state r =
    validate_current is_consistent state r.contract_version r.task_id r.expected_version
    or_else unless (all (λ e. not (str_eq e.content.event_id r.event.event_id)) state.events)
        (record { code = event_id_conflict; path = field "event" ∷ field "eventId" ∷ [] })
    or_else unless (in_active_integrate state.projection) (at transition_illegal "state")
    or_else unless (is_safe r.expected_graph_version && leb 1 r.expected_graph_version)
        (at request_invalid "expectedGraphVersion")
    or_else unless (eq_actor_kind r.event.actor.kind user)
        (record { code = gate_unmet; path = field "event" ∷ field "actor" ∷ field "kind" ∷ [] })

abbrev pub revised_unless : Option Diagnostic → Snapshot → Snapshot
revised_unless none graph = graph
revised_unless (some d) graph = refused d

-- validateInitiativeGraphRevisionRequest
unfoldable pub validate_initiative_graph_revision_request :
    Bool → State → GraphRequest → Bool → Snapshot
validate_initiative_graph_revision_request is_consistent state r allow_repair_nodes =
    revised_unless (validate_revision is_consistent state r)
      (revised state r allow_repair_nodes (Graph.validate_dependency_graph r.graph))

unfoldable pub matches_initiative_graph_revision_intent : GraphRequest → Content → Bool
matches_initiative_graph_revision_intent r e = elim e.payload [
  | initiative_graph_revised expected ↦
      matches_request e r.task_id r.expected_version r.event
      && expected == r.expected_graph_version
      && same_graph e.initiative_graph (some r.graph)
  | _ ↦ false
]

abbrev pub graph_event : Host → State → GraphRequest → DependencyGraph → WorkflowEvent
graph_event host state r graph =
    change_event host state r.event (initiative_graph_revised r.expected_graph_version) (some graph)

-- `no_graph` never comes: see `validate_initiative_graph_revision_request`.
abbrev pub with_graph : Host → State → GraphRequest → Snapshot → Result
with_graph host state r (refused d) = failure state d
with_graph host state r no_graph = failure state (revision_failure [])
with_graph host state r (snapshot graph) =
    appended state (graph_event host state r graph)
      (touch state.projection (graph_event host state r graph))

-- reviseInitiativeGraphInternal; `allow_repair_nodes` is true for reviseInitiativeGraphWithRepairs.
unfoldable pub revise_initiative_graph : Host → Bool → State → GraphRequest → Bool → Result
revise_initiative_graph host c state r allow_repair_nodes =
    unless_refused (validate_event_metadata (field "event" ∷ []) r.event) state (
      retry_or (looks_back c state r.contract_version r.task_id)
        (find (has_key r.event.idempotency_key) state.events)
        (matches_initiative_graph_revision_intent r) state
        (with_graph host state r
          (validate_initiative_graph_revision_request c state r allow_repair_nodes)))
