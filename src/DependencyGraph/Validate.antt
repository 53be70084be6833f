-- ===== src/DependencyGraph/Validate.antt =====
-- Validation of a Dependency Graph (packages/core/src/dependency-graph.ts). A graph is a typed
-- record here, so that the tests of the shape of JSON values, which it passes, are left out. A
-- diagnostic is its code and its path; the texts for the reader are left out.
use say_hi.Prelude.{
  ℕ, suc, ◌==◌, leb, String, str_eq, Bool, true, false, not, ◌&&◌, ◌||◌, Option, none, some, List,
  [], ◌∷◌, ◌++◌, map, any, all, length, ◌or_else◌, unless, is_blank,
}
use say_hi.Records.{
  Evidence, TaskIntent, RepairContext, blocks, Node, Edge, DependencyGraph, field, index, JsonPath,
  is_safe, is_safe_integer, eq_edge_type,
}
use say_hi.Validation.{is_identifier}
use say_hi.RepositoryPath.{is_repository_relative_path}
use say_hi.DependencyGraph.Cycle.{DirectedEdge, Outcome, exhausted, find_cycle_task_id, contains}

-- DependencyGraphDiagnosticCode, less the codes of a request that is no readable object.
pub data Code : Type 0 where
  schema_version_unsupported graph_invalid node_duplicate edge_invalid edge_reference_missing
        cycle_detected :
      Code

pub record Diagnostic : Type 0 where
  pub code : Code
  pub path : JsonPath

pub data Validated : Type 0 where
  valid : DependencyGraph → Validated
  failure : Diagnostic → Validated

abbrev pub invalid_graph : JsonPath → Diagnostic
invalid_graph path = record { code = graph_invalid; path = field "graph" ∷ path }

abbrev pub invalid_edge : JsonPath → Diagnostic
invalid_edge path = record { code = edge_invalid; path = field "graph" ∷ path }

abbrev pub durable_record_schema_version : ℕ
durable_record_schema_version = 1

unfoldable pub validate_graph_metadata : DependencyGraph → Option Diagnostic
validate_graph_metadata g =
    unless (is_identifier g.id) (invalid_graph (field "id" ∷ []))
    or_else unless (is_identifier g.initiative_task_id)
        (invalid_graph (field "initiativeTaskId" ∷ []))
    or_else unless (is_identifier g.updated_by_event) (invalid_graph (field "updatedByEvent" ∷ []))
    or_else unless (is_safe g.version && leb 1 g.version) (invalid_graph (field "version" ∷ []))

-- `requiresRepositoryPath` is the second argument.
unfoldable pub validate_resource_list : JsonPath → Bool → ℕ → List String → Option Diagnostic
validate_resource_list path requires i [] = none
validate_resource_list path requires i (claim ∷ claims) =
    unless (not requires || is_repository_relative_path claim)
      (invalid_graph (path ++ index i ∷ []))
    or_else validate_resource_list path requires (suc i) claims

unfoldable pub validate_repair_evidence : JsonPath → ℕ → List Evidence → Option Diagnostic
validate_repair_evidence path i [] = none
validate_repair_evidence path i (e ∷ es) =
    unless (not (is_blank e.reference)) (invalid_graph (path ++ field "evidence" ∷ index i ∷ []))
    or_else validate_repair_evidence path (suc i) es

unfoldable pub validate_repair_context : JsonPath → Option RepairContext → Option Diagnostic
unfolding validate_repair_evidence
validate_repair_context path none = none
validate_repair_context path (some r) =
    unless (not (is_blank r.summary)) (invalid_graph (path ++ field "summary" ∷ []))
    or_else unless (leb 1 (length r.evidence)) (invalid_graph (path ++ field "evidence" ∷ []))
    or_else validate_repair_evidence path 0 r.evidence

abbrev pub is_text_list : List String → Bool
is_text_list entries = all (λ s. not (is_blank s)) entries

unfoldable pub validate_repair_task_intent :
    JsonPath → Option RepairContext → Option TaskIntent → Option Diagnostic
validate_repair_task_intent path none none = none
validate_repair_task_intent path none (some intent) =
    some (invalid_graph (path ++ field "repair" ∷ []))
validate_repair_task_intent path (some repair) none =
    some (invalid_graph (path ++ field "repairIntent" ∷ []))
validate_repair_task_intent path (some repair) (some intent) =
    unless (is_text_list intent.goals && leb 1 (length intent.goals))
      (invalid_graph (path ++ field "repairIntent" ∷ field "goals" ∷ []))
    or_else unless (is_text_list intent.non_goals)
        (invalid_graph (path ++ field "repairIntent" ∷ field "nonGoals" ∷ []))
    or_else unless
        (is_text_list intent.acceptance_criteria && leb 1 (length intent.acceptance_criteria))
        (invalid_graph (path ++ field "repairIntent" ∷ field "acceptanceCriteria" ∷ []))

unfoldable pub validate_node : ℕ → Node → Option Diagnostic
unfolding validate_resource_list validate_repair_context validate_repair_task_intent
validate_node i node =
    let path : JsonPath = field "nodes" ∷ index i ∷ [] in
    let resources : JsonPath = path ++ field "resources" ∷ [] in
    unless (is_identifier node.task_id) (invalid_graph (path ++ field "taskId" ∷ []))
    or_else unless (is_safe_integer node.priority) (invalid_graph (path ++ field "priority" ∷ []))
    or_else validate_resource_list (resources ++ field "files" ∷ []) true 0 node.resources.files
    or_else validate_resource_list (resources ++ field "apis" ∷ []) false 0 node.resources.apis
    or_else validate_resource_list (resources ++ field "schemas" ∷ []) false 0
        node.resources.schemas
    or_else validate_resource_list (resources ++ field "locks" ∷ []) true 0 node.resources.locks
    or_else validate_repair_context (path ++ field "repair" ∷ []) node.repair
    or_else validate_repair_task_intent path node.repair node.repair_intent

unfoldable pub validate_edge : ℕ → Edge → Option Diagnostic
validate_edge i edge =
    let path : JsonPath = field "edges" ∷ index i ∷ [] in
    unless (is_identifier edge.from) (invalid_edge (path ++ field "from" ∷ []))
    or_else unless (is_identifier edge.to) (invalid_edge (path ++ field "to" ∷ []))
    or_else unless (not (str_eq edge.from edge.to)) (invalid_edge path)
    or_else unless (not (is_blank edge.reason)) (invalid_edge (path ++ field "reason" ∷ []))

-- The loop over `graph.nodes`; `seen` is the set `nodeIds` so far.
unfoldable pub validate_nodes : String → List String → ℕ → List Node → Option Diagnostic
unfolding validate_node
validate_nodes initiative seen i [] = none
validate_nodes initiative seen i (node ∷ nodes) =
    let path : JsonPath = field "nodes" ∷ index i ∷ field "taskId" ∷ [] in
    validate_node i node
    or_else unless (not (str_eq node.task_id initiative)) (invalid_graph path)
    or_else unless (not (contains seen node.task_id))
        (record { code = node_duplicate; path = field "graph" ∷ path })
    or_else validate_nodes initiative (node.task_id ∷ seen) (suc i) nodes

abbrev pub reference_missing : ℕ → String → Diagnostic
reference_missing i end = record {
  code = edge_reference_missing;
  path = field "graph" ∷ field "edges" ∷ index i ∷ field end ∷ [];
}

-- The loop over `graph.edges`.
unfoldable pub validate_edges : List String → ℕ → List Edge → Option Diagnostic
unfolding validate_edge
validate_edges ids i [] = none
validate_edges ids i (edge ∷ edges) =
    validate_edge i edge
    or_else unless (contains ids edge.from) (reference_missing i "from")
    or_else unless (contains ids edge.to) (reference_missing i "to")
    or_else validate_edges ids (suc i) edges

abbrev pub has_repair : Node → Bool
has_repair node = elim node.repair [ none ↦ false | some r ↦ true ]

-- The second loop over `graph.nodes`.
unfoldable pub validate_repair_predecessors : List Edge → ℕ → List Node → Option Diagnostic
validate_repair_predecessors edges i [] = none
validate_repair_predecessors edges i (node ∷ nodes) =
    unless
      (not (has_repair node)
        || any (λ e. eq_edge_type e.type blocks && str_eq e.to node.task_id) edges)
      (invalid_graph (field "nodes" ∷ index i ∷ field "repair" ∷ []))
    or_else validate_repair_predecessors edges (suc i) nodes

abbrev pub directed : Edge → DirectedEdge
directed e = record { from = e.from; to = e.to }

abbrev pub task_ids : List Node → List String
task_ids nodes = map (λ n. n.task_id) nodes

-- A search that ran out of fuel would be no answer at all: see `Cycle.Decides`.
abbrev pub cycle_failure : Outcome → Option Diagnostic
cycle_failure (exhausted st) = none
cycle_failure o = some (record { code = cycle_detected; path = field "graph" ∷ field "edges" ∷ [] })

-- validateReadableDependencyGraph
unfoldable pub graph_failure : DependencyGraph → Option Diagnostic
graph_failure g =
    unless (g.schema_version == durable_record_schema_version) (record {
      code = schema_version_unsupported;
      path = field "graph" ∷ field "schemaVersion" ∷ [];
    })
    or_else validate_graph_metadata g
    or_else unless (leb 1 (length g.nodes)) (invalid_graph (field "nodes" ∷ []))
    or_else validate_nodes g.initiative_task_id [] 0 g.nodes
    or_else validate_edges (task_ids g.nodes) 0 g.edges
    or_else validate_repair_predecessors g.edges 0 g.nodes
    or_else cycle_failure (find_cycle_task_id (task_ids g.nodes) (map directed g.edges))

-- The graph that is returned is a copy of the one that is given.
abbrev pub validated : DependencyGraph → Option Diagnostic → Validated
validated g none = valid g
validated g (some d) = failure d

unfoldable pub validate_dependency_graph : DependencyGraph → Validated
validate_dependency_graph g = validated g (graph_failure g)
