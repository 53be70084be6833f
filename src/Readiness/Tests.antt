-- ===== src/Readiness/Tests.antt =====
-- The readiness of a concrete Initiative.
use say_hi.Prelude.{
  ℕ, ◌<◌, ◌≡◌, refl, sym, subst, inl, inr, String, str_eq, codes, true, if◌then◌else◌, Option, none,
  some, List, [], ◌∷◌, In, arith,
}
use say_hi.Records.{pos, blocks, Edge, Node, DependencyGraph, completed}
use say_hi.Workflow.Events.{State}
use say_hi.Workflow.Start.{first_state, created_event, project_created_event}
use say_hi.Workflow.Start.Tests.{host, new_build}
use say_hi.Readiness.{
  ReadinessTask, readiness_for_task, has_current_failed_execution, has_current_repair_requirement,
  requires_initiative_triage_context, has_accepted_route_gate,
}
use say_hi.Readiness.Derive.{
  weigh_edge, weigh_edges, derive_with, derive_node, derive_nodes, insert_node, sort_nodes,
  ready_nodes, comes_before, ReadinessResult, derive_initiative_readiness,
}
use say_hi.Readiness.Frontier.{IsClear, derive_initiative_readiness-IsClear}
use say_hi.Readiness.Fuel.{IsRanked, derive_initiative_readiness-ends}

abbrev node : String → Node
node id = record {
  task_id = id;
  priority = pos 1;
  resources = record { files = []; apis = []; schemas = []; locks = [] };
  repair = none;
  repair_intent = none;
}

abbrev edge : Edge
edge = record { from = "done"; to = "task"; type = blocks; reason = "first" }

abbrev graph : DependencyGraph
graph = record {
  schema_version = 1;
  id = "graph";
  initiative_task_id = "initiative";
  version = 1;
  nodes = node "done" ∷ node "task" ∷ [];
  edges = edge ∷ [];
  updated_by_event = "e1";
}

abbrev started_state : State
started_state = first_state host new_build

abbrev done_state : State
done_state = record started_state {
  projection = record started_state.projection { lifecycle = completed };
}

abbrev tasks : List ReadinessTask
tasks =
    record { task_id = "done"; state = some done_state; has_valid_context = true }
    ∷ record { task_id = "task"; state = some started_state; has_valid_context = true }
    ∷ []

abbrev rank : String → ℕ
rank id = if str_eq id "task" then 1 else 0

rank-bound : (id : String) → rank id < 2
rank-bound id = ground arith

graph-IsRanked : IsRanked rank graph.edges
graph-IsRanked e (inl is) = subst (λ x. rank x.from < rank x.to) (sym is) (ground arith)
graph-IsRanked e (inr i) = elim i [ ]

derive_initiative_readiness-ends_example :
    (result : ReadinessResult) × (derive_initiative_readiness graph tasks 2 ≡ some result)
derive_initiative_readiness-ends_example =
    derive_initiative_readiness-ends graph tasks rank 2 graph-IsRanked rank-bound

abbrev read_out : Option ReadinessResult → ReadinessResult
read_out none = record { nodes = []; frontier = [] }
read_out (some result) = result

abbrev readiness : ReadinessResult
readiness = read_out (derive_initiative_readiness graph tasks 2)

readiness-derived :
    (derive_initiative_readiness graph tasks 2 ≡ some readiness)
    × (readiness.frontier ≡ "task" ∷ [])
    × In "task" readiness.frontier
unfolding derive_initiative_readiness derive_nodes derive_node derive_with weigh_edges weigh_edge
    readiness_for_task has_current_failed_execution has_current_repair_requirement
    requires_initiative_triage_context has_accepted_route_gate ready_nodes sort_nodes insert_node
    comes_before created_event project_created_event codes
readiness-derived = (refl, refl, inl refl)

derive_initiative_readiness-IsClear_example : IsClear graph tasks "task"
derive_initiative_readiness-IsClear_example =
    derive_initiative_readiness-IsClear graph tasks 2 readiness "task" readiness-derived.0
      readiness-derived.2

-- Three Tasks that can all be started: two of one priority and one of a higher.
abbrev choices : DependencyGraph
choices = record graph {
  nodes = node "task" ∷ record (node "urgent") { priority = pos 5 } ∷ node "also" ∷ [];
  edges = [];
}

abbrev candidate : String → ReadinessTask
candidate id = record { task_id = id; state = some started_state; has_valid_context = true }

abbrev candidates : List ReadinessTask
candidates = candidate "task" ∷ candidate "urgent" ∷ candidate "also" ∷ []

abbrev ordered : ReadinessResult
ordered = read_out (derive_initiative_readiness choices candidates 1)
