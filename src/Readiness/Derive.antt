-- ===== src/Readiness/Derive.antt =====
-- deriveInitiativeReadiness (packages/core/src/initiative-readiness.ts). The answers that the code keeps in
-- a map are those that it would compute again, since nothing changes meanwhile. Its recursion runs on fuel.
use say_hi.Prelude.{
  ℕ, zero, suc, ◌==◌, ltb, String, str_eq, codes, Bool, true, false, ◌&&◌, ◌||◌, Option, none, some,
  List, [], ◌∷◌, ◌++◌, find, if◌then◌else◌, map,
}
use say_hi.Records.{ℤ, pos, negsuc, blocks, Edge, Node, DependencyGraph, eq_edge_type}
use say_hi.Workflow.Changes.Tracker.{leq_codes}
use say_hi.Readiness.{
  Readiness, ready, waiting, blocked, completed, BlockerCode, task_missing, task_cancelled,
  task_failed, task_repair_required, dependency_incomplete, dependency_blocked,
  dependency_cancelled, dependency_failed, dependency_evidence_required, dependency_repair_required,
  Blocker, ReadinessTask, ReadinessNode, Standing, own_standing, last_with, incoming,
}

abbrev pub readiness_index : Readiness → ℕ
readiness_index ready = 0
readiness_index waiting = 1
readiness_index blocked = 2
readiness_index completed = 3

abbrev pub eq_readiness : Readiness → Readiness → Bool
eq_readiness a b = readiness_index a == readiness_index b

unfoldable pub propagated_blocker_code : Option BlockerCode → BlockerCode
propagated_blocker_code (some task_cancelled) = dependency_cancelled
propagated_blocker_code (some dependency_cancelled) = dependency_cancelled
propagated_blocker_code (some task_failed) = dependency_failed
propagated_blocker_code (some dependency_failed) = dependency_failed
propagated_blocker_code (some task_repair_required) = dependency_repair_required
propagated_blocker_code (some dependency_repair_required) = dependency_repair_required
propagated_blocker_code _ = dependency_blocked

abbrev pub is_source : Blocker → Bool
is_source b = elim b.code [ task_missing ↦ false | dependency_incomplete ↦ false | _ ↦ true ]

abbrev pub first_of : List Blocker → Option Blocker
first_of [] = none
first_of (b ∷ blockers) = some b

abbrev pub source_of : List Blocker → Option Blocker
source_of blockers = elim (find is_source blockers) [ some b ↦ some b | none ↦ first_of blockers ]

unfoldable pub blocked_dependency : String → ReadinessNode → Blocker
blocked_dependency id predecessor = elim (source_of predecessor.blockers) [
  | none ↦ record { code = propagated_blocker_code none; task_id = id }
  | some source ↦ record {
    code = propagated_blocker_code (some source.code);
    task_id = source.task_id;
  }
]

-- What the loop over the incoming edges has found.
pub record Findings : Type 0 where
  pub has_incomplete : Bool
  pub has_blocked : Bool
  pub blockers : List Blocker

abbrev pub incomplete : Findings → BlockerCode → String → Findings
incomplete f code id = record f {
  has_incomplete = true;
  blockers = f.blockers ++ record { code = code; task_id = id } ∷ [];
}

-- The body of the loop.
unfoldable pub weigh_edge : Findings → Edge → ReadinessNode → Findings
weigh_edge f e predecessor =
    if eq_readiness predecessor.readiness completed
    then (if eq_edge_type e.type blocks
        then f
        else incomplete f dependency_evidence_required e.from)
    else (if eq_edge_type e.type blocks && eq_readiness predecessor.readiness blocked
        then record f {
          has_blocked = true;
          blockers = f.blockers ++ blocked_dependency e.from predecessor ∷ [];
        }
        else incomplete f dependency_incomplete e.from)

-- The loop. There is no answer where a predecessor has none.
unfoldable pub weigh_edges :
    (String → Option ReadinessNode) → Findings → List Edge → Option Findings
weigh_edges derive f [] = some f
weigh_edges derive f (e ∷ edges) = elim (derive e.from) [
  | none ↦ none
  | some predecessor ↦ weigh_edges derive (weigh_edge f e predecessor) edges
]

abbrev pub concluded : String → Standing → Findings → ReadinessNode
concluded id own f = record {
  task_id = id;
  readiness =
      if f.has_blocked
      then blocked
      else (if f.has_incomplete || eq_readiness own.readiness waiting then waiting else ready);
  blockers = f.blockers;
}

abbrev pub concluded_if : String → Standing → Option Findings → Option ReadinessNode
concluded_if id own none = none
concluded_if id own (some f) = some (concluded id own f)

abbrev pub settled : Standing → Bool
settled own = eq_readiness own.readiness completed || eq_readiness own.readiness blocked

-- The body of deriveNode, with what it calls for the predecessors.
unfoldable pub derive_with :
    (String → Option ReadinessNode) → List Edge → String → Standing → Option ReadinessNode
derive_with derive edges id own =
    if settled own
    then some (record { task_id = id; readiness = own.readiness; blockers = own.blockers })
    else concluded_if id own (
        weigh_edges derive
          (record { has_incomplete = false; has_blocked = false; blockers = own.blockers }) edges)

unfoldable pub derive_node :
    DependencyGraph → List ReadinessTask → ℕ → String → Option ReadinessNode
derive_node graph tasks zero id = none
derive_node graph tasks (suc fuel) id =
    derive_with (λ other. derive_node graph tasks fuel other) (incoming graph id) id
      (own_standing tasks id)

abbrev pub cons_if {ℓ} : {A : Type ℓ} → Option A → Option (List A) → Option (List A)
cons_if (some x) (some xs) = some (x ∷ xs)
cons_if _ _ = none

unfoldable pub derive_nodes :
    DependencyGraph → List ReadinessTask → ℕ → List Node → Option (List ReadinessNode)
derive_nodes graph tasks fuel [] = some []
derive_nodes graph tasks fuel (n ∷ nodes) =
    let rest = derive_nodes graph tasks fuel nodes in
    cons_if (derive_node graph tasks fuel n.task_id) rest

abbrev pub less : ℤ → ℤ → Bool
less (pos a) (pos b) = ltb a b
less (pos a) (negsuc b) = false
less (negsuc a) (pos b) = true
less (negsuc a) (negsuc b) = ltb b a

-- `nodesByTaskId.get(id)!.priority`; a node of the graph has one.
abbrev pub priority_of : List Node → String → ℤ
priority_of nodes id = elim (last_with (λ n. str_eq n.task_id id) nodes) [
  | none ↦ pos 0
  | some n ↦ n.priority
]

-- Whether the order of `sort` lets the first of two nodes stand before the second: the higher priority
-- first, and the lower identifier, which is in ASCII, where the priorities are the same.
unfoldable pub comes_before : List Node → ReadinessNode → ReadinessNode → Bool
unfolding codes
comes_before nodes a b =
    if less (priority_of nodes b.task_id) (priority_of nodes a.task_id)
    then true
    else (if less (priority_of nodes a.task_id) (priority_of nodes b.task_id)
        then false
        else leq_codes (codes a.task_id) (codes b.task_id))

unfoldable pub insert_node : List Node → ReadinessNode → List ReadinessNode → List ReadinessNode
insert_node nodes n [] = n ∷ []
insert_node nodes n (m ∷ rest) =
    let inserted = insert_node nodes n rest in
    if comes_before nodes n m then n ∷ m ∷ rest else m ∷ inserted

unfoldable pub sort_nodes : List Node → List ReadinessNode → List ReadinessNode
sort_nodes nodes [] = []
sort_nodes nodes (n ∷ rest) = insert_node nodes n (sort_nodes nodes rest)

unfoldable pub ready_nodes : List ReadinessNode → List ReadinessNode
ready_nodes [] = []
ready_nodes (n ∷ nodes) =
    let rest = ready_nodes nodes in if eq_readiness n.readiness ready then n ∷ rest else rest

-- InitiativeReadinessResult
pub record ReadinessResult : Type 0 where
  pub nodes : List ReadinessNode
  pub frontier : List String

abbrev pub result_of : DependencyGraph → Option (List ReadinessNode) → Option ReadinessResult
result_of graph none = none
result_of graph (some nodes) = some (record {
  nodes = nodes;
  frontier = map (λ n. n.task_id) (sort_nodes graph.nodes (ready_nodes nodes));
})

unfoldable pub derive_initiative_readiness :
    DependencyGraph → List ReadinessTask → ℕ → Option ReadinessResult
derive_initiative_readiness graph tasks fuel =
    result_of graph (derive_nodes graph tasks fuel graph.nodes)
