-- ===== src/Readiness/Order.antt =====
-- The order of the frontier (deriveInitiativeReadiness of packages/core/src/initiative-readiness.ts).
use say_hi.Prelude.{ℕ, ◌≡◌, true, List, [], ◌∷◌, map, weigh, String, str_eq, if◌then◌else◌}
use say_hi.Records.{Node, DependencyGraph}
use say_hi.Readiness.{Readiness, ready, ReadinessNode}
use say_hi.Readiness.Derive.{comes_before, ReadinessResult}
use say_hi.DependencyGraph.Validate.{task_ids}
use say_hi.Readiness.Ranking.{IsOrdered}

-- Each node may stand before the next one.
abbrev pub IsSorted : List Node → List ReadinessNode → Type 0
IsSorted nodes [] = Unit
IsSorted nodes (n ∷ []) = Unit
IsSorted nodes (n ∷ m ∷ rest) = (comes_before nodes n m ≡ true) × IsSorted nodes (m ∷ rest)

abbrev tally_id : String → String → ℕ
tally_id id other = if str_eq other id then 1 else 0

-- How often an identifier occurs.
abbrev pub occurrences : String → List String → ℕ
occurrences id ids = weigh (tally_id id) ids

-- The identifiers of the nodes that are ready.
abbrev pub ready_ids : List ReadinessNode → List String
ready_ids [] = []
ready_ids (n ∷ ns) =
    let rest = ready_ids ns in elim n.readiness [ ready ↦ n.task_id ∷ rest | _ ↦ rest ]

-- What the nodes and the frontier of a result are: a node for each Task of the graph, in the graph's
-- order, and the Tasks whose nodes are ready, in the order of their priorities and identifiers.
abbrev pub IsFrontier : DependencyGraph → ReadinessResult → Type 0
IsFrontier graph result =
    (map (λ n. n.task_id) result.nodes ≡ task_ids graph.nodes)
    × ((id : String) → occurrences id result.frontier ≡ occurrences id (ready_ids result.nodes))
    × IsOrdered graph.nodes result.frontier
