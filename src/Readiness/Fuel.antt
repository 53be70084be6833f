-- ===== src/Readiness/Fuel.antt =====
-- Enough fuel for deriveNode (packages/core/src/initiative-readiness.ts): the recursion goes from a node to
-- its predecessors.
use say_hi.Prelude.{
  ℕ, zero, suc, ◌<◌, ◌≡◌, refl, ap, inl, inr, String, str_eq, str_eq_iff, false, not, ◌&&◌, Option,
  none, some, List, [], ◌∷◌, map, any, All, In, Bool-cases, arith,
}
use say_hi.Records.{supersedes, Edge, Node, DependencyGraph, eq_edge_type}
use say_hi.Readiness.{ReadinessTask, ReadinessNode, Standing, own_standing, arriving, incoming}
use say_hi.Readiness.Derive.{
  Findings, weigh_edge, weigh_edges, concluded, settled, derive_with, derive_node, derive_nodes,
  sort_nodes, ready_nodes, ReadinessResult, result_of, derive_initiative_readiness,
}

-- A numbering of the Tasks in which every edge goes up.
abbrev pub IsRanked : (String → ℕ) → List Edge → Type 0
IsRanked rank edges = (e : Edge) → In e edges → rank e.from < rank e.to

abbrev Answers : (String → Option ReadinessNode) → Edge → Type 0
Answers derive e = (n : ReadinessNode) × (derive e.from ≡ some n)

weigh_edges-Answers :
    (derive : String → Option ReadinessNode) (f : Findings) (edges : List Edge)
    → All (Answers derive) edges
    → (g : Findings) × (weigh_edges derive f edges ≡ some g)
unfolding weigh_edges
weigh_edges-Answers derive f [] h = (f, refl)
weigh_edges-Answers derive f (e ∷ edges) ((n, found), h) =
    let (g, is) = weigh_edges-Answers derive (weigh_edge f e n) edges h in
    (g, ground (arith, found, is))

derive_with-Answers :
    (derive : String → Option ReadinessNode) (edges : List Edge) (id : String) (own : Standing)
    → All (Answers derive) edges
    → (n : ReadinessNode) × (derive_with derive edges id own ≡ some n)
unfolding derive_with
derive_with-Answers derive edges id own h = elim (Bool-cases (settled own)) [
  | inl over ↦
      (record { task_id = id; readiness = own.readiness; blockers = own.blockers }, rw over)
  | inr undecided ↦
      let start : Findings = record {
        has_incomplete = false;
        has_blocked = false;
        blockers = own.blockers;
      } in
      let (g, is) = weigh_edges-Answers derive start edges h in
      (concluded id own g, rw (undecided, is))
]

arriving-All :
    (P : Edge → Type 0) (edges : List Edge) (id : String)
    → ((e : Edge) → In e edges → e.to ≡ id → P e)
    → All P (arriving edges id)
arriving-All P [] id h = tt
arriving-All P (e ∷ edges) id h =
    let rest : All P (arriving edges id) = arriving-All P edges id (λ x i to. h x (inr i) to) in
    elim (Bool-cases (not (eq_edge_type e.type supersedes) && str_eq e.to id)) [
      | inr miss ↦ rw miss rest
      | inl hit ↦ rw hit (h e (inl refl) ((str_eq_iff e.to id).0 (ground arith)), rest)
    ]

incoming-All :
    (P : Edge → Type 0) (graph : DependencyGraph) (id : String)
    → ((e : Edge) → In e graph.edges → e.to ≡ id → P e)
    → All P (incoming graph id)
incoming-All P graph id h = elim (Bool-cases (any (λ n. str_eq n.task_id id) graph.nodes)) [
  | inl declared ↦ rw declared (arriving-All P graph.edges id h)
  | inr unknown ↦ rw unknown tt
]

pub derive_node-answers :
    (graph : DependencyGraph) (tasks : List ReadinessTask) (rank : String → ℕ) (fuel : ℕ)
    (id : String)
    → IsRanked rank graph.edges
    → rank id < fuel
    → (n : ReadinessNode) × (derive_node graph tasks fuel id ≡ some n)
unfolding derive_node
derive_node-answers graph tasks rank zero id ranked h = ground arith
derive_node-answers graph tasks rank (suc fuel) id ranked h =
    derive_with-Answers (λ other. derive_node graph tasks fuel other) (incoming graph id) id
      (own_standing tasks id)
      (incoming-All (Answers (λ other. derive_node graph tasks fuel other)) graph id (λ e i to.
        derive_node-answers graph tasks rank fuel e.from ranked
          (ground (arith, ranked e i, ap rank to))))

derive_nodes-answers :
    (graph : DependencyGraph) (tasks : List ReadinessTask) (rank : String → ℕ) (fuel : ℕ)
    (nodes : List Node)
    → IsRanked rank graph.edges
    → ((id : String) → rank id < fuel)
    → (ns : List ReadinessNode) × (derive_nodes graph tasks fuel nodes ≡ some ns)
unfolding derive_nodes
derive_nodes-answers graph tasks rank fuel [] ranked h = ([], refl)
derive_nodes-answers graph tasks rank fuel (n ∷ nodes) ranked h =
    let (m, found) = derive_node-answers graph tasks rank fuel n.task_id ranked (h n.task_id) in
    let (ns, rest) = derive_nodes-answers graph tasks rank fuel nodes ranked h in
    (m ∷ ns, rw (found, rest))

result_answers :
    (graph : DependencyGraph) (o : Option (List ReadinessNode)) (ns : List ReadinessNode)
    → o ≡ some ns
    → (result : ReadinessResult) × (result_of graph o ≡ some result)
result_answers graph none ns h = cc
result_answers graph (some x) ns h = (
  record { nodes = x; frontier = map (λ n. n.task_id) (sort_nodes graph.nodes (ready_nodes x)) },
  refl,
)

-- Where the Tasks of a graph can be numbered so that every edge goes up, as those of a graph without a
-- cycle can, the derivation of the readiness ends with a result within a depth that exceeds the numbers.
pub derive_initiative_readiness-ends :
    (graph : DependencyGraph) (tasks : List ReadinessTask) (rank : String → ℕ) (fuel : ℕ)
    → IsRanked rank graph.edges
    → ((id : String) → rank id < fuel)
    → (result : ReadinessResult) × (derive_initiative_readiness graph tasks fuel ≡ some result)
unfolding derive_initiative_readiness
derive_initiative_readiness-ends graph tasks rank fuel ranked h =
    let (ns, found) = derive_nodes-answers graph tasks rank fuel graph.nodes ranked h in
    result_answers graph (derive_nodes graph tasks fuel graph.nodes) ns found
