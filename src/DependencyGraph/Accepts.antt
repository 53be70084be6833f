-- ===== src/DependencyGraph/Accepts.antt =====
-- What an accepted Dependency Graph satisfies.
use say_hi.Prelude.{
  ℕ, suc, ◌≤◌, ◌≡◌, refl, inl, inr, String, str_eq, str_eq_iff, true, false, ◌&&◌, Option, none,
  some, List, [], ◌∷◌, map, any, length, arith, In, All, Bool-cases, ap, subst,
}
use say_hi.Records.{Node, Edge, blocks, DependencyGraph, eq_edge_type}
use say_hi.DependencyGraph.Cycle.{DirectedEdge, find_cycle_task_id, contains}
use say_hi.DependencyGraph.Cycle.Walks.{Walk, AreDeclared}
use say_hi.DependencyGraph.Cycle.Invariant.{contains-In, In-contains}
use say_hi.DependencyGraph.Cycle.Decides.{find_cycle_task_id-decides}
use say_hi.DependencyGraph.Validate.{
  Diagnostic, valid, validate_graph_metadata, validate_nodes, validate_edges,
  validate_repair_predecessors, has_repair, directed, task_ids, cycle_failure, validated,
  graph_failure, validate_dependency_graph,
}

abbrev pub IsDistinct : List String → Type 0
IsDistinct [] = Unit
IsDistinct (v ∷ vs) = (¬ In v vs) × IsDistinct vs

-- A node that repairs is behind a `blocks` edge.
abbrev pub IsBlocked : List Edge → Node → Type 0
IsBlocked edges n =
    has_repair n ≡ true → (e : Edge) × In e edges × (e.type ≡ blocks) × (e.to ≡ n.task_id)

pub record IsWellFormed (g : DependencyGraph) : Type 0 where
  pub version : 1 ≤ g.version
  pub nonempty : 1 ≤ length g.nodes
  pub distinct : IsDistinct (task_ids g.nodes)
  pub children : ¬ In g.initiative_task_id (task_ids g.nodes)
  pub declared : AreDeclared (task_ids g.nodes) (map directed g.edges)
  pub repairs : All (IsBlocked g.edges) g.nodes
  pub acyclic : (v : String) → ¬ Walk (map directed g.edges) v v

not_contained : (vs : List String) (v : String) → contains vs v ≡ false → ¬ In v vs
not_contained vs v h q = ground (arith, In-contains vs v q)

-- What the loop over the nodes has tested, given the nodes seen before.
record NodesPass (initiative : String) (seen : List String) (nodes : List Node) : Type 0 where
  distinct : IsDistinct (task_ids nodes)
  children : ¬ In initiative (task_ids nodes)
  unseen : (v : String) → In v (task_ids nodes) → ¬ In v seen

validate_nodes-NodesPass :
    (initiative : String) (seen : List String) (i : ℕ) (nodes : List Node)
    → validate_nodes initiative seen i nodes ≡ none
    → NodesPass initiative seen nodes
unfolding validate_nodes
validate_nodes-NodesPass initiative seen i [] h = record {
  distinct = tt;
  children = λ q. q;
  unseen = λ v q. elim q [ ];
}
validate_nodes-NodesPass initiative seen i (n ∷ nodes) h =
    let own : str_eq n.task_id initiative ≡ false = ground arith in
    let new : contains seen n.task_id ≡ false = ground arith in
    let rest =
      validate_nodes-NodesPass initiative (n.task_id ∷ seen) (suc i) nodes (ground arith) in
    record {
      distinct = (λ q. rest.unseen n.task_id q (inl refl), rest.distinct);
      children = λ q. elim q [
        | inl e ↦ ground (arith, own, str_eq_iff n.task_id initiative, e)
        | inr r ↦ rest.children r
      ];
      unseen = λ v q s. elim q [
        | inl e ↦ not_contained seen n.task_id new (subst (λ x. In x seen) e s)
        | inr r ↦ rest.unseen v r (inr s)
      ];
    }

validate_edges-AreDeclared :
    (ids : List String) (i : ℕ) (edges : List Edge)
    → validate_edges ids i edges ≡ none
    → AreDeclared ids (map directed edges)
unfolding validate_edges
validate_edges-AreDeclared ids i [] h = tt
validate_edges-AreDeclared ids i (e ∷ edges) h = (
  (contains-In ids e.from (ground arith), contains-In ids e.to (ground arith)),
  validate_edges-AreDeclared ids (suc i) edges (ground arith),
)

any-blocks :
    (edges : List Edge) (v : String)
    → any (λ e. eq_edge_type e.type blocks && str_eq e.to v) edges ≡ true
    → (e : Edge) × In e edges × (e.type ≡ blocks) × (e.to ≡ v)
any-blocks [] v h = cc
any-blocks (e ∷ edges) v h = elim (Bool-cases (eq_edge_type e.type blocks && str_eq e.to v)) [
  | inl q ↦ (e, inl refl, ground (arith, q), ground (arith, q, str_eq_iff e.to v))
  | inr q ↦
      let (d, at, kind, end) = any-blocks edges v (ground (arith, q)) in (d, inr at, kind, end)
]

validate_repair_predecessors-IsBlocked :
    (edges : List Edge) (i : ℕ) (nodes : List Node)
    → validate_repair_predecessors edges i nodes ≡ none
    → All (IsBlocked edges) nodes
unfolding validate_repair_predecessors
validate_repair_predecessors-IsBlocked edges i [] h = tt
validate_repair_predecessors-IsBlocked edges i (n ∷ nodes) h = (
  λ r. any-blocks edges n.task_id (ground (arith, r)),
  validate_repair_predecessors-IsBlocked edges (suc i) nodes (ground arith),
)

cycle_failure-acyclic :
    (ids : List String) (es : List DirectedEdge)
    → AreDeclared ids es
    → cycle_failure (find_cycle_task_id ids es) ≡ none
    → (v : String) → ¬ Walk es v v
cycle_failure-acyclic ids es declared h = elim (find_cycle_task_id-decides ids es declared) [
  | inl (d, e, w) ↦ absurd (ground (arith, h, ap cycle_failure e))
  | inr (e, none_found) ↦ none_found
]

positive_version : (g : DependencyGraph) → validate_graph_metadata g ≡ none → 1 ≤ g.version
unfolding validate_graph_metadata
positive_version g q = ground arith

graph_failure-IsWellFormed : (g : DependencyGraph) → graph_failure g ≡ none → IsWellFormed g
unfolding graph_failure
graph_failure-IsWellFormed g h =
    let nodes = validate_nodes-NodesPass g.initiative_task_id [] 0 g.nodes (ground arith) in
    let declared = validate_edges-AreDeclared (task_ids g.nodes) 0 g.edges (ground arith) in
    record {
      version = positive_version g (ground arith);
      nonempty = ground arith;
      distinct = nodes.distinct;
      children = nodes.children;
      declared = declared;
      repairs = validate_repair_predecessors-IsBlocked g.edges 0 g.nodes (ground arith);
      acyclic =
          cycle_failure-acyclic (task_ids g.nodes) (map directed g.edges) declared (ground arith);
    }

accepted :
    (g h : DependencyGraph) (o : Option Diagnostic)
    → graph_failure g ≡ o
    → validated g o ≡ valid h
    → (h ≡ g) × IsWellFormed g
accepted g h none q p = (ground arith, graph_failure-IsWellFormed g q)
accepted g h (some d) q p = cc

-- Validation accepts a Dependency Graph only as it is, and only if its version is positive, it has
-- nodes, their task ids are distinct and none is the Initiative's, every edge joins declared
-- nodes, every node that repairs is behind a `blocks` edge, and no node lies on a cycle.
pub validate_dependency_graph-IsWellFormed :
    (g h : DependencyGraph) → validate_dependency_graph g ≡ valid h → (h ≡ g) × IsWellFormed g
unfolding validate_dependency_graph
validate_dependency_graph-IsWellFormed g h p = accepted g h (graph_failure g) refl p
