-- ===== src/Readiness/Frontier.antt =====
-- The frontier of an Initiative (deriveInitiativeReadiness of packages/core/src/initiative-readiness.ts).
use say_hi.Prelude.{
  ℕ, zero, suc, ◌≡◌, refl, sym, ap, ◌∙◌, ◌⊎◌, subst, inl, inr, String, str_eq, str_eq_iff, true,
  false, not, ◌&&◌, Option, none, some, List, [], ◌∷◌, map, any, All, In, Bool-cases, arith,
}
use say_hi.Records.{blocks, supersedes, Edge, Node, DependencyGraph, eq_edge_type}
use say_hi.Readiness.{
  ready, completed, ReadinessTask, ReadinessNode, own_standing, arriving, incoming,
}
use say_hi.Readiness.Derive.{
  eq_readiness, derive_node, derive_nodes, insert_node, sort_nodes, ready_nodes, ReadinessResult,
  result_of, derive_initiative_readiness, comes_before, cons_if,
}
use say_hi.Readiness.Sound.{
  IsStartable, IsDone, IsSatisfied, ready-IsStartable, completed-IsDone, derive_with-ready,
  derive_with-completed,
}

In-insert :
    (nodes : List Node) (n m : ReadinessNode) (rest : List ReadinessNode)
    → In m (insert_node nodes n rest)
    → (m ≡ n) ⊎ In m rest
unfolding insert_node
In-insert nodes n m [] (inl e) = inl e
In-insert nodes n m [] (inr none_there) = elim none_there [ ]
In-insert nodes n m (x ∷ rest) h = elim (Bool-cases (comes_before nodes n x)) [
  | inl before ↦ ground (arith, before)
  | inr after ↦ ground (arith, after, In-insert nodes n m rest)
]

In-sort :
    (nodes : List Node) (m : ReadinessNode) (ns : List ReadinessNode)
    → In m (sort_nodes nodes ns)
    → In m ns
unfolding sort_nodes
In-sort nodes m [] h = h
In-sort nodes m (n ∷ ns) h = elim (In-insert nodes n m (sort_nodes nodes ns) h) [
  | inl e ↦ inl e
  | inr i ↦ inr (In-sort nodes m ns i)
]

In-ready :
    (m : ReadinessNode) (ns : List ReadinessNode)
    → In m (ready_nodes ns)
    → In m ns × (eq_readiness m.readiness ready ≡ true)
unfolding ready_nodes
In-ready m [] h = elim h [ ]
In-ready m (n ∷ ns) h = elim (Bool-cases (eq_readiness n.readiness ready)) [
  | inr other ↦
      let later : In m (ready_nodes ns) = rw other at h in
      let (i, r) = In-ready m ns later in (inr i, r)
  | inl here ↦
      let among : (m ≡ n) ⊎ In m (ready_nodes ns) = rw here at h in
      elim among [
        | inl e ↦ (inl e, ap (λ x. eq_readiness x.readiness ready) e ∙ here)
        | inr later ↦ let (i, r) = In-ready m ns later in (inr i, r)
      ]
]

In-task_ids :
    (id : String) (ns : List ReadinessNode)
    → In id (map (λ n. n.task_id) ns)
    → (n : ReadinessNode) × In n ns × (id ≡ n.task_id)
In-task_ids id [] h = elim h [ ]
In-task_ids id (n ∷ ns) (inl e) = (n, inl refl, e)
In-task_ids id (n ∷ ns) (inr h) = let (m, i, e) = In-task_ids id ns h in (m, inr i, e)

pub cons_if-some :
    (o : Option ReadinessNode) (r : Option (List ReadinessNode)) (ns : List ReadinessNode)
    → cons_if o r ≡ some ns
    → (n : ReadinessNode) × (rest : List ReadinessNode) × (o ≡ some n)
      × (r ≡ some rest)
      × (ns ≡ n ∷ rest)
cons_if-some none none ns h = cc
cons_if-some none (some rest) ns h = cc
cons_if-some (some n) none ns h = cc
cons_if-some (some n) (some rest) ns h = (n, rest, refl, refl, ground arith)

-- Every node of a result is derived.
derive_nodes-In :
    (graph : DependencyGraph) (tasks : List ReadinessTask) (fuel : ℕ) (nodes : List Node)
    (ns : List ReadinessNode)
    → derive_nodes graph tasks fuel nodes ≡ some ns
    → (n : ReadinessNode) → In n ns
    → (id : String) × (any (λ m. str_eq m.task_id id) nodes ≡ true)
      × (derive_node graph tasks fuel id ≡ some n)
unfolding derive_nodes
derive_nodes-In graph tasks fuel [] ns h n i =
    let empty : [] ≡ ns = ground arith in elim (subst (In n) (sym empty) i) [ ]
derive_nodes-In graph tasks fuel (node ∷ nodes) ns h n i =
    let (m, rest, here, later, is) =
      cons_if-some (derive_node graph tasks fuel node.task_id) (derive_nodes graph tasks fuel nodes)
        ns h in
    elim (subst (In n) is i) [
      | inl e ↦
          (node.task_id, rw ((str_eq_iff node.task_id node.task_id).1 refl), here ∙ ap some (sym e))
      | inr among ↦
          let (id, declared, found) = derive_nodes-In graph tasks fuel nodes rest later n among in
          (id, ground (arith, declared), found)
    ]

comes_in :
    (f e : Edge) (id : String)
    → e ≡ f
    → eq_edge_type e.type supersedes ≡ false
    → e.to ≡ id
    → not (eq_edge_type f.type supersedes) && str_eq f.to id ≡ true
comes_in f e id is kind to =
    let arrives : str_eq e.to id ≡ true = (str_eq_iff e.to id).1 to in
    subst (λ x. not (eq_edge_type x.type supersedes) && str_eq x.to id ≡ true) is
      (rw (kind, arrives))

In-arriving :
    (edges : List Edge) (id : String) (P : Edge → Type 0)
    → All P (arriving edges id)
    → (e : Edge) → In e edges
    → eq_edge_type e.type supersedes ≡ false
    → e.to ≡ id
    → P e
In-arriving [] id P h e i kind to = elim i [ ]
In-arriving (f ∷ edges) id P h e i kind to =
    elim (Bool-cases (not (eq_edge_type f.type supersedes) && str_eq f.to id)) [
      | inl hit ↦
          let both : P f × All P (arriving edges id) = rw hit at h in
          elim i [
            | inl is ↦ subst P (sym is) both.0
            | inr later ↦ In-arriving edges id P both.1 e later kind to
          ]
      | inr miss ↦
          let rest : All P (arriving edges id) = rw miss at h in
          elim i [
            | inl is ↦ ground (arith, miss, comes_in f e id is kind to)
            | inr later ↦ In-arriving edges id P rest e later kind to
          ]
    ]

pub node_completed :
    (graph : DependencyGraph) (tasks : List ReadinessTask) (fuel : ℕ) (id : String)
    (n : ReadinessNode)
    → derive_node graph tasks fuel id ≡ some n
    → (n.task_id ≡ id)
      × (eq_readiness n.readiness completed ≡ true
          → eq_readiness (own_standing tasks id).readiness completed ≡ true)
unfolding derive_node
node_completed graph tasks zero id n h = cc
node_completed graph tasks (suc fuel) id n h =
    derive_with-completed (λ other. derive_node graph tasks fuel other) (incoming graph id) id
      (own_standing tasks id) n h

-- What a node that is ready says of the Tasks.
abbrev pub IsClear : DependencyGraph → List ReadinessTask → String → Type 0
IsClear graph tasks id =
    IsStartable tasks id
    × ((e : Edge)
        → In e graph.edges
        → eq_edge_type e.type supersedes ≡ false
        → e.to ≡ id
        → (eq_edge_type e.type blocks ≡ true) × IsDone tasks e.from)

node_ready :
    (graph : DependencyGraph) (tasks : List ReadinessTask) (fuel : ℕ) (id : String)
    (n : ReadinessNode)
    → any (λ m. str_eq m.task_id id) graph.nodes ≡ true
    → derive_node graph tasks fuel id ≡ some n
    → eq_readiness n.readiness ready ≡ true
    → IsClear graph tasks id
unfolding derive_node
node_ready graph tasks zero id n declared h r = cc
node_ready graph tasks (suc fuel) id n declared h r =
    let (own, edges) =
      derive_with-ready (λ other. derive_node graph tasks fuel other) (incoming graph id) id
        (own_standing tasks id) n h r in
    let weighed : All (IsSatisfied (λ other. derive_node graph tasks fuel other))
        (arriving graph.edges id) =
      rw declared at edges in
    (
      ready-IsStartable tasks id own,
      (λ e i kind to.
          let (type, (p, found, done)) =
            In-arriving graph.edges id (IsSatisfied (λ other. derive_node graph tasks fuel other))
              weighed e i kind to in
          (
            type,
            completed-IsDone tasks e.from ((node_completed graph tasks fuel e.from p found).1 done),
          )),
    )

result_nodes :
    (graph : DependencyGraph) (o : Option (List ReadinessNode)) (result : ReadinessResult)
    → result_of graph o ≡ some result
    → (ns : List ReadinessNode) × (o ≡ some ns)
      × (result.frontier ≡ map (λ n. n.task_id) (sort_nodes graph.nodes (ready_nodes ns)))
result_nodes graph none result h = cc
result_nodes graph (some ns) result h = (ns, refl, ground arith)

-- A Task is in the frontier only if it is an active Build in Triage whose Route Gate a human has approved,
-- with a valid Context, and if every edge to it, but those of type `supersedes`, is of type `blocks` and
-- comes from a Build that is completed or archived.
pub derive_initiative_readiness-IsClear :
    (graph : DependencyGraph) (tasks : List ReadinessTask) (fuel : ℕ) (result : ReadinessResult)
    (id : String)
    → derive_initiative_readiness graph tasks fuel ≡ some result
    → In id result.frontier
    → IsClear graph tasks id
unfolding derive_initiative_readiness
derive_initiative_readiness-IsClear graph tasks fuel result id h i =
    let (ns, derived, is) =
      result_nodes graph (derive_nodes graph tasks fuel graph.nodes) result h in
    let (n, sorted, named) =
      In-task_ids id (sort_nodes graph.nodes (ready_nodes ns)) (subst (In id) is i) in
    let (among, r) = In-ready n ns (In-sort graph.nodes n (ready_nodes ns) sorted) in
    let (other, declared, found) =
      derive_nodes-In graph tasks fuel graph.nodes ns derived n among in
    let same : other ≡ id = sym ((node_completed graph tasks fuel other n found).0) ∙ sym named in
    subst (IsClear graph tasks) same (node_ready graph tasks fuel other n declared found r)
