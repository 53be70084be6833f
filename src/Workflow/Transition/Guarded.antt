-- ===== src/Workflow/Transition/Guarded.antt =====
-- What the guard of an Initiative's graph promises of a transition (transitionWorkflow of
-- packages/core/src/workflow.ts).
use say_hi.Prelude.{
  find, In, List, [], ◌∷◌, ◌≡◌, refl, sym, ap, ◌∙◌, subst, inl, inr, Bool, true, String, str_eq,
  str_eq_iff, Option, none, some, List, any, Bool-cases, Option-cases, arith,
}
use say_hi.Records.{DependencyGraph}
use say_hi.DependencyGraph.Validate as Graph
use say_hi.Workflow.Events.{Position, Projection, WorkflowEvent, State, TransitionRequest, Host}
use say_hi.DependencyGraph.Accepts.{IsWellFormed, validate_dependency_graph-IsWellFormed}
use say_hi.Workflow.Guards.{
  no_graph, snapshot, snapshot_from, is_id, binding_failure, enters_integrate,
  validate_initiative_graph_snapshot, validate_initiative_graph_transition,
}
use say_hi.Workflow.Transition.{has_key, transition_event, ok, transition_workflow}
use say_hi.Workflow.Transition.Accepted.{as_snapshot, transition_workflow-accepted}

-- The event whose id a graph names is in the history.
abbrev pub Mentions : List WorkflowEvent → String → Type 0
Mentions events id = (e : WorkflowEvent) × In e events × (e.content.event_id ≡ id)

any-Mentions :
    (events : List WorkflowEvent) (id : String)
    → any (λ e. str_eq e.content.event_id id) events ≡ true
    → Mentions events id
any-Mentions [] id h = cc
any-Mentions (e ∷ events) id h = elim (Bool-cases (str_eq e.content.event_id id)) [
  | inl hit ↦ (e, inl refl, (str_eq_iff e.content.event_id id).0 hit)
  | inr miss ↦ let (f, i, q) = any-Mentions events id (ground (arith, miss)) in (f, inr i, q)
]

-- A graph that belongs to an Initiative.
abbrev pub IsBound : Projection → List WorkflowEvent → DependencyGraph → Type 0
IsBound p events graph =
    IsWellFormed graph
    × (p.task.initiative_graph_id ≡ some graph.id)
    × (graph.initiative_task_id ≡ p.task.id)
    × Mentions events graph.updated_by_event

some_id : (o : Option String) (id : String) → is_id o id ≡ true → o ≡ some id
some_id none id h = cc
some_id (some s) id h = ap some (sym ((str_eq_iff id s).0 h))

binding_passes :
    (graph : DependencyGraph) (p : Projection) (events : List WorkflowEvent)
    → binding_failure graph p events ≡ none
    → (is_id p.task.initiative_graph_id graph.id ≡ true)
      × (str_eq graph.initiative_task_id p.task.id ≡ true)
      × (any (λ e. str_eq e.content.event_id graph.updated_by_event) events ≡ true)
binding_passes graph p events h = (ground arith, ground arith, ground arith)

validated-IsBound :
    (g graph : DependencyGraph) (p : Projection) (events : List WorkflowEvent) (v : Graph.Validated)
    → Graph.validate_dependency_graph g ≡ v
    → snapshot_from p events v ≡ snapshot graph
    → IsBound p events graph
validated-IsBound g graph p events (Graph.failure d) q h = cc
validated-IsBound g graph p events (Graph.valid x) q h =
    elim (Option-cases (binding_failure x p events)) [
      | inr (d, bad) ↦ ground (arith, bad)
      | inl good ↦
          let same : x ≡ graph = ground (arith, good) in
          let (i, t, m) = binding_passes x p events good in
          subst (IsBound p events) same (
            subst IsWellFormed (sym (validate_dependency_graph-IsWellFormed g x q).0)
                (validate_dependency_graph-IsWellFormed g x q).1,
            some_id p.task.initiative_graph_id x.id i,
            (str_eq_iff x.initiative_task_id p.task.id).0 t,
            any-Mentions events x.updated_by_event m,
          )
    ]

no_snapshot :
    (p : Projection) (events : List WorkflowEvent) (v : Graph.Validated) {B : Type 0}
    → snapshot_from p events v ≡ no_graph
    → B
no_snapshot p events (Graph.failure d) h = cc
no_snapshot p events (Graph.valid x) h = elim (Option-cases (binding_failure x p events)) [
  | inl good ↦ ground (arith, good)
  | inr (d, bad) ↦ ground (arith, bad)
]

entered :
    (p : Projection) (events : List WorkflowEvent) (given_graph graph : Option DependencyGraph)
    (to : Position)
    → enters_integrate p to ≡ true
    → validate_initiative_graph_transition p events to given_graph ≡ as_snapshot graph
    → (g : DependencyGraph) × (graph ≡ some g) × IsBound p events g
unfolding validate_initiative_graph_transition validate_initiative_graph_snapshot
entered p events none none to enters h = ground (arith, enters)
entered p events none (some g) to enters h = ground (arith, enters)
entered p events (some x) none to enters h =
    no_snapshot p events (Graph.validate_dependency_graph x) (rw enters at h)
entered p events (some x) (some g) to enters h = (
  g,
  refl,
  validated-IsBound x g p events (Graph.validate_dependency_graph x) refl (rw enters at h),
)

-- An accepted transition of an Initiative from Plan to Integrate, by a request whose key is not in the
-- history, records a graph in its event: one that is well formed, has the id that the Task names,
-- belongs to the Task and was updated by an event of the history.
pub transition_workflow-IsBound :
    (host : Host) (c : Bool) (s : State) (r : TransitionRequest) (s2 : State) (e : WorkflowEvent)
    → transition_workflow host c s r ≡ ok s2 e
    → find (has_key r.event.idempotency_key) s.events ≡ none
    → enters_integrate s.projection r.to ≡ true
    → (graph : DependencyGraph) × (e.content.initiative_graph ≡ some graph)
      × IsBound s.projection s.events graph
unfolding transition_event
transition_workflow-IsBound host c s r s2 e h new enters =
    elim (transition_workflow-accepted host c s r s2 e h) [
      | inl (found, is, matches, same) ↦ cc (found, new)
      | inr (fresh, valid, (t, graph, found, (gates, guards, snap), state, event)) ↦
          let (g, is, fits) =
            entered s.projection s.events r.initiative_graph graph r.to enters snap in
          (g, ap (λ x. x.content.initiative_graph) event ∙ is, fits)
    ]
