-- ===== src/Workflow/Replay/Snapshots.antt =====
-- An event that is accepted, with the graph that its test yields (replayWorkflowEvents of
-- packages/core/src/workflow.ts).
use say_hi.Prelude.{
  ◌≡◌, refl, ap, Bool, true, false, Option, none, some, List, [], ◌∷◌, ◌++◌, arith,
}
use say_hi.Records.{DependencyGraph}
use say_hi.DependencyGraph.Validate as Graph
use say_hi.Workflow.Events.{Position, Projection, WorkflowEvent, State, Diagnostic}
use say_hi.Workflow.Guards.{
  bound, binding_failure, snapshot_from, snapshot_of, enters_integrate,
  validate_initiative_graph_snapshot, validate_initiative_graph_transition,
}
use say_hi.Workflow.Transition.Accepted.{as_snapshot}
use say_hi.Workflow.Changes.Requests.{GraphRequest}
use say_hi.Workflow.Changes.Graph.{
  kept, succession_failure, revised, revised_unless, latest_initiative_graph, validate_revision,
  validate_initiative_graph_revision_request,
}
use say_hi.Workflow.Replay.{replayed, accepted_unless, accepted_with}

bound_graph :
    (graph : DependencyGraph) (f : Option Diagnostic) (o : Option DependencyGraph)
    → bound graph f ≡ as_snapshot o
    → o ≡ some graph
bound_graph graph none none h = cc
bound_graph graph none (some g) h = ground arith
bound_graph graph (some d) none h = cc
bound_graph graph (some d) (some g) h = cc

snapshot_graph :
    (graph : DependencyGraph) (p : Projection) (events : List WorkflowEvent)
    (f : Option Graph.Diagnostic) (o : Option DependencyGraph)
    → snapshot_from p events (Graph.validated graph f) ≡ as_snapshot o
    → o ≡ some graph
snapshot_graph graph p events none o h = bound_graph graph (binding_failure graph p events) o h
snapshot_graph graph p events (some d) none h = cc
snapshot_graph graph p events (some d) (some g) h = cc

snapshot_of-graph :
    (enters : Bool) (given : Option DependencyGraph) (p : Projection) (events : List WorkflowEvent)
    (o : Option DependencyGraph)
    → snapshot_of enters given p events ≡ as_snapshot o
    → o ≡ given
unfolding validate_initiative_graph_snapshot Graph.validate_dependency_graph
snapshot_of-graph false none p events none h = refl
snapshot_of-graph false none p events (some g) h = cc
snapshot_of-graph false (some graph) p events none h = cc
snapshot_of-graph false (some graph) p events (some g) h = cc
snapshot_of-graph true none p events none h = cc
snapshot_of-graph true none p events (some g) h = cc
snapshot_of-graph true (some graph) p events o h =
    snapshot_graph graph p events (Graph.graph_failure graph) o h

-- A test of a graph yields the graph that it is given.
pub transition_graph :
    (p : Projection) (events : List WorkflowEvent) (to : Position)
    (given o : Option DependencyGraph)
    → validate_initiative_graph_transition p events to given ≡ as_snapshot o
    → o ≡ given
unfolding validate_initiative_graph_transition
transition_graph p events to given o h =
    snapshot_of-graph (enters_integrate p to) given p events o h

kept_graph :
    (graph : DependencyGraph) (f : Option Diagnostic) (o : Option DependencyGraph)
    → kept graph f ≡ as_snapshot o
    → o ≡ some graph
kept_graph graph none none h = cc
kept_graph graph none (some g) h = ground arith
kept_graph graph (some d) none h = cc
kept_graph graph (some d) (some g) h = cc

revised_graph :
    (s : State) (r : GraphRequest) (allow : Bool) (f : Option Diagnostic)
    (v : Option Graph.Diagnostic) (o : Option DependencyGraph)
    → revised_unless f (revised s r allow (Graph.validated r.graph v)) ≡ as_snapshot o
    → o ≡ some r.graph
revised_graph s r allow none none o h =
    kept_graph r.graph (succession_failure s r allow r.graph (latest_initiative_graph s.events)) o h
revised_graph s r allow none (some d) none h = cc
revised_graph s r allow none (some d) (some g) h = cc
revised_graph s r allow (some d) v none h = cc
revised_graph s r allow (some d) v (some g) h = cc

pub revision_graph :
    (c : Bool) (s : State) (r : GraphRequest) (allow : Bool) (o : Option DependencyGraph)
    → validate_initiative_graph_revision_request c s r allow ≡ as_snapshot o
    → o ≡ some r.graph
unfolding validate_initiative_graph_revision_request Graph.validate_dependency_graph
revision_graph c s r allow o h =
    revised_graph s r allow (validate_revision c s r) (Graph.graph_failure r.graph) o h

abbrev pub with_snapshot : WorkflowEvent → Option DependencyGraph → WorkflowEvent
with_snapshot e graph = record e { content = record e.content { initiative_graph = graph } }

same_event :
    (e : WorkflowEvent) (graph : Option DependencyGraph)
    → graph ≡ e.content.initiative_graph
    → with_snapshot e graph ≡ e
same_event e graph h = ap (with_snapshot e) h

abbrev pub next : State → WorkflowEvent → Projection → State
next s e p = record { events = s.events ++ e ∷ []; projection = p }

-- An event whose test yields its own graph is accepted as it is.
pub accepted_with-next :
    (o : Option DependencyGraph) (s : State) (e : WorkflowEvent)
    (project : WorkflowEvent → Projection)
    → o ≡ e.content.initiative_graph
    → accepted_with (as_snapshot o) s e project ≡ replayed (next s e (project e))
accepted_with-next none s e project h =
    ap (λ f. replayed (next s f (project f))) (same_event e none h)
accepted_with-next (some graph) s e project h =
    ap (λ f. replayed (next s f (project f))) (same_event e (some graph) h)

pub accepted_unless-next :
    (o : Option Diagnostic) (s : State) (e : WorkflowEvent) (p : Projection) (s2 : State)
    → accepted_unless o s e p ≡ replayed s2
    → (o ≡ none) × (s2 ≡ next s e p)
accepted_unless-next none s e p s2 h = (refl, ground arith)
accepted_unless-next (some d) s e p s2 h = cc
