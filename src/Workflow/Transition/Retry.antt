-- ===== src/Workflow/Transition/Retry.antt =====
-- The retry of a transition (the idempotency key of transitionWorkflow, packages/core/src/workflow.ts).
use say_hi.Prelude.{
  ◌==◌, ◌≡◌, refl, sym, ap, ◌∙◌, subst, inl, inr, Bool, true, false, ◌||◌, String, str_eq,
  str_eq_iff, Option, none, some, List, [], ◌∷◌, ◌++◌, length, find, Bool-cases, Option-cases,
  arith,
}
use say_hi.Records.{
  DependencyGraph, active, blocked, eq_lifecycle, gates_discrete, strings_discrete,
  DependencyGraph-discrete,
}
use say_hi.DependencyGraph.Validate as Graph
use say_hi.Workflow.Events.{
  Position, Projection, WorkflowEvent, State, TransitionRequest, Host, Diagnostic,
}
use say_hi.Workflow.Routes.{positions_equal}
use say_hi.Workflow.Routes.Table.{find_transition-is_permitted, blocked_resumes}
use say_hi.Workflow.History.{is_transition}
use say_hi.Workflow.Guards.{
  given, bound, binding_failure, snapshot_of, enters_integrate, validate_initiative_graph_snapshot,
  validate_initiative_graph_transition,
}
use say_hi.Workflow.Transition.{
  validate_transition_request, blockers_after_transition, transition_event, decided, same_strings,
  same_graph, matches_transition_intent, ok, after, has_key, transition_workflow,
}
use say_hi.Workflow.Transition.Accepted.{as_snapshot, transition_workflow-accepted}
use say_hi.Workflow.Transition.Sound.{BlockersFit, guards_end, invariants_hold}

pub decided_refl {ℓ} : {A : Type ℓ} (d : Discrete A) (a : A) → decided (d a a) ≡ true
decided_refl d a = elim (d a a) as (λ x. decided x ≡ true) [
  | yes p ↦ refl
  | no f ↦ elim (f refl) [ ]
]

find-append :
    (p : WorkflowEvent → Bool) (events : List WorkflowEvent) (e : WorkflowEvent)
    → find p events ≡ none
    → p e ≡ true
    → find p (events ++ e ∷ []) ≡ some e
find-append p [] e h t = ground (arith, t)
find-append p (f ∷ events) e h t = elim (Bool-cases (p f)) [
  | inl hit ↦ ground (arith, hit)
  | inr miss ↦ ground (arith, miss, find-append p events e (ground (arith, miss)) t)
]

same_graph_refl : (graph : Option DependencyGraph) → same_graph graph graph ≡ true
same_graph_refl none = refl
same_graph_refl (some g) = decided_refl DependencyGraph-discrete g

-- The graph that the event records is the graph of the request.
bound_graph :
    (g : DependencyGraph) (d : Option Diagnostic) (graph : Option DependencyGraph)
    → bound g d ≡ as_snapshot graph
    → graph ≡ some g
bound_graph g none none h = cc
bound_graph g none (some x) h = ground arith
bound_graph g (some d) none h = cc
bound_graph g (some d) (some x) h = cc

snapshot_graph :
    (g : DependencyGraph) (p : Projection) (events : List WorkflowEvent)
    (graph : Option DependencyGraph)
    → validate_initiative_graph_snapshot g p events ≡ as_snapshot graph
    → graph ≡ some g
unfolding validate_initiative_graph_snapshot Graph.validate_dependency_graph
snapshot_graph g p events graph h = elim (Option-cases (Graph.graph_failure g)) [
  | inl good ↦ bound_graph g (binding_failure g p events) graph (ground (arith, good))
  | inr (d, bad) ↦ elim (Option-cases graph) [
    | inl e ↦ ground (arith, bad, e)
    | inr (x, e) ↦ ground (arith, bad, e)
  ]
]

recorded_graph :
    (b : Bool) (given_graph : Option DependencyGraph) (p : Projection) (events : List WorkflowEvent)
    (graph : Option DependencyGraph)
    → snapshot_of b given_graph p events ≡ as_snapshot graph
    → graph ≡ given_graph
recorded_graph false none p events none h = refl
recorded_graph false none p events (some x) h = cc
recorded_graph false (some g) p events none h = cc
recorded_graph false (some g) p events (some x) h = cc
recorded_graph true none p events none h = cc
recorded_graph true none p events (some x) h = cc
recorded_graph true (some g) p events graph h = snapshot_graph g p events graph h

no_elements : (xs : List String) → length xs == 0 ≡ true → xs ≡ []
no_elements [] h = refl
no_elements (x ∷ xs) h = ground arith

recorded_blockers :
    (p : Projection) (r : TransitionRequest)
    → BlockersFit p
    → (eq_lifecycle p.lifecycle blocked ≡ true → eq_lifecycle r.to.lifecycle active ≡ true)
    → (eq_lifecycle r.to.lifecycle blocked || length (given r.blockers) == 0 ≡ true)
    → blockers_after_transition p r ≡ given r.blockers
unfolding blockers_after_transition
recorded_blockers p r fit resumes none_given =
    elim (Bool-cases (eq_lifecycle r.to.lifecycle blocked)) [
      | inl b ↦ ground (arith, b)
      | inr b ↦
          let empty : given r.blockers ≡ [] = no_elements (given r.blockers) (ground (arith, b)) in
          elim (Bool-cases (eq_lifecycle p.lifecycle blocked)) [
            | inl q ↦ ground (arith, b, q, resumes q, empty)
            | inr q ↦ ground (arith, b, q, empty, no_elements p.blockers (ground (arith, q)))
          ]
    ]

task_of :
    (c : Bool) (s : State) (r : TransitionRequest)
    → validate_transition_request c s r ≡ none
    → (str_eq r.task_id s.projection.task.id ≡ true)
      × (r.expected_version == s.projection.version ≡ true)
unfolding validate_transition_request
task_of c s r h = (ground arith, ground arith)

pub str_eq_refl : (s : String) → str_eq s s ≡ true
str_eq_refl s = (str_eq_iff s s).1 refl

pub positions_equal_refl : (a : Position) → positions_equal a a ≡ true
positions_equal_refl a = ground (arith, str_eq_refl a.step)

event_matches :
    (host : Host) (c : Bool) (s : State) (r : TransitionRequest) (graph : Option DependencyGraph)
    → validate_transition_request c s r ≡ none
    → blockers_after_transition s.projection r ≡ given r.blockers
    → graph ≡ r.initiative_graph
    → matches_transition_intent (transition_event host s r graph).content r ≡ true
unfolding transition_event matches_transition_intent
event_matches host c s r graph valid same_blockers recorded =
    let (task, version) = task_of c s r valid in
    ground (
      arith,
      task,
      version,
      str_eq_iff r.task_id s.projection.task.id,
      str_eq_refl s.projection.task.id,
      ap (str_eq s.projection.task.id) ((str_eq_iff r.task_id s.projection.task.id).0 task),
      positions_equal_refl r.to,
      decided_refl gates_discrete r.gates,
      ap (λ b. same_strings b (given r.blockers)) same_blockers,
      decided_refl strings_discrete (given r.blockers),
      ap (λ g. same_graph g r.initiative_graph) recorded,
      same_graph_refl r.initiative_graph,
      str_eq_refl r.event.reason,
      str_eq_refl r.event.actor.id,
      str_eq_refl r.event.actor.session_ref,
    )

-- A state whose history answers the key with an event that records this request.
Answers : State → TransitionRequest → WorkflowEvent → Type 0
Answers s r e =
    (find (has_key r.event.idempotency_key) s.events ≡ some e)
    × (is_transition e.content.payload ≡ true)
    × (matches_transition_intent e.content r ≡ true)

answered :
    (host : Host) (c : Bool) (s : State) (r : TransitionRequest) (e : WorkflowEvent)
    → Answers s r e
    → transition_workflow host c s r ≡ ok s e
unfolding transition_workflow Answers
answered host c s r e (found, is, matches) = ground (arith, found, is, matches)

after-Answers :
    (host : Host) (c : Bool) (s : State) (r : TransitionRequest) (graph : Option DependencyGraph)
    → find (has_key r.event.idempotency_key) s.events ≡ none
    → validate_transition_request c s r ≡ none
    → blockers_after_transition s.projection r ≡ given r.blockers
    → graph ≡ r.initiative_graph
    → Answers (after host s r graph) r (transition_event host s r graph)
unfolding Answers transition_event
after-Answers host c s r graph fresh valid same_blockers recorded = (
  find-append (has_key r.event.idempotency_key) s.events (transition_event host s r graph) fresh
      (str_eq_refl r.event.idempotency_key),
  refl,
  event_matches host c s r graph valid same_blockers recorded,
)

-- An accepted transition of a Task that has blockers exactly when it is blocked, requested again on the
-- state that it returned, is accepted again with the same state and the same event.
pub transition_workflow-retry :
    (host : Host) (c c2 : Bool) (s : State) (r : TransitionRequest) (s2 : State) (e : WorkflowEvent)
    → BlockersFit s.projection
    → transition_workflow host c s r ≡ ok s2 e
    → transition_workflow host c2 s2 r ≡ ok s2 e
unfolding Answers validate_initiative_graph_transition
transition_workflow-retry host c c2 s r s2 e fit h =
    elim (transition_workflow-accepted host c s r s2 e h) [
      | inl (found, is, matches, same) ↦
          subst (λ s3. transition_workflow host c2 s3 r ≡ ok s3 e) (sym same)
            (answered host c2 s r e (found, is, matches))
      | inr (fresh, valid, (t, graph, found, (gates, guards, snap), state, event)) ↦
          let resumes =
            blocked_resumes s.projection.task.route s.projection.lifecycle s.projection.phase
              r.to.lifecycle r.to.phase (find_transition-is_permitted s.projection r.to t found) in
          let tests =
            invariants_hold s.projection s.events r.to r.blockers (guards_end host s r guards) in
          let answer = answered host c2 (after host s r graph) r (transition_event host s r graph) (
            after-Answers host c s r graph fresh valid
              (recorded_blockers s.projection r fit resumes tests.1)
              (recorded_graph (enters_integrate s.projection r.to) r.initiative_graph s.projection
                s.events graph snap)) in
          ap (λ s3. transition_workflow host c2 s3 r) state
          ∙ answer
          ∙ ap (λ s3. ok s3 (transition_event host s r graph)) (sym state)
          ∙ ap (ok s2) (sym event)
    ]
