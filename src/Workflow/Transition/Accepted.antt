-- ===== src/Workflow/Transition/Accepted.antt =====
-- What is known of a transition that was accepted (transitionWorkflow of packages/core/src/workflow.ts):
-- it is a retry of an event of the history, or a new event that passed every test.
use say_hi.Prelude.{
  ◌≡◌, refl, sym, ap, ◌∙◌, ◌⊎◌, inl, inr, Bool, true, ◌&&◌, Option, none, some, find, Bool-cases,
  Option-cases, ◌or_else◌, arith,
}
use say_hi.Records.{DependencyGraph}
use say_hi.Workflow.Events.{WorkflowEvent, State, TransitionRequest, Host, Diagnostic}
use say_hi.Workflow.Routes.{Transition, find_transition}
use say_hi.Workflow.Gates.{validate_gates}
use say_hi.Workflow.History.{is_transition}
use say_hi.Workflow.Guards.{
  Snapshot, no_graph, snapshot, refused, validate_initiative_graph_transition,
}
use say_hi.Workflow.Transition.{
  validate_transition_request, guard_failure, admitted, admitted_by, admit_transition,
  transition_event, matches_transition_intent, ok, after, accept, retried, requested, has_key,
  transition_workflow,
}

abbrev pub as_snapshot : Option DependencyGraph → Snapshot
as_snapshot none = no_graph
as_snapshot (some graph) = snapshot graph

-- Every test that a new event passes, and the graph that it records.
abbrev pub Admits : Host → State → TransitionRequest → Transition → Option DependencyGraph → Type 0
Admits host s r t graph =
    (validate_gates t.required_gates r.gates ≡ none)
    × (guard_failure host s r.to r.event.actor r.gates r.blockers ≡ none)
    × (validate_initiative_graph_transition s.projection s.events r.to r.initiative_graph
        ≡ as_snapshot graph)

abbrev pub IsNew : Host → Bool → State → TransitionRequest → State → WorkflowEvent → Type 0
IsNew host c s r s2 e =
    (find (has_key r.event.idempotency_key) s.events ≡ none)
    × (validate_transition_request c s r ≡ none)
    × ((t : Transition) × (graph : Option DependencyGraph) × (find_transition s.projection r.to
          ≡ some t)
        × Admits host s r t graph
        × (s2 ≡ after host s r graph)
        × (e ≡ transition_event host s r graph))

abbrev pub IsRetry : State → TransitionRequest → State → WorkflowEvent → Type 0
IsRetry s r s2 e =
    (find (has_key r.event.idempotency_key) s.events ≡ some e)
    × (is_transition e.content.payload ≡ true)
    × (matches_transition_intent e.content r ≡ true)
    × (s2 ≡ s)

retried-IsRetry :
    (s : State) (r : TransitionRequest) (e : WorkflowEvent) (s2 : State) (e2 : WorkflowEvent)
    → retried s r e ≡ ok s2 e2
    → (e2 ≡ e)
      × (is_transition e.content.payload ≡ true)
      × (matches_transition_intent e.content r ≡ true)
      × (s2 ≡ s)
retried-IsRetry s r e s2 e2 h =
    elim (Bool-cases (is_transition e.content.payload && matches_transition_intent e.content r)) [
      | inl m ↦ ground (arith, m)
      | inr m ↦ ground (arith, m)
    ]

pub snapshot-cases :
    (g : Snapshot)
    → ((graph : Option DependencyGraph) × (g ≡ as_snapshot graph))
      ⊎ ((d : Diagnostic) × (g ≡ refused d))
snapshot-cases no_graph = inl (none, refl)
snapshot-cases (snapshot graph) = inl (some graph, refl)
snapshot-cases (refused d) = inr (d, refl)

accept-as_snapshot :
    (host : Host) (s : State) (r : TransitionRequest) (graph : Option DependencyGraph)
    → accept host s r (as_snapshot graph)
      ≡ ok (after host s r graph) (transition_event host s r graph)
accept-as_snapshot host s r none = refl
accept-as_snapshot host s r (some graph) = refl

accepted_graph :
    (host : Host) (s : State) (r : TransitionRequest) (g : Snapshot) (s2 : State)
    (e : WorkflowEvent)
    → accept host s r g ≡ ok s2 e
    → (graph : Option DependencyGraph) × (g ≡ as_snapshot graph)
      × (s2 ≡ after host s r graph)
      × (e ≡ transition_event host s r graph)
accepted_graph host s r no_graph s2 e h = (none, refl, ground arith, ground arith)
accepted_graph host s r (snapshot graph) s2 e h = (some graph, refl, ground arith, ground arith)
accepted_graph host s r (refused d) s2 e h = cc

Admitted : Option Transition → Host → State → TransitionRequest → Option DependencyGraph → Type 0
Admitted found host s r graph = (t : Transition) × (found ≡ some t) × Admits host s r t graph

passes_all :
    (a b : Option Diagnostic) (g : Snapshot) (graph : Option DependencyGraph)
    → admitted (a or_else b) g ≡ as_snapshot graph
    → (a ≡ none) × (b ≡ none) × (g ≡ as_snapshot graph)
passes_all none none g graph h = (refl, refl, h)
passes_all none (some d) g none h = cc
passes_all none (some d) g (some graph) h = cc
passes_all (some d) b g none h = cc
passes_all (some d) b g (some graph) h = cc

admitted_by-Admitted :
    (found : Option Transition) (host : Host) (s : State) (r : TransitionRequest)
    (graph : Option DependencyGraph)
    → admitted_by found host s r.to r.event.actor r.gates r.blockers r.initiative_graph
      ≡ as_snapshot graph
    → Admitted found host s r graph
unfolding Admitted
admitted_by-Admitted none host s r none h = cc
admitted_by-Admitted none host s r (some graph) h = cc
admitted_by-Admitted (some t) host s r graph h = (
  t,
  refl,
  passes_all (validate_gates t.required_gates r.gates)
      (guard_failure host s r.to r.event.actor r.gates r.blockers)
      (validate_initiative_graph_transition s.projection s.events r.to r.initiative_graph) graph h,
)

requested-IsNew :
    (host : Host) (c : Bool) (s : State) (r : TransitionRequest) (s2 : State) (e : WorkflowEvent)
    → find (has_key r.event.idempotency_key) s.events ≡ none
    → requested host s r (validate_transition_request c s r) ≡ ok s2 e
    → IsNew host c s r s2 e
unfolding admit_transition Admitted
requested-IsNew host c s r s2 e fresh h = elim (Option-cases (validate_transition_request c s r)) [
  | inr (d, bad) ↦ ground (arith, bad)
  | inl good ↦
      let outcome : accept host s r
            (admit_transition host s r.to r.event.actor r.gates r.blockers r.initiative_graph)
          ≡ ok s2 e =
        ap (requested host s r) (sym good) ∙ h in
      let (graph, is, state, event) =
        accepted_graph host s r
          (admit_transition host s r.to r.event.actor r.gates r.blockers r.initiative_graph) s2 e
          outcome in
      let (t, found, tests) =
        admitted_by-Admitted (find_transition s.projection r.to) host s r graph is in
      (fresh, good, (t, graph, found, tests, state, event))
]

-- An accepted transition is a retry, or a new event that passed every test.
pub transition_workflow-accepted :
    (host : Host) (c : Bool) (s : State) (r : TransitionRequest) (s2 : State) (e : WorkflowEvent)
    → transition_workflow host c s r ≡ ok s2 e
    → IsRetry s r s2 e ⊎ IsNew host c s r s2 e
unfolding transition_workflow
transition_workflow-accepted host c s r s2 e h =
    elim (Option-cases (find (has_key r.event.idempotency_key) s.events)) [
      | inl fresh ↦ inr (requested-IsNew host c s r s2 e fresh (ground (arith, fresh)))
      | inr (e0, found) ↦
          let (same, t, m, state) = retried-IsRetry s r e0 s2 e (ground (arith, found)) in
          inl (ground (arith, found, same, t, m, state))
    ]

passes-admitted :
    (a b : Option Diagnostic) (g : Snapshot) → a ≡ none → b ≡ none → admitted (a or_else b) g ≡ g
passes-admitted a b g p q = rw (p, q)

-- A request with a new key that passes every test is accepted.
pub Admits-ok :
    (host : Host) (c : Bool) (s : State) (r : TransitionRequest) (t : Transition)
    (graph : Option DependencyGraph)
    → find (has_key r.event.idempotency_key) s.events ≡ none
    → validate_transition_request c s r ≡ none
    → find_transition s.projection r.to ≡ some t
    → Admits host s r t graph
    → transition_workflow host c s r ≡ ok (after host s r graph) (transition_event host s r graph)
unfolding transition_workflow admit_transition
Admits-ok host c s r t graph fresh valid found (gates, guards, snap) =
    let admits =
      passes-admitted (validate_gates t.required_gates r.gates)
        (guard_failure host s r.to r.event.actor r.gates r.blockers)
        (validate_initiative_graph_transition s.projection s.events r.to r.initiative_graph) gates
        guards in
    let asked =
      ap (λ o. admitted_by o host s r.to r.event.actor r.gates r.blockers r.initiative_graph) found
      ∙ (admits ∙ snap) in
    rw (fresh, transition_workflow)
      (ap (requested host s r) valid
        ∙ (ap (accept host s r) asked ∙ accept-as_snapshot host s r graph))
