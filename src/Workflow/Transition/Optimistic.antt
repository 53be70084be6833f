-- ===== src/Workflow/Transition/Optimistic.antt =====
-- Which states a transition may change (the version and the consistency that transitionWorkflow of
-- packages/core/src/workflow.ts asks for).
use say_hi.Prelude.{
  ◌+◌, ◌≡◌, ◌⊎◌, inl, inr, ap, sym, ◌∙◌, Bool, true, ◌&&◌, Option, none, some, [], ◌∷◌, ◌++◌,
  str_eq, str_eq_iff, find, Option-cases, Bool-cases, arith,
}
use say_hi.Workflow.Events.{State, WorkflowEvent, TransitionRequest, Host, Diagnostic}
use say_hi.Workflow.Guards.{Snapshot, no_graph, snapshot, refused}
use say_hi.Workflow.History.{is_transition}
use say_hi.Workflow.Transition.{
  ok, failure, accept, admit_transition, requested, retried, matches_transition_intent,
  validate_transition_request, transition_event, project_transition_event, has_key,
  transition_workflow,
}
use say_hi.Workflow.Transition.Accepted.{transition_workflow-accepted}

current :
    (c : Bool) (s : State) (r : TransitionRequest)
    → validate_transition_request c s r ≡ none
    → (c ≡ true)
      × (str_eq r.task_id s.projection.task.id ≡ true)
      × (r.expected_version ≡ s.projection.version)
unfolding validate_transition_request
current c s r h = (ground arith, ground arith, ground arith)

accept-failure :
    (host : Host) (s : State) (r : TransitionRequest) (g : Snapshot) (s2 : State) (d : Diagnostic)
    → accept host s r g ≡ failure s2 d
    → s2 ≡ s
accept-failure host s r no_graph s2 d h = cc
accept-failure host s r (snapshot g) s2 d h = cc
accept-failure host s r (refused x) s2 d h = ground arith

requested-failure :
    (host : Host) (s : State) (r : TransitionRequest) (o : Option Diagnostic) (s2 : State)
    (d : Diagnostic)
    → requested host s r o ≡ failure s2 d
    → s2 ≡ s
requested-failure host s r (some x) s2 d h = ground arith
requested-failure host s r none s2 d h =
    accept-failure host s r
      (admit_transition host s r.to r.event.actor r.gates r.blockers r.initiative_graph) s2 d h

retried-failure :
    (s : State) (r : TransitionRequest) (e : WorkflowEvent) (s2 : State) (d : Diagnostic)
    → retried s r e ≡ failure s2 d
    → s2 ≡ s
retried-failure s r e s2 d h =
    elim (Bool-cases (is_transition e.content.payload && matches_transition_intent e.content r)) [
      | inl m ↦ ground (arith, m)
      | inr m ↦ ground (arith, m)
    ]

-- A transition that is refused returns the state that it was given.
pub transition_workflow-failure :
    (host : Host) (c : Bool) (s : State) (r : TransitionRequest) (s2 : State) (d : Diagnostic)
    → transition_workflow host c s r ≡ failure s2 d
    → s2 ≡ s
unfolding transition_workflow
transition_workflow-failure host c s r s2 d h =
    elim (Option-cases (find (has_key r.event.idempotency_key) s.events)) [
      | inl fresh ↦
          requested-failure host s r (validate_transition_request c s r) s2 d
            (ground (arith, fresh))
      | inr (e, found) ↦ retried-failure s r e s2 d (ground (arith, found))
    ]

-- An accepted transition returns the state that it was given, or the state matches its history, the
-- request names its Task and its version, and the new state has the next version and one more event,
-- at the end.
pub transition_workflow-ok :
    (host : Host) (c : Bool) (s : State) (r : TransitionRequest) (s2 : State) (e : WorkflowEvent)
    → transition_workflow host c s r ≡ ok s2 e
    → (s2 ≡ s)
      ⊎ ((c ≡ true)
          × (r.task_id ≡ s.projection.task.id)
          × (r.expected_version ≡ s.projection.version)
          × (s2.projection.version ≡ r.expected_version + 1)
          × (s2.events ≡ s.events ++ e ∷ []))
unfolding transition_event project_transition_event
transition_workflow-ok host c s r s2 e h = elim (transition_workflow-accepted host c s r s2 e h) [
  | inl (found, is, matches, same) ↦ inl same
  | inr (fresh, valid, (t, graph, found, tests, state, event)) ↦
      let (consistent, task, version) = current c s r valid in
      inr (
        consistent,
        (str_eq_iff r.task_id s.projection.task.id).0 task,
        version,
        ap (λ x. x.projection.version) state ∙ ap (λ n. n + 1) (sym version),
        ap (λ x. x.events) state ∙ ap (λ x. s.events ++ x ∷ []) (sym event),
      )
]
