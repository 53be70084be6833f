-- ===== src/Workflow/Replay/Moved.antt =====
-- The replay of the events of transitions (transitionWorkflow and replayWorkflowEvents of
-- packages/core/src/workflow.ts).
use say_hi.Prelude.{
  ◌≡◌, refl, ap, ◌∙◌, inl, inr, ◌==◌, Bool, true, false, not, ◌&&◌, Option, none, some, [], ◌∷◌,
  all, find, length, is_blank, Bool-cases, arith,
}
use say_hi.Records.{DependencyGraph, active, blocked, field, eq_lifecycle}
use say_hi.Workflow.Events.{Projection, workflow_transitioned, State, TransitionRequest, Host}
use say_hi.Workflow.Routes.{Transition, find_transition, position_of}
use say_hi.Workflow.Routes.Table.{find_transition-is_permitted, blocked_resumes}
use say_hi.Workflow.Gates.{validate_gates}
use say_hi.Workflow.Guards.{
  given, validate_transition_invariants, validate_initiative_graph_transition,
}
use say_hi.Workflow.Transition.{
  guard_failure, has_key, validate_event_metadata, validate_transition_request,
  blockers_after_transition, transition_event, project_transition_event, after,
}
use say_hi.Workflow.Transition.Accepted.{as_snapshot, Admits}
use say_hi.Workflow.Transition.Sound.{BlockersFit, invariants_hold, guards_end, blockers_after-Fit}
use say_hi.Workflow.Transition.Retry.{str_eq_refl, positions_equal_refl}
use say_hi.Workflow.Payloads.{is_text, is_workflow_position, is_payload}
use say_hi.Workflow.Replay.Envelope.{continues}
use say_hi.Workflow.Replay.{
  replayed, admission_failure, accepted_with, replay_transition, replay_payload, replay_event,
}
use say_hi.Workflow.Replay.Failures.{transition_replay_failure}
use say_hi.Workflow.Replay.Sound.{IsRecorded}
use say_hi.Workflow.Replay.Snapshots.{transition_graph, accepted_with-next}
use say_hi.Workflow.Replay.Admits.{signed-admitted}
use say_hi.Workflow.Replay.References.{is_blank-is_empty, validate_gates-is_gate_acceptance}
use say_hi.Workflow.Replay.Changed.{IsNumbered, eq_route_refl, admitted-replays}

request_valid :
    (c : Bool) (s : State) (r : TransitionRequest)
    → validate_transition_request c s r ≡ none
    → (is_blank r.to.step ≡ false)
      × (all is_text (given r.blockers) ≡ true)
      × (validate_event_metadata (field "event" ∷ []) r.event ≡ none)
unfolding validate_transition_request
request_valid c s r h = (ground arith, ground arith, ground arith)

blockers_text :
    (p : Projection) (r : TransitionRequest)
    → all is_text p.blockers ≡ true
    → all is_text (given r.blockers) ≡ true
    → all is_text (blockers_after_transition p r) ≡ true
unfolding blockers_after_transition
blockers_text p r old new = elim (Bool-cases (eq_lifecycle r.to.lifecycle blocked)) [
  | inl b ↦ rw (b, new)
  | inr b ↦
      elim (Bool-cases (eq_lifecycle p.lifecycle blocked && eq_lifecycle r.to.lifecycle active)) [
        | inl q ↦ rw (b, q)
        | inr q ↦ rw (b, q, old)
      ]
]

blockers_to_blocked :
    (p : Projection) (r : TransitionRequest)
    → eq_lifecycle r.to.lifecycle blocked ≡ true
    → blockers_after_transition p r ≡ given r.blockers
unfolding blockers_after_transition
blockers_to_blocked p r h = rw h

-- The blockers that the event records pass the tests that the blockers of the request passed.
invariants_again :
    (s : State) (r : TransitionRequest)
    → (length (blockers_after_transition s.projection r) == 0)
      ≡ not (eq_lifecycle r.to.lifecycle blocked)
    → validate_transition_invariants s.projection s.events r.to r.blockers ≡ none
    → validate_transition_invariants s.projection s.events r.to
        (some (blockers_after_transition s.projection r))
      ≡ none
unfolding validate_transition_invariants
invariants_again s r fit h = elim (Bool-cases (eq_lifecycle r.to.lifecycle blocked)) [
  | inl b ↦ ground (arith, b, fit)
  | inr b ↦ ground (arith, b, fit)
]

guards_again :
    (host : Host) (s : State) (r : TransitionRequest)
    → (length (blockers_after_transition s.projection r) == 0)
      ≡ not (eq_lifecycle r.to.lifecycle blocked)
    → guard_failure host s r.to r.event.actor r.gates r.blockers ≡ none
    → guard_failure host s r.to r.event.actor r.gates
        (some (blockers_after_transition s.projection r))
      ≡ none
unfolding guard_failure
guards_again host s r fit h =
    let invariants = invariants_again s r fit (guards_end host s r h) in ground arith

transition_again :
    (host : Host) (s : State) (r : TransitionRequest) (t : Transition)
    (graph : Option DependencyGraph)
    → BlockersFit s.projection
    → find_transition s.projection r.to ≡ some t
    → Admits host s r t graph
    → transition_replay_failure host s (transition_event host s r graph).content ≡ none
unfolding transition_replay_failure transition_event continues
transition_again host s r t graph fit found (gates, guards, snapshot) =
    let fits =
      blockers_after-Fit s.projection r fit
        (blocked_resumes s.projection.task.route s.projection.lifecycle s.projection.phase
          r.to.lifecycle r.to.phase (find_transition-is_permitted s.projection r.to t found))
        (invariants_hold s.projection s.events r.to r.blockers (guards_end host s r guards)).0 in
    rw (
      str_eq_refl s.projection.task.id,
      eq_route_refl s.projection.task.route,
      positions_equal_refl (position_of s.projection),
      found,
      gates,
      guards_again host s r fits guards,
    )

transition_admitted :
    (host : Host) (c : Bool) (s : State) (r : TransitionRequest) (t : Transition)
    (graph : Option DependencyGraph)
    → IsRecorded host s
    → IsNumbered s r.event
    → find (has_key r.event.idempotency_key) s.events ≡ none
    → validate_transition_request c s r ≡ none
    → validate_gates t.required_gates r.gates ≡ none
    → admission_failure host s.events (transition_event host s r graph) ≡ none
unfolding transition_event is_workflow_position is_payload
transition_admitted host c s r t graph known (id, safe) key valid gates =
    let (sound, keys, ids, identifier, step, texts, limit) = known in
    let (to_step, new_texts, metadata) = request_valid c s r valid in
    signed-admitted host s (transition_event host s r graph).content known (metadata, key, id, safe)
      (
        refl,
        refl,
        refl,
        ap not (is_blank-is_empty r.to.step to_step),
        validate_gates-is_gate_acceptance t.required_gates r.gates gates,
        blockers_text s.projection r texts new_texts,
        ap not step,
      )

replay_of :
    (host : Host) (s : State) (r : TransitionRequest) (graph : Option DependencyGraph)
    → validate_initiative_graph_transition s.projection s.events r.to graph ≡ as_snapshot graph
    → transition_replay_failure host s (transition_event host s r graph).content ≡ none
    → replay_payload host s (transition_event host s r graph) workflow_transitioned
      ≡ replayed (after host s r graph)
unfolding replay_payload transition_event
replay_of host s r graph again passes =
    let e = transition_event host s r graph in
    ap (replay_transition host s e) passes
    ∙ ap (λ x. accepted_with x s e (project_transition_event s.projection)) again
    ∙ accepted_with-next graph s e (project_transition_event s.projection) refl

-- The event of a transition that was accepted replays.
pub transition_event-replays :
    (host : Host) (c : Bool) (s : State) (r : TransitionRequest) (t : Transition)
    (graph : Option DependencyGraph)
    → IsRecorded host s
    → IsNumbered s r.event
    → find (has_key r.event.idempotency_key) s.events ≡ none
    → validate_transition_request c s r ≡ none
    → find_transition s.projection r.to ≡ some t
    → Admits host s r t graph
    → replay_event host s (transition_event host s r graph) ≡ replayed (after host s r graph)
unfolding transition_event
transition_event-replays host c s r t graph known numbered key valid found admits =
    let e = transition_event host s r graph in
    let ((chain, version, repairs, fit), keys, ids, identifier, step, texts, limit) = known in
    let own : graph ≡ r.initiative_graph =
      transition_graph s.projection s.events r.to r.initiative_graph graph admits.2 in
    let again : validate_initiative_graph_transition s.projection s.events r.to graph
        ≡ as_snapshot graph =
      ap (validate_initiative_graph_transition s.projection s.events r.to) own ∙ admits.2 in
    admitted-replays host s e (replayed (after host s r graph))
      (transition_admitted host c s r t graph known numbered key valid admits.0)
      (replay_of host s r graph again (transition_again host s r t graph fit found admits))
