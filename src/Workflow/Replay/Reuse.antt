-- ===== src/Workflow/Replay/Reuse.antt =====
-- A transition whose event id is not new (transitionWorkflow and replayWorkflowEvents of
-- packages/core/src/workflow.ts).
use say_hi.Prelude.{
  ◌≡◌, refl, ap, ◌∙◌, String, Option, inl, inr, Bool, true, false, none, some, List, [], ◌∷◌, ◌++◌,
  any, find, Option-cases, arith,
}
use say_hi.Workflow.Events.{WorkflowEvent, State, TransitionRequest, Host, Diagnostic}
use say_hi.Records.{DependencyGraph}
use say_hi.Validation.{is_identifier}
use say_hi.Workflow.Transition.{
  validate_transition_request, validate_event_metadata, after, ok, has_key, transition_event,
  transition_workflow,
}
use say_hi.Workflow.Transition.Accepted.{IsNew, Admits-ok, transition_workflow-accepted}
use say_hi.Workflow.Replay.{
  has_event_id, admission_failure, replay_admitted, replay_payload, replay_event,
  replay_workflow_events, same_projection, state_matches_accepted_history,
}
use say_hi.Workflow.Replay.Appends.{IsReplayed, replay_workflow_events-append}

reused_refused :
    (host : Host) (events : List WorkflowEvent) (e : WorkflowEvent)
    → any (has_event_id e.content.event_id) events ≡ true
    → (d : Diagnostic) × (admission_failure host events e ≡ some d)
unfolding admission_failure
reused_refused host events e h = elim (Option-cases (admission_failure host events e)) [
  | inl passes ↦ ground (arith, passes, h)
  | inr (d, fails) ↦ (d, fails)
]

reused_mismatch :
    (host : Host) (s : State) (e : WorkflowEvent) (s2 : State)
    → IsReplayed host s
    → any (has_event_id e.content.event_id) s.events ≡ true
    → s2.events ≡ s.events ++ e ∷ []
    → state_matches_accepted_history host s2 ≡ false
unfolding state_matches_accepted_history replay_event
reused_mismatch host s e s2 known reused is =
    let (d, fails) = reused_refused host s.events e reused in
    let replays : replay_workflow_events host s2.events ≡ replay_event host s e =
      ap (replay_workflow_events host) is ∙ replay_workflow_events-append host s.events e s known in
    ap (same_projection s2.projection) replays
    ∙ ap
        (λ o.
          same_projection s2.projection
            (replay_admitted o (replay_payload host s e e.content.payload)))
        fails

-- The request with another event id.
abbrev pub with_event_id : String → TransitionRequest → TransitionRequest
with_event_id id r = record r { event = record r.event { event_id = id } }

-- The tests of a request do not look at its event id, but for its form.
reused-valid :
    (c : Bool) (s : State) (r : TransitionRequest) (id : String)
    → is_identifier id ≡ true
    → validate_transition_request c s r ≡ none
    → validate_transition_request c s (with_event_id id r) ≡ none
unfolding validate_transition_request validate_event_metadata
reused-valid c s r id form valid = ground (arith, form, valid)

reused-ok :
    (host : Host) (c : Bool) (s : State) (r : TransitionRequest) (s2 : State) (e : WorkflowEvent)
    (id : String)
    → is_identifier id ≡ true
    → IsNew host c s r s2 e
    → (graph : Option DependencyGraph) × (transition_workflow host c s (with_event_id id r)
        ≡ ok
            (after host s (with_event_id id r) graph)
            (transition_event host s (with_event_id id r) graph))
reused-ok host c s r s2 e id form (fresh, valid, (t, graph, found, tests, state, event)) = (
  graph,
  Admits-ok host c s (with_event_id id r) t graph fresh (reused-valid c s r id form valid) found
      tests,
)

-- Where a transition with a new key is accepted, the same transition under the id of an event of the
-- history is accepted too, and leaves a state that the engine then takes for inconsistent. The history
-- replays to the state, and the id is a valid identifier.
pub transition_workflow-reused :
    (host : Host) (c : Bool) (s : State) (r : TransitionRequest) (s2 : State) (e : WorkflowEvent)
    (id : String)
    → IsReplayed host s
    → find (has_key r.event.idempotency_key) s.events ≡ none
    → any (has_event_id id) s.events ≡ true
    → is_identifier id ≡ true
    → transition_workflow host c s r ≡ ok s2 e
    → (s3 : State) × (e3 : WorkflowEvent) × (transition_workflow host c s (with_event_id id r)
        ≡ ok s3 e3)
      × (state_matches_accepted_history host s3 ≡ false)
unfolding transition_event
transition_workflow-reused host c s r s2 e id known new reused form h =
    elim (transition_workflow-accepted host c s r s2 e h) [
      | inl (found, is, matches, same) ↦ ground (arith, new, found)
      | inr fresh ↦
          let (graph, accepts) = reused-ok host c s r s2 e id form fresh in
          let again = with_event_id id r in
          (
            after host s again graph,
            transition_event host s again graph,
            accepts,
            reused_mismatch host s (transition_event host s again graph) (after host s again graph)
                known reused refl,
          )
    ]
