-- ===== src/Workflow/Replay/Operations.antt =====
-- Each operation on a state that its history replays to leaves such a state
-- (packages/core/src/workflow.ts).
use say_hi.Prelude.{
  ◌≡◌, refl, sym, ◌∙◌, ◌⊎◌, subst, inl, inr, String, Bool, true, false, ◌&&◌, Option, none, some,
  find, arith,
}
use say_hi.Workflow.Events.{Projection, WorkflowEvent, State, TransitionRequest, Host, Diagnostic}
use say_hi.Workflow.Transition.{
  ok, has_key, transition_event, project_transition_event, transition_workflow,
}
use say_hi.Workflow.Transition.Accepted.{transition_workflow-accepted}
use say_hi.Workflow.Escalation.{
  EscalationRequest, validate_quick_escalation_request, is_escalation,
  matches_route_escalation_intent, escalation_event, project_route_escalated_event, escalated,
  escalated_if, is_retry, answered, escalate_quick_to_build,
}
use say_hi.Workflow.Adoption.{
  AdoptionRequest, validate_baseline_adoption_request, is_same_adoption, adoption_event,
  project_baseline_adopted_event, adopted_state, adopted_if, is_adoption_retry, adoption_answer,
  adopt_workflow_baseline,
}
use say_hi.Workflow.Changes.{appended, unless_refused, retry_or}
use say_hi.Workflow.Changes.Accepted.{change-ok}
use say_hi.Workflow.Replay.{replayed, replay_event, state_matches_accepted_history}
use say_hi.Workflow.Replay.Snapshots.{next}
use say_hi.Workflow.Replay.Appends.{IsReplayed}
use say_hi.Workflow.Replay.Grows.{IsReplayed-IsRecorded, next-IsReplayed, on_consistent}
use say_hi.Workflow.Replay.Changed.{IsNumbered}
use say_hi.Workflow.Replay.Moved.{transition_event-replays}
use say_hi.Workflow.Replay.Raised.{escalation_event-replays, adoption_event-replays}

pub transition_workflow-IsReplayed :
    (host : Host) (s : State) (r : TransitionRequest) (s2 : State) (e : WorkflowEvent)
    → IsReplayed host s
    → IsNumbered s r.event
    → transition_workflow host (state_matches_accepted_history host s) s r ≡ ok s2 e
    → IsReplayed host s2
transition_workflow-IsReplayed host s r s2 e known numbered h =
    let c = state_matches_accepted_history host s in
    elim (transition_workflow-accepted host c s r s2 e h) [
      | inl (found, is, matches, same) ↦ subst (IsReplayed host) (sym same) known
      | inr (fresh, valid, (t, graph, found, admits, state, event)) ↦
          let made = transition_event host s r graph in
          next-IsReplayed host s made (project_transition_event s.projection made) s2 known
            (transition_event-replays host c s r t graph (IsReplayed-IsRecorded host s known)
              numbered fresh valid found admits)
            state
    ]

-- The state after an operation of the shape that change-ok describes.
pub changed-IsReplayed :
    (host : Host) (s : State) (key : String) (o : Option Diagnostic) (e : WorkflowEvent)
    (p : Projection) (s2 : State) (e2 : WorkflowEvent)
    → IsReplayed host s
    → (find (has_key key) s.events ≡ none
        → o ≡ none
        → replay_event host s e ≡ replayed (next s e p))
    → (s2 ≡ s) ⊎ ((find (has_key key) s.events ≡ none) × (o ≡ none) × (appended s e p ≡ ok s2 e2))
    → IsReplayed host s2
changed-IsReplayed host s key o e p s2 e2 known replays (inl same) =
    subst (IsReplayed host) (sym same) known
changed-IsReplayed host s key o e p s2 e2 known replays (inr (fresh, passes, is)) =
    next-IsReplayed host s e p s2 known (replays fresh passes) (ground arith)

escalated_if-is :
    (host : Host) (s : State) (r : EscalationRequest) (o : Option Diagnostic)
    → escalated_if host s r o
      ≡ unless_refused o s (ok (escalated host s r) (escalation_event host s r))
escalated_if-is host s r none = refl
escalated_if-is host s r (some d) = refl

answered-is :
    (b : Bool) (host : Host) (c : Bool) (s : State) (r : EscalationRequest)
    (o : Option WorkflowEvent)
    → answered b host c s r o
      ≡ retry_or b o
          (λ e. is_escalation e.payload && matches_route_escalation_intent e r)
          s
          (unless_refused
            (validate_quick_escalation_request c s r)
            s
            (ok (escalated host s r) (escalation_event host s r)))
answered-is true host c s r (some f) = refl
answered-is true host c s r none =
    escalated_if-is host s r (validate_quick_escalation_request c s r)
answered-is false host c s r (some f) =
    escalated_if-is host s r (validate_quick_escalation_request c s r)
answered-is false host c s r none =
    escalated_if-is host s r (validate_quick_escalation_request c s r)

escalation_looks :
    (s : State) (r : EscalationRequest)
    → validate_quick_escalation_request true s r ≡ none
    → is_retry true s r ≡ true
unfolding validate_quick_escalation_request
escalation_looks s r h = ground arith

pub escalate_quick_to_build-IsReplayed :
    (host : Host) (s : State) (r : EscalationRequest) (s2 : State) (e : WorkflowEvent)
    → IsReplayed host s
    → IsNumbered s r.event
    → escalate_quick_to_build host (state_matches_accepted_history host s) s r ≡ ok s2 e
    → IsReplayed host s2
unfolding escalate_quick_to_build
escalate_quick_to_build-IsReplayed host s r s2 e known numbered h =
    let found = find (has_key r.event.idempotency_key) s.events in
    let made = escalation_event host s r in
    let request = validate_quick_escalation_request true s r in
    let outcome =
      on_consistent host s (λ c. answered (is_retry c s r) host c s r found) (ok s2 e) known h in
    changed-IsReplayed host s r.event.idempotency_key request made
      (project_route_escalated_event s.projection made) s2 e known
      (escalation_event-replays host s r (IsReplayed-IsRecorded host s known) numbered)
      (change-ok (is_retry true s r) found
        (λ x. is_escalation x.payload && matches_route_escalation_intent x r) s request
        (ok (escalated host s r) made) s2 e (escalation_looks s r)
        (sym (answered-is (is_retry true s r) host true s r found) ∙ outcome))

adopted_if-is :
    (host : Host) (s : State) (r : AdoptionRequest) (o : Option Diagnostic)
    → adopted_if host s r o
      ≡ unless_refused o s (ok (adopted_state host s r) (adoption_event host s r))
adopted_if-is host s r none = refl
adopted_if-is host s r (some d) = refl

adoption_answer-is :
    (b : Bool) (host : Host) (c : Bool) (s : State) (r : AdoptionRequest) (o : Option WorkflowEvent)
    → adoption_answer b host c s r o
      ≡ retry_or b o
          (λ e. is_same_adoption e e.payload r)
          s
          (unless_refused
            (validate_baseline_adoption_request c s r)
            s
            (ok (adopted_state host s r) (adoption_event host s r)))
adoption_answer-is true host c s r (some f) = refl
adoption_answer-is true host c s r none =
    adopted_if-is host s r (validate_baseline_adoption_request c s r)
adoption_answer-is false host c s r (some f) =
    adopted_if-is host s r (validate_baseline_adoption_request c s r)
adoption_answer-is false host c s r none =
    adopted_if-is host s r (validate_baseline_adoption_request c s r)

adoption_looks :
    (s : State) (r : AdoptionRequest)
    → validate_baseline_adoption_request true s r ≡ none
    → is_adoption_retry true s r ≡ true
unfolding validate_baseline_adoption_request
adoption_looks s r h = ground arith

pub adopt_workflow_baseline-IsReplayed :
    (host : Host) (s : State) (r : AdoptionRequest) (s2 : State) (e : WorkflowEvent)
    → IsReplayed host s
    → IsNumbered s r.event
    → adopt_workflow_baseline host (state_matches_accepted_history host s) s r ≡ ok s2 e
    → IsReplayed host s2
unfolding adopt_workflow_baseline
adopt_workflow_baseline-IsReplayed host s r s2 e known numbered h =
    let found = find (has_key r.event.idempotency_key) s.events in
    let made = adoption_event host s r in
    let request = validate_baseline_adoption_request true s r in
    let outcome =
      on_consistent host s (λ c. adoption_answer (is_adoption_retry c s r) host c s r found)
        (ok s2 e) known h in
    changed-IsReplayed host s r.event.idempotency_key request made
      (project_baseline_adopted_event s.projection made) s2 e known
      (adoption_event-replays host s r (IsReplayed-IsRecorded host s known) numbered)
      (change-ok (is_adoption_retry true s r) found (λ x. is_same_adoption x x.payload r) s request
        (ok (adopted_state host s r) made) s2 e (adoption_looks s r)
        (sym (adoption_answer-is (is_adoption_retry true s r) host true s r found) ∙ outcome))
