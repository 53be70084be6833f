-- ===== src/Workflow/Escalation/Sound.antt =====
-- What an escalation keeps and promises (escalateQuickToBuild of packages/core/src/workflow.ts).
use say_hi.Prelude.{
  ◌+◌, ◌≡◌, refl, sym, ap, ◌∙◌, ◌⊎◌, subst, inl, inr, Bool, true, false, ◌&&◌, Option, none, some,
  [], find, Bool-cases, arith,
}
use say_hi.Records.{quick, build, explore, active, eq_route, eq_lifecycle}
use say_hi.Workflow.Events.{WorkflowEvent, State, Host, Diagnostic}
use say_hi.Workflow.Transition.{ok, has_key}
use say_hi.Workflow.Transition.Chain.{Chain-append, length-append, count_repair_attempts-append}
use say_hi.Workflow.Transition.Sound.{IsSound}
use say_hi.Workflow.Escalation.{
  EscalationRequest, validate_quick_escalation_request, escalation_event,
  project_route_escalated_event, escalated, escalated_if, is_escalation,
  matches_route_escalation_intent, repeated, is_retry, answered, escalate_quick_to_build,
}

escalated_if-state :
    (host : Host) (s : State) (r : EscalationRequest) (o : Option Diagnostic) (s2 : State)
    (e : WorkflowEvent)
    → escalated_if host s r o ≡ ok s2 e
    → (o ≡ none) × (s2 ≡ escalated host s r)
escalated_if-state host s r none s2 e h = (refl, ground arith)
escalated_if-state host s r (some d) s2 e h = cc

repeated-state :
    (s : State) (r : EscalationRequest) (e s2e : WorkflowEvent) (s2 : State)
    → repeated s r e ≡ ok s2 s2e
    → s2 ≡ s
repeated-state s r e s2e s2 h =
    elim (Bool-cases
      (is_escalation e.content.payload && matches_route_escalation_intent e.content r)) [
        | inl m ↦ ground (arith, m)
        | inr m ↦ ground (arith, m)
      ]

Escalated : Host → Bool → State → EscalationRequest → State → Type 0
Escalated host c s r s2 =
    (s2 ≡ s) ⊎ ((validate_quick_escalation_request c s r ≡ none) × (s2 ≡ escalated host s r))

answered-Escalated :
    (b : Bool) (host : Host) (c : Bool) (s : State) (r : EscalationRequest)
    (o : Option WorkflowEvent) (s2 : State) (e : WorkflowEvent)
    → answered b host c s r o ≡ ok s2 e
    → Escalated host c s r s2
unfolding Escalated
answered-Escalated true host c s r (some f) s2 e h = inl (repeated-state s r f e s2 h)
answered-Escalated true host c s r none s2 e h =
    inr (escalated_if-state host s r (validate_quick_escalation_request c s r) s2 e h)
answered-Escalated false host c s r o s2 e h =
    inr (escalated_if-state host s r (validate_quick_escalation_request c s r) s2 e h)

escalated-IsSound :
    (host : Host) (s : State) (r : EscalationRequest)
    → IsSound host s
    → IsSound host (escalated host s r)
unfolding escalation_event project_route_escalated_event
escalated-IsSound host s r (chain, version, repairs, fit) =
    let e = escalation_event host s r in
    (
      Chain-append host s.events e chain (ap (λ n. n + 1) version) refl refl,
      ap (λ n. n + 1) version ∙ sym (length-append s.events e),
      ground (arith, count_repair_attempts-append s.events e),
      refl,
    )

is_active_quick :
    (c : Bool) (s : State) (r : EscalationRequest)
    → validate_quick_escalation_request c s r ≡ none
    → (eq_route s.projection.task.route quick ≡ true)
      × (eq_lifecycle s.projection.lifecycle active ≡ true)
unfolding validate_quick_escalation_request
is_active_quick c s r h = (ground arith, ground arith)

-- An accepted escalation keeps a Task sound. It leaves the state as it is, for a retry, or it takes an
-- active Quick to the Explore Phase of a Build with the same policies and no blockers.
pub escalate_quick_to_build-IsSound :
    (host : Host) (c : Bool) (s : State) (r : EscalationRequest) (s2 : State) (e : WorkflowEvent)
    → IsSound host s
    → escalate_quick_to_build host c s r ≡ ok s2 e
    → IsSound host s2
      × ((s2 ≡ s)
          ⊎ ((eq_route s.projection.task.route quick ≡ true)
              × (eq_lifecycle s.projection.lifecycle active ≡ true)
              × (s2.projection.task.route ≡ build)
              × (s2.projection.lifecycle ≡ active)
              × (s2.projection.phase ≡ explore)
              × (s2.projection.task.policies ≡ s.projection.task.policies)
              × (s2.projection.blockers ≡ [])))
unfolding escalate_quick_to_build Escalated escalation_event project_route_escalated_event
escalate_quick_to_build-IsSound host c s r s2 e sound h =
    elim (answered-Escalated (is_retry c s r) host c s r
      (find (has_key r.event.idempotency_key) s.events) s2 e h) [
        | inl same ↦ (subst (IsSound host) (sym same) sound, inl same)
        | inr (valid, state) ↦
            let (route, lifecycle) = is_active_quick c s r valid in
            (
              subst (IsSound host) (sym state) (escalated-IsSound host s r sound),
              inr (
                route,
                lifecycle,
                ap (λ x. x.projection.task.route) state,
                ap (λ x. x.projection.lifecycle) state,
                ap (λ x. x.projection.phase) state,
                ap (λ x. x.projection.task.policies) state,
                ap (λ x. x.projection.blockers) state,
              ),
            )
      ]
