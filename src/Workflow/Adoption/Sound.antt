-- ===== src/Workflow/Adoption/Sound.antt =====
-- What an adoption of a Baseline keeps (adoptWorkflowBaseline of packages/core/src/workflow.ts).
use say_hi.Prelude.{
  ◌+◌, ◌≡◌, refl, sym, ap, ◌∙◌, ◌⊎◌, subst, inl, inr, Bool, true, false, Option, none, some, find,
  Bool-cases, arith,
}
use say_hi.Workflow.Events.{WorkflowEvent, State, Host, Diagnostic}
use say_hi.Workflow.Routes.{position_of}
use say_hi.Workflow.Transition.{ok, has_key}
use say_hi.Workflow.Transition.Chain.{Chain-append, length-append, count_repair_attempts-append}
use say_hi.Workflow.Transition.Sound.{IsSound}
use say_hi.Workflow.Adoption.{
  AdoptionRequest, validate_baseline_adoption_request, adoption_event,
  project_baseline_adopted_event, adopted_state, adopted_if, is_same_adoption, repeated_adoption,
  is_adoption_retry, adoption_answer, adopt_workflow_baseline,
}

adopted_if-state :
    (host : Host) (s : State) (r : AdoptionRequest) (o : Option Diagnostic) (s2 : State)
    (e : WorkflowEvent)
    → adopted_if host s r o ≡ ok s2 e
    → s2 ≡ adopted_state host s r
adopted_if-state host s r none s2 e h = ground arith
adopted_if-state host s r (some d) s2 e h = cc

repeated_adoption-state :
    (s : State) (r : AdoptionRequest) (e e2 : WorkflowEvent) (s2 : State)
    → repeated_adoption s r e ≡ ok s2 e2
    → s2 ≡ s
repeated_adoption-state s r e e2 s2 h =
    elim (Bool-cases (is_same_adoption e.content e.content.payload r)) [
      | inl m ↦ ground (arith, m)
      | inr m ↦ ground (arith, m)
    ]

answer-state :
    (b : Bool) (host : Host) (c : Bool) (s : State) (r : AdoptionRequest) (o : Option WorkflowEvent)
    (s2 : State) (e : WorkflowEvent)
    → adoption_answer b host c s r o ≡ ok s2 e
    → (s2 ≡ s) ⊎ (s2 ≡ adopted_state host s r)
answer-state true host c s r (some f) s2 e h = inl (repeated_adoption-state s r f e s2 h)
answer-state true host c s r none s2 e h =
    inr (adopted_if-state host s r (validate_baseline_adoption_request c s r) s2 e h)
answer-state false host c s r o s2 e h =
    inr (adopted_if-state host s r (validate_baseline_adoption_request c s r) s2 e h)

adopted_state-IsSound :
    (host : Host) (s : State) (r : AdoptionRequest)
    → IsSound host s
    → IsSound host (adopted_state host s r)
unfolding adoption_event project_baseline_adopted_event
adopted_state-IsSound host s r (chain, version, repairs, fit) =
    let e = adoption_event host s r in
    (
      Chain-append host s.events e chain (ap (λ n. n + 1) version) refl refl,
      ap (λ n. n + 1) version ∙ sym (length-append s.events e),
      ground (arith, count_repair_attempts-append s.events e),
      fit,
    )

-- An accepted adoption of a Baseline keeps a Task sound, and its definition, its position and its
-- blockers as they are.
pub adopt_workflow_baseline-IsSound :
    (host : Host) (c : Bool) (s : State) (r : AdoptionRequest) (s2 : State) (e : WorkflowEvent)
    → IsSound host s
    → adopt_workflow_baseline host c s r ≡ ok s2 e
    → IsSound host s2
      × (s2.projection.task ≡ s.projection.task)
      × (position_of s2.projection ≡ position_of s.projection)
      × (s2.projection.blockers ≡ s.projection.blockers)
unfolding adopt_workflow_baseline adoption_event project_baseline_adopted_event
adopt_workflow_baseline-IsSound host c s r s2 e sound h =
    elim (answer-state (is_adoption_retry c s r) host c s r
      (find (has_key r.event.idempotency_key) s.events) s2 e h) [
        | inl same ↦ (
          subst (IsSound host) (sym same) sound,
          ap (λ x. x.projection.task) same,
          ap (λ x. position_of x.projection) same,
          ap (λ x. x.projection.blockers) same,
        )
        | inr state ↦ (
          subst (IsSound host) (sym state) (adopted_state-IsSound host s r sound),
          ap (λ x. x.projection.task) state,
          ap (λ x. position_of x.projection) state,
          ap (λ x. x.projection.blockers) state,
        )
      ]
