-- ===== src/Workflow/Start/Sound.antt =====
-- A Task from its creation through its transitions (packages/core/src/workflow.ts).
use say_hi.Prelude.{
  ◌≡◌, refl, sym, ap, ◌∙◌, subst, inl, inr, Bool, true, false, Option, none, some, List, [], ◌∷◌,
  any, In, Option-cases, Bool-cases, arith,
}
use say_hi.Records.Equality.{eq_evidence_kind-true}
use say_hi.Records.{
  to_route, Route, quick, Evidence, human_approval, GateAcceptance, eq_route, eq_evidence_kind,
}
use say_hi.Workflow.Events.{WorkflowEvent, State, TransitionRequest, Host, Diagnostic}
use say_hi.Workflow.History.{count_repair_attempts}
use say_hi.Workflow.Gates.{validate_gates, validate_route_gate}
use say_hi.Workflow.Gates.Exact.{Satisfies, validate_gates-exact}
use say_hi.Workflow.Transition.{ok, transition_workflow}
use say_hi.Workflow.Transition.Sound.{IsSound, transition_workflow-IsSound}
use say_hi.Workflow.Escalation.{EscalationRequest, escalate_quick_to_build}
use say_hi.Workflow.Escalation.Sound.{escalate_quick_to_build-IsSound}
use say_hi.Workflow.Adoption.{AdoptionRequest, adopt_workflow_baseline}
use say_hi.Workflow.Adoption.Sound.{adopt_workflow_baseline-IsSound}
use say_hi.Workflow.Start.{
  StartRequest, validate_start_request, created_event, project_created_event, started, first_state,
  start, start_workflow_task, route_gates,
}

-- The states of a Task that was started, and moved by accepted transitions, escalations and
-- adoptions of a Baseline.
pub data Lives (host : Host) : State → Type 0 where
  begun :
      (r : StartRequest) (s : State) (e : WorkflowEvent)
      → start_workflow_task host r ≡ started s e
      → Lives host s
  moved :
      {s : State} (c : Bool) (r : TransitionRequest) (s2 : State) (e : WorkflowEvent)
      → Lives host s
      → transition_workflow host c s r ≡ ok s2 e
      → Lives host s2
  raised :
      {s : State} (c : Bool) (r : EscalationRequest) (s2 : State) (e : WorkflowEvent)
      → Lives host s
      → escalate_quick_to_build host c s r ≡ ok s2 e
      → Lives host s2
  rebased :
      {s : State} (c : Bool) (r : AdoptionRequest) (s2 : State) (e : WorkflowEvent)
      → Lives host s
      → adopt_workflow_baseline host c s r ≡ ok s2 e
      → Lives host s2

pub start-first_state :
    (host : Host) (r : StartRequest) (o : Option Diagnostic) (s : State) (e : WorkflowEvent)
    → start host r o ≡ started s e
    → (o ≡ none) × (s ≡ first_state host r)
start-first_state host r none s e h = (refl, ground arith)
start-first_state host r (some d) s e h = cc

started_event :
    (host : Host) (r : StartRequest) (o : Option Diagnostic) (s : State) (e : WorkflowEvent)
    → start host r o ≡ started s e
    → (o ≡ none) × (e ≡ created_event host r)
started_event host r none s e h = (refl, ground arith)
started_event host r (some d) s e h = cc

first_state-IsSound : (host : Host) (r : StartRequest) → IsSound host (first_state host r)
unfolding created_event project_created_event count_repair_attempts
first_state-IsSound host r = (((refl, refl, refl), tt), refl, ground arith, refl)

-- Every state of a Task that starts and then moves by accepted transitions, escalations and adoptions of
-- a Baseline is sound: its events are a chain of digests from sequence 1 on, its version is their
-- number, its repairs are within its policy, and it has blockers exactly when it is blocked.
pub Lives-IsSound : (host : Host) {s : State} → Lives host s → IsSound host s
unfolding start_workflow_task
Lives-IsSound host (begun r s e h) =
    subst (IsSound host) (sym (start-first_state host r (validate_start_request r) s e h).1)
      (first_state-IsSound host r)
Lives-IsSound host (moved {s} c r s2 e lives h) =
    transition_workflow-IsSound host c s r s2 e (Lives-IsSound host lives) h
Lives-IsSound host (raised {s} c r s2 e lives h) =
    (escalate_quick_to_build-IsSound host c s r s2 e (Lives-IsSound host lives) h).0
Lives-IsSound host (rebased {s} c r s2 e lives h) =
    (adopt_workflow_baseline-IsSound host c s r s2 e (Lives-IsSound host lives) h).0

-- What the Route Gate of a Task promises: an acceptance of the Gate alone, fit for it, with a human
-- approval unless the Route is Quick.
abbrev pub IsConfirmed : Route → GateAcceptance → Type 0
IsConfirmed route gate =
    Satisfies (to_route ∷ []) (gate ∷ [])
    × ((eq_route route quick ≡ false)
        → (e : Evidence) × In e gate.evidence × (e.kind ≡ human_approval))

human-In :
    (es : List Evidence)
    → any (λ e. eq_evidence_kind e.kind human_approval) es ≡ true
    → (e : Evidence) × In e es × (e.kind ≡ human_approval)
human-In [] h = cc
human-In (e ∷ es) h = elim (Bool-cases (eq_evidence_kind e.kind human_approval)) [
  | inl hit ↦ (e, inl refl, eq_evidence_kind-true e.kind human_approval hit)
  | inr miss ↦ let (f, i, k) = human-In es (ground (arith, miss)) in (f, inr i, k)
]

route_gate-IsConfirmed :
    (route : Route) (o : Option GateAcceptance)
    → validate_route_gate route o ≡ none
    → (gate : GateAcceptance) × (o ≡ some gate) × IsConfirmed route gate
unfolding validate_route_gate
route_gate-IsConfirmed route none h = cc
route_gate-IsConfirmed route (some gate) h =
    let gates : validate_gates (to_route ∷ []) (gate ∷ []) ≡ none =
      elim (Option-cases (validate_gates (to_route ∷ []) (gate ∷ []))) [
        | inl e ↦ e
        | inr (d, e) ↦ ground (arith, e)
      ] in
    (
      gate,
      refl,
      (
        (validate_gates-exact (to_route ∷ []) (gate ∷ [])).0 gates,
        (λ slow. human-In gate.evidence (ground (arith, gates, slow))),
      ),
    )

gate_passes :
    (r : StartRequest)
    → validate_start_request r ≡ none
    → validate_route_gate r.task.route r.route_gate ≡ none
unfolding validate_start_request
gate_passes r h = ground arith

-- A Task is started only by a request with a Route Gate that is satisfied, by a human approval unless
-- the Route is Quick; the Gate is recorded in the first event.
pub start_workflow_task-IsConfirmed :
    (host : Host) (r : StartRequest) (s : State) (e : WorkflowEvent)
    → start_workflow_task host r ≡ started s e
    → (gate : GateAcceptance) × (e.content.gates ≡ gate ∷ []) × IsConfirmed r.task.route gate
unfolding start_workflow_task created_event
start_workflow_task-IsConfirmed host r s e h =
    let (valid, event) = started_event host r (validate_start_request r) s e h in
    let (gate, given, confirmed_gate) =
      route_gate-IsConfirmed r.task.route r.route_gate (gate_passes r valid) in
    (gate, ap (λ x. x.content.gates) event ∙ ap route_gates given, confirmed_gate)
