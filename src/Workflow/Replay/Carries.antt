-- ===== src/Workflow/Replay/Carries.antt =====
-- What an event that the replay accepts carries on of the state before (replayWorkflowEvents of
-- packages/core/src/workflow.ts).
use say_hi.Prelude.{
  ◌+◌, ◌≤◌, ◌≡◌, refl, sym, ap, ◌⊎◌, inl, inr, String, str_eq, str_eq_iff, true, false, ◌&&◌,
  Option, none, some, List, [], ◌∷◌, length, &&-both, arith,
}
use say_hi.Records.{Phase, index, JsonPath, review, active, eq_lifecycle, eq_phase}
use say_hi.Records.Equality.{eq_lifecycle-true, eq_phase-true}
use say_hi.Workflow.Events.{
  Position, Projection, TrackerReference, Content, WorkflowEvent, State, Host, Diagnostic,
}
use say_hi.Workflow.Routes.{positions_equal, position_of}
use say_hi.Workflow.History.{is_at, is_transition, is_repair, as_one, count_repair_attempts}
use say_hi.Workflow.Guards.{
  validate_transition_invariants, validate_build_plan_implementation_transition,
  validate_build_implementation_result_transition, validate_build_review_result_transition,
}
use say_hi.Workflow.Transition.{guard_failure, project_transition_event}
use say_hi.Workflow.Transition.Sound.{BlockersFit, invariants_hold, fourth}
use say_hi.Workflow.Escalation.{project_route_escalated_event}
use say_hi.Workflow.Adoption.{project_baseline_adopted_event}
use say_hi.Workflow.Changes.{touch}
use say_hi.Workflow.Changes.Plan.{project_context_manifest_changed_event}
use say_hi.Workflow.Changes.Tracker.{project_tracker_synchronized_event}
use say_hi.Workflow.Replay.Envelope.{is_empty_list, is_position, is_escalation_envelope, continues}
use say_hi.Workflow.Replay.Failures.{relocated, transition_replay_failure}

pub positions_equal-true : (a b : Position) → positions_equal a b ≡ true → a ≡ b
positions_equal-true a b h =
    let (place, s) =
      &&-both (eq_lifecycle a.lifecycle b.lifecycle && eq_phase a.phase b.phase)
        (str_eq a.step b.step) h in
    let (l, x) = &&-both (eq_lifecycle a.lifecycle b.lifecycle) (eq_phase a.phase b.phase) place in
    let l2 : a.lifecycle ≡ b.lifecycle = eq_lifecycle-true a.lifecycle b.lifecycle l in
    let x2 : a.phase ≡ b.phase = eq_phase-true a.phase b.phase x in
    let s2 : a.step ≡ b.step = (str_eq_iff a.step b.step).0 s in
    λ i. record { lifecycle = l2 i; phase = x2 i; step = s2 i }

pub is_position-true : (o : Option Position) (q : Position) → is_position o q ≡ true → o ≡ some q
is_position-true none q h = cc
is_position-true (some a) q h = ap some (positions_equal-true a q h)

pub is_empty_list-true {ℓ} : {A : Type ℓ} (xs : List A) → is_empty_list xs ≡ true → xs ≡ []
is_empty_list-true [] h = refl
is_empty_list-true (x ∷ xs) h = cc

pub relocated-none : (path : JsonPath) (o : Option Diagnostic) → relocated path o ≡ none → o ≡ none
relocated-none path none h = refl
relocated-none path (some d) h = cc

-- From a projection p of some events to the projection q of one event more: the version is the event's
-- sequence; the Task is the same one with the same policies; its step and its blockers are kept or those
-- of the event; the blockers still fit; and the repairs are still within the policy.
abbrev pub Carries : List WorkflowEvent → Projection → WorkflowEvent → Projection → Type 0
Carries events p e q =
    (q.version ≡ e.content.sequence)
    × (q.task.id ≡ p.task.id)
    × (q.task.policies ≡ p.task.policies)
    × ((q.step ≡ p.step) ⊎ (q.step ≡ e.content.to.step))
    × ((q.blockers ≡ p.blockers) ⊎ (q.blockers ≡ e.content.blockers))
    × (BlockersFit p → BlockersFit q)
    × (count_repair_attempts events ≤ p.task.policies.max_repair_attempts
        → count_repair_attempts events + as_one (is_repair e) ≤ q.task.policies.max_repair_attempts)

pub touch-Carries :
    (events : List WorkflowEvent) (p : Projection) (e : WorkflowEvent)
    → is_transition e.content.payload ≡ false
    → Carries events p e (touch p e)
unfolding touch
touch-Carries events p e other =
    (refl, refl, refl, inl refl, inl refl, (λ fit. fit), (λ bound. ground (arith, other)))

pub adopted-Carries :
    (events : List WorkflowEvent) (p : Projection) (e : WorkflowEvent)
    → is_transition e.content.payload ≡ false
    → Carries events p e (project_baseline_adopted_event p e)
unfolding project_baseline_adopted_event
adopted-Carries events p e other =
    (refl, refl, refl, inl refl, inl refl, (λ fit. fit), (λ bound. ground (arith, other)))

pub context-Carries :
    (events : List WorkflowEvent) (p : Projection) (e : WorkflowEvent) (phase : Phase)
    (path : String)
    → is_transition e.content.payload ≡ false
    → Carries events p e (project_context_manifest_changed_event p e phase path)
unfolding touch project_context_manifest_changed_event
context-Carries events p e phase path other =
    (refl, refl, refl, inl refl, inl refl, (λ fit. fit), (λ bound. ground (arith, other)))

pub tracker-Carries :
    (events : List WorkflowEvent) (p : Projection) (e : WorkflowEvent)
    (reference : TrackerReference)
    → is_transition e.content.payload ≡ false
    → Carries events p e (project_tracker_synchronized_event p e reference)
unfolding touch project_tracker_synchronized_event
tracker-Carries events p e reference other =
    (refl, refl, refl, inl refl, inl refl, (λ fit. fit), (λ bound. ground (arith, other)))

escalation_blockers :
    (p : Projection) (e : WorkflowEvent)
    → is_escalation_envelope e.content p ≡ true
    → [] ≡ e.content.blockers
unfolding is_escalation_envelope
escalation_blockers p e h = sym (is_empty_list-true e.content.blockers (ground arith))

escalation-Fit :
    (p : Projection) (e : WorkflowEvent)
    → is_escalation_envelope e.content p ≡ true
    → BlockersFit (project_route_escalated_event p e)
unfolding is_escalation_envelope project_route_escalated_event
escalation-Fit p e h = ground (arith, eq_lifecycle-true e.content.to.lifecycle active)

pub escalated-Carries :
    (events : List WorkflowEvent) (p : Projection) (e : WorkflowEvent)
    → is_transition e.content.payload ≡ false
    → is_escalation_envelope e.content p ≡ true
    → Carries events p e (project_route_escalated_event p e)
unfolding project_route_escalated_event is_escalation_envelope
escalated-Carries events p e other h = (
  refl,
  refl,
  refl,
  inr refl,
  inr (escalation_blockers p e h),
  (λ fit. escalation-Fit p e h),
  (λ bound. ground (arith, other)),
)

guards_last :
    (host : Host) (s : State) (e : Content)
    → guard_failure host s e.to e.actor e.gates (some e.blockers) ≡ none
    → validate_transition_invariants s.projection s.events e.to (some e.blockers) ≡ none
unfolding guard_failure
guards_last host s e h =
    (fourth
      (validate_build_plan_implementation_transition host s.projection s.events e.to e.actor
        e.gates)
      (validate_build_implementation_result_transition s.projection s.events e.to)
      (validate_build_review_result_transition s.projection s.events e.to)
      (validate_transition_invariants s.projection s.events e.to (some e.blockers)) h).1

pub continues_from :
    (e : Content) (p : Projection) → continues e p ≡ true → e.from ≡ some (position_of p)
unfolding continues
continues_from e p h = is_position-true e.from (position_of p) (ground arith)

pub replayed_invariants :
    (host : Host) (s : State) (e : WorkflowEvent)
    → transition_replay_failure host s e.content ≡ none
    → (continues e.content s.projection ≡ true)
      × (guard_failure host s e.content.to e.content.actor e.content.gates (some e.content.blockers)
          ≡ none)
      × (validate_transition_invariants s.projection s.events e.content.to (some e.content.blockers)
          ≡ none)
unfolding transition_replay_failure
replayed_invariants host s e h =
    let guards : guard_failure host s e.content.to e.content.actor e.content.gates
          (some e.content.blockers)
        ≡ none =
      relocated-none (index (length s.events) ∷ [])
        (guard_failure host s e.content.to e.content.actor e.content.gates
          (some e.content.blockers))
        (ground arith) in
    (ground arith, guards, guards_last host s e.content guards)

transition-Fit :
    (host : Host) (s : State) (e : WorkflowEvent)
    → transition_replay_failure host s e.content ≡ none
    → BlockersFit (project_transition_event s.projection e)
unfolding project_transition_event
transition-Fit host s e h =
    let (to_blocked, not_blocked, repairs) =
      invariants_hold s.projection s.events e.content.to (some e.content.blockers)
        (replayed_invariants host s e h).2 in
    ground arith

transition_repairs :
    (host : Host) (s : State) (e : WorkflowEvent)
    → transition_replay_failure host s e.content ≡ none
    → count_repair_attempts s.events ≤ s.projection.task.policies.max_repair_attempts
    → count_repair_attempts s.events + as_one (is_repair e)
      ≤ s.projection.task.policies.max_repair_attempts
transition_repairs host s e h bound =
    let (goes_on, guards, invariants) = replayed_invariants host s e h in
    let tested =
      (invariants_hold s.projection s.events e.content.to (some e.content.blockers) invariants).2 in
    ground (arith, ap (λ o. is_at o active review) (continues_from e.content s.projection goes_on))

pub transition-Carries :
    (host : Host) (s : State) (e : WorkflowEvent)
    → transition_replay_failure host s e.content ≡ none
    → Carries s.events s.projection e (project_transition_event s.projection e)
unfolding project_transition_event
transition-Carries host s e h = (
  refl,
  refl,
  refl,
  inr refl,
  inr refl,
  (λ fit. transition-Fit host s e h),
  (λ bound. transition_repairs host s e h bound),
)
