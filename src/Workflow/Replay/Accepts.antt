-- ===== src/Workflow/Replay/Accepts.antt =====
-- What the replay of one event yields where it accepts the event (replayWorkflowEvents of
-- packages/core/src/workflow.ts).
use say_hi.Prelude.{
  ◌≡◌, refl, sym, ap, ◌∙◌, subst, inl, inr, true, false, Option, none, some, [], ◌∷◌, ◌++◌, length,
  ℕ, unless, unless-passes, Option-cases, arith,
}
use say_hi.Records.{DependencyGraph}
use say_hi.Workflow.Events.{
  Projection, task_created, workflow_transitioned, route_escalated, baseline_adopted,
  context_manifest_changed, build_plan_changed, initiative_graph_revised,
  phase_execution_dispatched, phase_execution_result_accepted, tracker_synchronized, Payload,
  WorkflowEvent, State, Host, Diagnostic,
}
use say_hi.Workflow.History.{is_transition}
use say_hi.Workflow.Guards.{Snapshot, validate_initiative_graph_transition}
use say_hi.Workflow.Transition.{project_transition_event}
use say_hi.Workflow.Transition.Accepted.{as_snapshot, snapshot-cases}
use say_hi.Workflow.Payloads.{event_failure}
use say_hi.Workflow.Changes.{touch}
use say_hi.Workflow.Changes.Graph.{validate_initiative_graph_revision_request}
use say_hi.Workflow.Escalation.{project_route_escalated_event}
use say_hi.Workflow.Adoption.{project_baseline_adopted_event}
use say_hi.Workflow.Changes.Plan.{project_context_manifest_changed_event}
use say_hi.Workflow.Changes.Tracker.{project_tracker_synchronized_event}
use say_hi.Workflow.Replay.Envelope.{is_escalation_envelope, keeps_position}
use say_hi.Workflow.Replay.{
  replayed, accepted_unless, accepted_with, graph_request, replay_graph_revision, replay_transition,
  replay_payload, replay_admitted, admission_failure, replay_event,
}
use say_hi.Workflow.Replay.Failures.{
  dispatch_replay_failure, result_replay_failure, plan_replay_failure, transition_replay_failure,
}
use say_hi.Workflow.Replay.Carries.{
  Carries, touch-Carries, adopted-Carries, context-Carries, tracker-Carries, escalated-Carries,
  transition-Carries,
}
use say_hi.Workflow.Replay.Snapshots.{
  transition_graph, revision_graph, next, accepted_with-next, accepted_unless-next,
}

-- The state after an event that the replay accepts.
abbrev pub Extends : State → WorkflowEvent → State → Type 0
Extends s e s2 = (s2.events ≡ s.events ++ e ∷ []) × Carries s.events s.projection e s2.projection

next-Extends :
    (s : State) (e : WorkflowEvent) (p : Projection) (s2 : State)
    → Carries s.events s.projection e p
    → s2 ≡ next s e p
    → Extends s e s2
next-Extends s e p s2 carries h = subst (Extends s e) (sym h) (refl, carries)

-- A test that yields the graph of the event itself, or fails.
accepted_with-Extends :
    (g : Snapshot) (s : State) (e : WorkflowEvent) (project : WorkflowEvent → Projection)
    (s2 : State)
    → ((o : Option DependencyGraph) → g ≡ as_snapshot o → o ≡ e.content.initiative_graph)
    → Carries s.events s.projection e (project e)
    → accepted_with g s e project ≡ replayed s2
    → Extends s e s2
accepted_with-Extends g s e project s2 own carries h = elim (snapshot-cases g) [
  | inr (d, is) ↦ ground (arith, is)
  | inl (o, is) ↦
      let same : replayed s2 ≡ replayed (next s e (project e)) =
        sym h
        ∙ ap (λ x. accepted_with x s e project) is
        ∙ accepted_with-next o s e project (own o is) in
      next-Extends s e (project e) s2 carries (ground arith)
]

unless-Extends :
    (o : Option Diagnostic) (s : State) (e : WorkflowEvent) (p : Projection) (s2 : State)
    → (o ≡ none → Carries s.events s.projection e p)
    → accepted_unless o s e p ≡ replayed s2
    → Extends s e s2
unless-Extends o s e p s2 carries h =
    let (passes, is) = accepted_unless-next o s e p s2 h in
    next-Extends s e p s2 (carries passes) is

revision-Extends :
    (s : State) (e : WorkflowEvent) (n : ℕ) (graph : Option DependencyGraph) (s2 : State)
    → graph ≡ e.content.initiative_graph
    → is_transition e.content.payload ≡ false
    → replay_graph_revision s e n graph ≡ replayed s2
    → Extends s e s2
revision-Extends s e n none s2 given other h = cc
revision-Extends s e n (some graph) s2 given other h =
    let r = graph_request s e.content n graph in
    accepted_with-Extends (validate_initiative_graph_revision_request true s r true) s e
      (touch s.projection) s2 (λ o is. revision_graph true s r true o is ∙ given)
      (touch-Carries s.events s.projection e other) h

transition-Extends :
    (host : Host) (s : State) (e : WorkflowEvent) (s2 : State)
    → replay_transition host s e (transition_replay_failure host s e.content) ≡ replayed s2
    → Extends s e s2
transition-Extends host s e s2 h =
    elim (Option-cases (transition_replay_failure host s e.content)) [
      | inr (d, is) ↦ ground (arith, is)
      | inl passes ↦
          accepted_with-Extends
            (validate_initiative_graph_transition s.projection s.events e.content.to
              e.content.initiative_graph)
            s e (project_transition_event s.projection) s2
            (λ o is.
              transition_graph s.projection s.events e.content.to e.content.initiative_graph o is)
            (transition-Carries host s e passes) (ap (replay_transition host s e) (sym passes) ∙ h)
    ]

replay_payload-Extends :
    (host : Host) (s : State) (e : WorkflowEvent) (payload : Payload) (s2 : State)
    → is_transition e.content.payload ≡ is_transition payload
    → replay_payload host s e payload ≡ replayed s2
    → Extends s e s2
unfolding replay_payload
replay_payload-Extends host s e (task_created task) s2 t h = cc
replay_payload-Extends host s e workflow_transitioned s2 t h = transition-Extends host s e s2 h
replay_payload-Extends host s e route_escalated s2 t h =
    unless-Extends
      (unless (is_escalation_envelope e.content s.projection) (event_failure (length s.events))) s e
      (project_route_escalated_event s.projection e) s2
      (λ passes. escalated-Carries s.events s.projection e t (
        unless-passes (is_escalation_envelope e.content s.projection)
          (event_failure (length s.events)) passes))
      h
replay_payload-Extends host s e (baseline_adopted identity adopted) s2 t h =
    unless-Extends
      (unless (keeps_position e.content s.projection) (event_failure (length s.events))) s e
      (project_baseline_adopted_event s.projection e) s2
      (λ passes. adopted-Carries s.events s.projection e t) h
replay_payload-Extends host s e (context_manifest_changed phase path identity change) s2 t h =
    unless-Extends
      (unless (keeps_position e.content s.projection) (event_failure (length s.events))) s e
      (project_context_manifest_changed_event s.projection e phase path) s2
      (λ passes. context-Carries s.events s.projection e phase path t) h
replay_payload-Extends host s e (tracker_synchronized change reference) s2 t h =
    unless-Extends
      (unless (keeps_position e.content s.projection) (event_failure (length s.events))) s e
      (project_tracker_synchronized_event s.projection e reference) s2
      (λ passes. tracker-Carries s.events s.projection e reference t) h
replay_payload-Extends host s e (build_plan_changed change material) s2 t h =
    unless-Extends (plan_replay_failure host s e.content change material) s e (touch s.projection e)
      s2 (λ passes. touch-Carries s.events s.projection e t) h
replay_payload-Extends host s e (initiative_graph_revised n) s2 t h =
    revision-Extends s e n e.content.initiative_graph s2 refl t h
replay_payload-Extends host s e (phase_execution_dispatched identity binding) s2 t h =
    unless-Extends (dispatch_replay_failure s e.content identity binding) s e (touch s.projection e)
      s2 (λ passes. touch-Carries s.events s.projection e t) h
replay_payload-Extends host s e (phase_execution_result_accepted result) s2 t h =
    unless-Extends (result_replay_failure s e.content result) s e (touch s.projection e) s2
      (λ passes. touch-Carries s.events s.projection e t) h

-- An event that the replay accepts passes the tests that do not depend on its type, and extends the state.
pub replay_event-Extends :
    (host : Host) (s : State) (e : WorkflowEvent) (s2 : State)
    → replay_event host s e ≡ replayed s2
    → (admission_failure host s.events e ≡ none) × Extends s e s2
unfolding replay_event
replay_event-Extends host s e s2 h = elim (Option-cases (admission_failure host s.events e)) [
  | inr (d, is) ↦ ground (arith, is)
  | inl passes ↦ (
    passes,
    replay_payload-Extends host s e e.content.payload s2 refl
        (ap (λ o. replay_admitted o (replay_payload host s e e.content.payload)) (sym passes) ∙ h),
  )
]
