-- ===== src/Workflow/Replay/Results.antt =====
-- The results of a dispatch in a history that replays (validatePhaseExecutionResultBinding and
-- replayWorkflowEvents of packages/core/src/workflow.ts).
use say_hi.Prelude.{
  ℕ, ◌+◌, ◌≤◌, ◌≡◌, refl, sym, ap, ◌∙◌, subst, inl, inr, String, str_eq_iff, true, false, Option,
  none, some, List, [], ◌∷◌, ◌++◌, any, weigh, is_none, ◌or_else◌, unless, Bool-cases, Option-cases,
  arith,
}
use say_hi.Workflow.Events.{
  task_created, workflow_transitioned, route_escalated, baseline_adopted, context_manifest_changed,
  build_plan_changed, initiative_graph_revised, phase_execution_dispatched,
  phase_execution_result_accepted, tracker_synchronized, ExecutionResult, Payload, WorkflowEvent,
  State, Host, Diagnostic,
}
use say_hi.Workflow.History.{as_one}
use say_hi.Workflow.Changes.{touch}
use say_hi.Workflow.Changes.Outcomes.{answers, has_result, validate_phase_execution_result_binding}
use say_hi.Workflow.Replay.{
  Replayed, replayed, replay_failure, admission_failure, replay_admitted, replay_payload,
  replay_event, created_by, replay_first, replay_rest, replay_workflow_events,
}
use say_hi.Workflow.Payloads.{event_failure}
use say_hi.Workflow.Replay.Envelope.{is_valid_creation_event}
use say_hi.Workflow.Replay.Failures.{result_replay_failure}
use say_hi.Workflow.Replay.Snapshots.{accepted_unless-next}
use say_hi.Workflow.Replay.Accepts.{replay_event-Extends}

-- The number of results of a dispatch.
abbrev pub results_of : String → List WorkflowEvent → ℕ
results_of id events = weigh (λ e. as_one (has_result id e)) events

abbrev pub IsAnsweredOnce : State → Type 0
IsAnsweredOnce s = (id : String) → results_of id s.events ≤ 1

results_of-append :
    (id : String) (events : List WorkflowEvent) (e : WorkflowEvent)
    → results_of id (events ++ e ∷ []) ≡ results_of id events + as_one (has_result id e)
results_of-append id [] e = ground arith
results_of-append id (f ∷ events) e = ground (arith, results_of-append id events e)

results_of-none :
    (id : String) (events : List WorkflowEvent)
    → any (has_result id) events ≡ false
    → results_of id events ≡ 0
results_of-none id [] h = refl
results_of-none id (e ∷ events) h = ground (arith, results_of-none id events)

answers_result :
    (id : String) (payload : Payload)
    → answers id payload ≡ true
    → (r : ExecutionResult) × (payload ≡ phase_execution_result_accepted r) × (r.dispatch_id ≡ id)
answers_result id (phase_execution_result_accepted r) h =
    (r, refl, (str_eq_iff r.dispatch_id id).0 (ground arith))
answers_result id (task_created a) h = cc
answers_result id workflow_transitioned h = cc
answers_result id route_escalated h = cc
answers_result id (baseline_adopted a b) h = cc
answers_result id (context_manifest_changed a b c d) h = cc
answers_result id (build_plan_changed a b) h = cc
answers_result id (initiative_graph_revised a) h = cc
answers_result id (phase_execution_dispatched a b) h = cc
answers_result id (tracker_synchronized a b) h = cc

bound_result :
    (s : State) (e : WorkflowEvent) (r : ExecutionResult)
    → result_replay_failure s e.content r ≡ none
    → is_none (validate_phase_execution_result_binding s.projection s.events r) ≡ true
unfolding result_replay_failure
bound_result s e r h = ground arith

binding_new :
    (s : State) (r : ExecutionResult)
    → is_none (validate_phase_execution_result_binding s.projection s.events r) ≡ true
    → any (has_result r.dispatch_id) s.events ≡ false
unfolding validate_phase_execution_result_binding
binding_new s r h = ground arith

result_new :
    (host : Host) (s : State) (e : WorkflowEvent) (r : ExecutionResult) (s2 : State)
    → replay_payload host s e (phase_execution_result_accepted r) ≡ replayed s2
    → any (has_result r.dispatch_id) s.events ≡ false
unfolding replay_payload
result_new host s e r s2 h = binding_new s r (
    bound_result s e r (
      (accepted_unless-next (result_replay_failure s e.content r) s e (touch s.projection e) s2
        h).0))

replayed_payload :
    (host : Host) (s : State) (e : WorkflowEvent) (s2 : State)
    → replay_event host s e ≡ replayed s2
    → replay_payload host s e e.content.payload ≡ replayed s2
unfolding replay_event
replayed_payload host s e s2 h = elim (Option-cases (admission_failure host s.events e)) [
  | inr (d, fails) ↦ ground (arith, fails)
  | inl passes ↦
      ap (λ o. replay_admitted o (replay_payload host s e e.content.payload)) (sym passes) ∙ h
]

event-IsAnsweredOnce :
    (host : Host) (s : State) (e : WorkflowEvent) (s2 : State)
    → replay_event host s e ≡ replayed s2
    → IsAnsweredOnce s
    → IsAnsweredOnce s2
event-IsAnsweredOnce host s e s2 h once id =
    let (events, carries) = (replay_event-Extends host s e s2 h).1 in
    let total : results_of id s2.events ≡ results_of id s.events + as_one (has_result id e) =
      ap (results_of id) events ∙ results_of-append id s.events e in
    elim (Bool-cases (has_result id e)) [
      | inr other ↦ ground (arith, total, ap as_one other, once id)
      | inl answered ↦
          let (r, is, same) = answers_result id e.content.payload answered in
          let replays = ap (replay_payload host s e) (sym is) ∙ replayed_payload host s e s2 h in
          let new : any (has_result id) s.events ≡ false =
            subst (λ x. any (has_result x) s.events ≡ false) same
              (result_new host s e r s2 replays) in
          ground (arith, total, ap as_one answered, results_of-none id s.events new)
    ]

abbrev pub Once : Replayed → Type 0
Once (replay_failure d) = Unit
Once (replayed s) = IsAnsweredOnce s

event-Once :
    (host : Host) (s : State) (e : WorkflowEvent) (r : Replayed)
    → replay_event host s e ≡ r
    → IsAnsweredOnce s
    → Once r
event-Once host s e (replay_failure d) h once = tt
event-Once host s e (replayed s2) h once = event-IsAnsweredOnce host s e s2 h once

rest-Once :
    (host : Host) (r : Replayed) (events : List WorkflowEvent)
    → Once r
    → Once (replay_rest host r events)
unfolding replay_rest
rest-Once host r [] once = once
rest-Once host (replay_failure d) (e ∷ events) once = tt
rest-Once host (replayed s) (e ∷ events) once =
    rest-Once host (replay_event host s e) events
      (event-Once host s e (replay_event host s e) refl once)

single-Once : (e : WorkflowEvent) (id : String) → results_of id (e ∷ []) ≤ 1
single-Once e id = elim (Bool-cases (has_result id e)) [
  | inl h ↦ ground (arith, ap as_one h)
  | inr h ↦ ground (arith, ap as_one h)
]

created-Once : (e : WorkflowEvent) (payload : Payload) → Once (created_by e payload)
created-Once e (task_created a) = λ id. single-Once e id
created-Once e workflow_transitioned = tt
created-Once e route_escalated = tt
created-Once e (baseline_adopted a b) = tt
created-Once e (context_manifest_changed a b c d) = tt
created-Once e (build_plan_changed a b) = tt
created-Once e (initiative_graph_revised a) = tt
created-Once e (phase_execution_dispatched a b) = tt
created-Once e (phase_execution_result_accepted a) = tt
created-Once e (tracker_synchronized a b) = tt

admitted-Once : (o : Option Diagnostic) (r : Replayed) → Once r → Once (replay_admitted o r)
admitted-Once none r once = once
admitted-Once (some d) r once = tt

first-Once : (host : Host) (e : WorkflowEvent) → Once (replay_first host e)
unfolding replay_first
first-Once host e =
    admitted-Once
      (admission_failure host [] e
        or_else unless (is_valid_creation_event e.content) (event_failure 0))
      (created_by e e.content.payload) (created-Once e e.content.payload)

-- A history that replays has at most one result of each dispatch.
pub replay_workflow_events-IsAnsweredOnce :
    (host : Host) (events : List WorkflowEvent) (s : State)
    → replay_workflow_events host events ≡ replayed s
    → (id : String) → results_of id s.events ≤ 1
unfolding replay_workflow_events
replay_workflow_events-IsAnsweredOnce host [] s h id = cc
replay_workflow_events-IsAnsweredOnce host (e ∷ events) s h id =
    subst Once h (rest-Once host (replay_first host e) events (first-Once host e)) id
