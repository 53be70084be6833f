-- ===== src/Workflow/Replay/History.antt =====
-- A Task's whole history: its creation and every operation of the engine on it, each with the engine's own
-- test of consistency (packages/core/src/workflow.ts).
use say_hi.Prelude.{◌≡◌, Bool, true}
use say_hi.Workflow.Events.{WorkflowEvent, State, TransitionRequest, Host}
use say_hi.Workflow.Transition.{ok, transition_workflow}
use say_hi.Workflow.Start.{StartRequest, started, start_workflow_task}
use say_hi.Workflow.Escalation.{EscalationRequest, escalate_quick_to_build}
use say_hi.Workflow.Adoption.{AdoptionRequest, adopt_workflow_baseline}
use say_hi.Workflow.Payloads.{is_workflow_task_definition}
use say_hi.Workflow.Changes.Requests.{
  ContextRequest, PlanRequest, GraphRequest, DispatchRequest, ResultRequest, TrackerRequest,
}
use say_hi.Workflow.Changes.Plan.{record_context_manifest_change, record_build_plan_change}
use say_hi.Workflow.Changes.Graph.{revise_initiative_graph}
use say_hi.Workflow.Changes.Dispatch.{record_phase_execution_dispatch}
use say_hi.Workflow.Changes.Outcomes.{record_phase_execution_result}
use say_hi.Workflow.Changes.Tracker.{record_tracker_synchronization}
use say_hi.Workflow.Replay.{state_matches_accepted_history}
use say_hi.Workflow.Replay.Appends.{IsReplayed}
use say_hi.Workflow.Replay.Changed.{IsNumbered}
use say_hi.Workflow.Replay.Begun.{start_workflow_task-replays}
use say_hi.Workflow.Replay.Operations.{
  transition_workflow-IsReplayed, escalate_quick_to_build-IsReplayed,
  adopt_workflow_baseline-IsReplayed,
}
use say_hi.Workflow.Replay.Recorded.{
  record_context_manifest_change-IsReplayed, record_tracker_synchronization-IsReplayed,
  record_build_plan_change-IsReplayed, record_phase_execution_dispatch-IsReplayed,
  record_phase_execution_result-IsReplayed,
}
use say_hi.Workflow.Replay.Graphs.{revise_initiative_graph-IsReplayed}

-- The states of a Task that was started with a definition that the replay reads, and that operations
-- brought on whose requests have a new event id and lead to a safe version.
pub data Recorded (host : Host) : State → Type 0 where
  begun :
      (r : StartRequest) (s : State) (e : WorkflowEvent)
      → is_workflow_task_definition r.task ≡ true
      → start_workflow_task host r ≡ started s e
      → Recorded host s
  moved :
      {s : State} (r : TransitionRequest) (s2 : State) (e : WorkflowEvent)
      → Recorded host s
      → IsNumbered s r.event
      → transition_workflow host (state_matches_accepted_history host s) s r ≡ ok s2 e
      → Recorded host s2
  raised :
      {s : State} (r : EscalationRequest) (s2 : State) (e : WorkflowEvent)
      → Recorded host s
      → IsNumbered s r.event
      → escalate_quick_to_build host (state_matches_accepted_history host s) s r ≡ ok s2 e
      → Recorded host s2
  rebased :
      {s : State} (r : AdoptionRequest) (s2 : State) (e : WorkflowEvent)
      → Recorded host s
      → IsNumbered s r.event
      → adopt_workflow_baseline host (state_matches_accepted_history host s) s r ≡ ok s2 e
      → Recorded host s2
  contexts_changed :
      {s : State} (r : ContextRequest) (s2 : State) (e : WorkflowEvent)
      → Recorded host s
      → IsNumbered s r.event
      → record_context_manifest_change host (state_matches_accepted_history host s) s r ≡ ok s2 e
      → Recorded host s2
  plan_changed :
      {s : State} (r : PlanRequest) (s2 : State) (e : WorkflowEvent)
      → Recorded host s
      → IsNumbered s r.event
      → record_build_plan_change host (state_matches_accepted_history host s) s r ≡ ok s2 e
      → Recorded host s2
  dispatched :
      {s : State} (r : DispatchRequest) (s2 : State) (e : WorkflowEvent)
      → Recorded host s
      → IsNumbered s r.event
      → record_phase_execution_dispatch host (state_matches_accepted_history host s) s r ≡ ok s2 e
      → Recorded host s2
  resulted :
      {s : State} (r : ResultRequest) (s2 : State) (e : WorkflowEvent)
      → Recorded host s
      → IsNumbered s r.event
      → record_phase_execution_result host (state_matches_accepted_history host s) s r ≡ ok s2 e
      → Recorded host s2
  synchronized :
      {s : State} (r : TrackerRequest) (s2 : State) (e : WorkflowEvent)
      → Recorded host s
      → IsNumbered s r.event
      → record_tracker_synchronization host (state_matches_accepted_history host s) s r ≡ ok s2 e
      → Recorded host s2
  revised :
      {s : State} (r : GraphRequest) (allow : Bool) (s2 : State) (e : WorkflowEvent)
      → Recorded host s
      → IsNumbered s r.event
      → revise_initiative_graph host (state_matches_accepted_history host s) s r allow ≡ ok s2 e
      → Recorded host s2

-- Every state of a Task that was started with a definition that the replay reads, and on which the engine
-- then ran transitions, escalations, adoptions, changes of Context Manifests and of Build Plans, revisions
-- of its graph, dispatches and results of Phase executions and synchronizations of Trackers, each with an
-- event id that is new and a safe version, is the state that the replay of its history yields.
pub Recorded-IsReplayed : (host : Host) {s : State} → Recorded host s → IsReplayed host s
Recorded-IsReplayed host (begun r s e task h) = (start_workflow_task-replays host r s e h).1 task
Recorded-IsReplayed host (moved {s} r s2 e before numbered h) =
    transition_workflow-IsReplayed host s r s2 e (Recorded-IsReplayed host before) numbered h
Recorded-IsReplayed host (raised {s} r s2 e before numbered h) =
    escalate_quick_to_build-IsReplayed host s r s2 e (Recorded-IsReplayed host before) numbered h
Recorded-IsReplayed host (rebased {s} r s2 e before numbered h) =
    adopt_workflow_baseline-IsReplayed host s r s2 e (Recorded-IsReplayed host before) numbered h
Recorded-IsReplayed host (contexts_changed {s} r s2 e before numbered h) =
    record_context_manifest_change-IsReplayed host s r s2 e (Recorded-IsReplayed host before)
      numbered h
Recorded-IsReplayed host (plan_changed {s} r s2 e before numbered h) =
    record_build_plan_change-IsReplayed host s r s2 e (Recorded-IsReplayed host before) numbered h
Recorded-IsReplayed host (dispatched {s} r s2 e before numbered h) =
    record_phase_execution_dispatch-IsReplayed host s r s2 e (Recorded-IsReplayed host before)
      numbered h
Recorded-IsReplayed host (resulted {s} r s2 e before numbered h) =
    record_phase_execution_result-IsReplayed host s r s2 e (Recorded-IsReplayed host before)
      numbered h
Recorded-IsReplayed host (synchronized {s} r s2 e before numbered h) =
    record_tracker_synchronization-IsReplayed host s r s2 e (Recorded-IsReplayed host before)
      numbered h
Recorded-IsReplayed host (revised {s} r allow s2 e before numbered h) =
    revise_initiative_graph-IsReplayed host s r allow s2 e (Recorded-IsReplayed host before)
      numbered h
