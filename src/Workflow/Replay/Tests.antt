-- ===== src/Workflow/Replay/Tests.antt =====
-- Histories of concrete Tasks that are replayed.
use say_hi.Prelude.{
  ◌≤◌, find, any, ◌≡◌, ◌↔◌, refl, Bool, true, false, [], ◌∷◌, codes, is_blank, is_empty, none,
}
use say_hi.Records.{explore}
use say_hi.Validation.{is_identifier, is_timestamp, is_contract_identity}
use say_hi.RepositoryPath.{is_repository_relative_path}
use say_hi.Workflow.Events.{State, added, WorkflowEvent}
use say_hi.Workflow.Routes.{find_transition}
use say_hi.Workflow.Gates.{
  declared_once, accepted, required_met, declared_expected, validate_gates, validate_route_gate,
}
use say_hi.Workflow.Guards.{
  validate_build_plan_implementation_transition, validate_build_implementation_result_transition,
  validate_build_review_result_transition, validate_transition_invariants,
  validate_initiative_graph_transition,
}
use say_hi.Workflow.Transition.{
  is_workflow_actor, validate_event_metadata, validate_transition_request, guard_failure,
  admit_transition, transition_event, project_transition_event, ok, has_key, transition_workflow,
}
use say_hi.Workflow.Start.{
  StartRequest, started, created_event, project_created_event, validate_scope_paths,
  validate_context_paths, validate_task_paths, validate_start_request, first_state,
  start_workflow_task,
}
use say_hi.Workflow.Start.Tests.{
  host, metadata, new_build, new_build-started, to_explore_request, exploring,
}
use say_hi.Workflow.Payloads.{is_workflow_task_definition}
use say_hi.Workflow.Changes.Requests.{ContextRequest}
use say_hi.Workflow.Changes.Plan.{
  validate_context_manifest_change_request, project_context_manifest_changed_event, context_event,
  record_context_manifest_change,
}
use say_hi.Workflow.Replay.{has_event_id, state_matches_accepted_history}
use say_hi.Workflow.Replay.Snapshots.{next}
use say_hi.Workflow.Replay.Appends.{IsReplayed, state_matches_accepted_history-exact}
use say_hi.Workflow.Replay.Sound.{IsRecorded, replay_workflow_events-IsRecorded}
use say_hi.Workflow.Replay.Begun.{start_workflow_task-replays}
use say_hi.Workflow.Replay.History.{Recorded, begun, moved, contexts_changed, Recorded-IsReplayed}
use say_hi.Workflow.Replay.Results.{results_of, replay_workflow_events-IsAnsweredOnce}
use say_hi.Workflow.Replay.Reuse.{with_event_id, transition_workflow-reused}

abbrev first : State
first = first_state host new_build

new_build-is_workflow_task_definition : is_workflow_task_definition new_build.task ≡ true
unfolding is_workflow_task_definition is_identifier is_blank codes is_repository_relative_path
    is_empty
new_build-is_workflow_task_definition = refl

first-Recorded : Recorded host first
first-Recorded =
    begun new_build first (created_event host new_build) new_build-is_workflow_task_definition
      new_build-started

first-IsReplayed : IsReplayed host first
first-IsReplayed =
    (start_workflow_task-replays host new_build first (created_event host new_build)
        new_build-started).1
      new_build-is_workflow_task_definition

replay_workflow_events-IsRecorded_example : (first.events ≡ first.events) × IsRecorded host first
replay_workflow_events-IsRecorded_example =
    replay_workflow_events-IsRecorded host first.events first first-IsReplayed

state_matches_accepted_history-exact_example :
    (state_matches_accepted_history host first ≡ true) ↔ IsReplayed host first
state_matches_accepted_history-exact_example = state_matches_accepted_history-exact host first

abbrev to_explore_event : WorkflowEvent
to_explore_event = transition_event host first to_explore_request none

-- A Task with a blank goal, which is started all the same.
abbrev goalless : StartRequest
goalless = record new_build {
  task = record new_build.task {
    intent = record { goals = " " ∷ []; non_goals = []; acceptance_criteria = [] };
  };
}

goalless-started :
    start_workflow_task host goalless
    ≡ started (first_state host goalless) (created_event host goalless)
unfolding start_workflow_task validate_start_request is_identifier is_empty is_blank codes
    validate_task_paths validate_scope_paths validate_context_paths is_repository_relative_path
    validate_route_gate validate_gates declared_once accepted required_met declared_expected
    validate_event_metadata is_workflow_actor is_timestamp
goalless-started = refl

goalless-is_no_definition : is_workflow_task_definition goalless.task ≡ false
unfolding is_workflow_task_definition is_identifier is_blank codes is_repository_relative_path
    is_empty
goalless-is_no_definition = refl

start_workflow_task-replays_example :
    IsReplayed host (first_state host goalless) ↔ (is_workflow_task_definition goalless.task ≡ true)
start_workflow_task-replays_example =
    start_workflow_task-replays host goalless (first_state host goalless)
      (created_event host goalless) goalless-started

exploring-ok :
    (c : Bool)
    → c ≡ true
    → transition_workflow host c first to_explore_request ≡ ok exploring to_explore_event
unfolding transition_workflow validate_transition_request is_identifier is_empty is_blank codes
    validate_gates declared_once accepted required_met declared_expected validate_event_metadata
    is_workflow_actor is_timestamp admit_transition find_transition guard_failure
    validate_build_plan_implementation_transition validate_build_implementation_result_transition
    validate_build_review_result_transition validate_transition_invariants
    validate_initiative_graph_transition created_event project_created_event
exploring-ok true h = refl
exploring-ok false h = cc

exploring-Recorded : Recorded host exploring
unfolding created_event project_created_event
exploring-Recorded =
    moved to_explore_request exploring to_explore_event first-Recorded (refl, refl)
      (exploring-ok (state_matches_accepted_history host first)
        ((state_matches_accepted_history-exact host first).1 first-IsReplayed))

abbrev new_context : ContextRequest
new_context = record {
  contract_version = 1;
  task_id = "task";
  expected_version = 2;
  phase = explore;
  manifest_path = "context/explore.jsonl";
  manifest_identity = "sha256:0000000000000000000000000000000000000000000000000000000000000000";
  change = added;
  event = metadata "e3";
}

abbrev informed : State
informed =
    let e = context_event host exploring new_context in
    next exploring e (
      project_context_manifest_changed_event exploring.projection e explore "context/explore.jsonl")

informed-ok :
    (c : Bool)
    → c ≡ true
    → record_context_manifest_change host c exploring new_context
      ≡ ok informed (context_event host exploring new_context)
unfolding record_context_manifest_change validate_context_manifest_change_request
    is_contract_identity is_identifier is_empty is_blank codes validate_event_metadata
    is_workflow_actor is_timestamp created_event project_created_event transition_event
    project_transition_event
informed-ok true h = refl
informed-ok false h = cc

informed-Recorded : Recorded host informed
unfolding created_event project_created_event transition_event project_transition_event
informed-Recorded =
    contexts_changed new_context informed (context_event host exploring new_context)
      exploring-Recorded (refl, refl)
      (informed-ok (state_matches_accepted_history host exploring) (
        (state_matches_accepted_history-exact host exploring).1
          (Recorded-IsReplayed host exploring-Recorded)))

Recorded-IsReplayed_example : IsReplayed host informed
Recorded-IsReplayed_example = Recorded-IsReplayed host informed-Recorded

reused_id :
    (find (has_key "e2") first.events ≡ none)
    × (any (has_event_id "e1") first.events ≡ true)
    × (is_identifier "e1" ≡ true)
unfolding created_event is_identifier is_empty codes
reused_id = (refl, refl, refl)

transition_workflow-reused_example :
    (s3 : State) × (e3 : WorkflowEvent) × (transition_workflow host true first
        (with_event_id "e1" to_explore_request)
      ≡ ok s3 e3)
    × (state_matches_accepted_history host s3 ≡ false)
transition_workflow-reused_example =
    transition_workflow-reused host true first to_explore_request exploring to_explore_event "e1"
      first-IsReplayed reused_id.0 reused_id.1 reused_id.2 (exploring-ok true refl)

replay_workflow_events-IsAnsweredOnce_example : results_of "dispatch" informed.events ≤ 1
replay_workflow_events-IsAnsweredOnce_example =
    replay_workflow_events-IsAnsweredOnce host informed.events informed
      (Recorded-IsReplayed host informed-Recorded) "dispatch"
