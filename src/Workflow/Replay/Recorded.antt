-- ===== src/Workflow/Replay/Recorded.antt =====
-- Each operation that records a change, on a state that its history replays to, leaves such a state
-- (packages/core/src/workflow.ts).
use say_hi.Prelude.{◌≡◌, true, none, [], ◌∷◌, find, arith}
use say_hi.Records.{field}
use say_hi.Workflow.Events.{WorkflowEvent, State, Host}
use say_hi.Workflow.Transition.{ok, has_key, validate_event_metadata}
use say_hi.Workflow.Changes.{touch, looks_back, appended, unless_refused, retry_or}
use say_hi.Workflow.Changes.Requests.{
  ContextRequest, PlanRequest, DispatchRequest, ResultRequest, TrackerRequest,
  validate_phase_execution_request,
}
use say_hi.Workflow.Changes.Plan.{
  validate_context_manifest_change_request, matches_context_manifest_change_intent, context_event,
  project_context_manifest_changed_event, record_context_manifest_change,
  validate_build_plan_change_request, matches_build_plan_change_intent, plan_event,
  record_build_plan_change,
}
use say_hi.Workflow.Changes.Dispatch.{
  validate_phase_execution_dispatch_request, matches_phase_execution_dispatch_intent,
  dispatch_event, record_phase_execution_dispatch,
}
use say_hi.Workflow.Changes.Outcomes.{
  validate_phase_execution_result_request, matches_phase_execution_result_intent, result_event,
  record_phase_execution_result,
}
use say_hi.Workflow.Changes.Tracker.{
  validate_tracker_synchronization_request, matches_tracker_synchronization_intent, tracker_event,
  project_tracker_synchronized_event, record_tracker_synchronization,
}
use say_hi.Workflow.Changes.Accepted.{unless_refused-ok, change-ok}
use say_hi.Workflow.Replay.{state_matches_accepted_history}
use say_hi.Workflow.Replay.Appends.{IsReplayed}
use say_hi.Workflow.Replay.Grows.{IsReplayed-IsRecorded, on_consistent}
use say_hi.Workflow.Replay.Changed.{
  IsNumbered, context_event-replays, plan_event-replays, tracker_event-replays,
}
use say_hi.Workflow.Replay.Executed.{dispatch_event-replays, result_event-replays}
use say_hi.Workflow.Replay.Operations.{changed-IsReplayed}

context_looks :
    (s : State) (r : ContextRequest)
    → validate_context_manifest_change_request true s r ≡ none
    → looks_back true s r.contract_version r.task_id ≡ true
unfolding validate_context_manifest_change_request
context_looks s r h = ground arith

pub record_context_manifest_change-IsReplayed :
    (host : Host) (s : State) (r : ContextRequest) (s2 : State) (e : WorkflowEvent)
    → IsReplayed host s
    → IsNumbered s r.event
    → record_context_manifest_change host (state_matches_accepted_history host s) s r ≡ ok s2 e
    → IsReplayed host s2
unfolding record_context_manifest_change
record_context_manifest_change-IsReplayed host s r s2 e known numbered h =
    let found = find (has_key r.event.idempotency_key) s.events in
    let made = context_event host s r in
    let p = project_context_manifest_changed_event s.projection made r.phase r.manifest_path in
    let request = validate_context_manifest_change_request true s r in
    let rest =
      on_consistent host s (λ c. record_context_manifest_change host c s r) (ok s2 e) known h in
    changed-IsReplayed host s r.event.idempotency_key request made p s2 e known
      (context_event-replays host s r (IsReplayed-IsRecorded host s known) numbered)
      (change-ok (looks_back true s r.contract_version r.task_id) found
        (matches_context_manifest_change_intent r) s request (appended s made p) s2 e
        (context_looks s r) rest)

tracker_looks :
    (host : Host) (s : State) (r : TrackerRequest)
    → validate_tracker_synchronization_request host true s r ≡ none
    → looks_back true s r.contract_version r.task_id ≡ true
unfolding validate_tracker_synchronization_request
tracker_looks host s r h = ground arith

pub record_tracker_synchronization-IsReplayed :
    (host : Host) (s : State) (r : TrackerRequest) (s2 : State) (e : WorkflowEvent)
    → IsReplayed host s
    → IsNumbered s r.event
    → record_tracker_synchronization host (state_matches_accepted_history host s) s r ≡ ok s2 e
    → IsReplayed host s2
unfolding record_tracker_synchronization
record_tracker_synchronization-IsReplayed host s r s2 e known numbered h =
    let found = find (has_key r.event.idempotency_key) s.events in
    let made = tracker_event host s r in
    let p = project_tracker_synchronized_event s.projection made r.reference in
    let request = validate_tracker_synchronization_request host true s r in
    let rest =
      on_consistent host s (λ c. record_tracker_synchronization host c s r) (ok s2 e) known h in
    changed-IsReplayed host s r.event.idempotency_key request made p s2 e known
      (tracker_event-replays host s r (IsReplayed-IsRecorded host s known) numbered)
      (change-ok (looks_back true s r.contract_version r.task_id) found
        (matches_tracker_synchronization_intent r) s request (appended s made p) s2 e
        (tracker_looks host s r) rest)

plan_looks :
    (host : Host) (s : State) (r : PlanRequest)
    → validate_build_plan_change_request host true s r ≡ none
    → looks_back true s r.contract_version r.task_id ≡ true
unfolding validate_build_plan_change_request
plan_looks host s r h = ground arith

pub record_build_plan_change-IsReplayed :
    (host : Host) (s : State) (r : PlanRequest) (s2 : State) (e : WorkflowEvent)
    → IsReplayed host s
    → IsNumbered s r.event
    → record_build_plan_change host (state_matches_accepted_history host s) s r ≡ ok s2 e
    → IsReplayed host s2
unfolding record_build_plan_change
record_build_plan_change-IsReplayed host s r s2 e known numbered h =
    let found = find (has_key r.event.idempotency_key) s.events in
    let made = plan_event host s r in
    let p = touch s.projection made in
    let request = validate_build_plan_change_request host true s r in
    let outcome =
      on_consistent host s (λ c. record_build_plan_change host c s r) (ok s2 e) known h in
    let (metadata, rest) =
      unless_refused-ok (validate_event_metadata (field "event" ∷ []) r.event) s
        (retry_or (looks_back true s r.contract_version r.task_id) found
          (matches_build_plan_change_intent r) s (unless_refused request s (appended s made p)))
        s2 e outcome in
    changed-IsReplayed host s r.event.idempotency_key request made p s2 e known
      (plan_event-replays host s r (IsReplayed-IsRecorded host s known) numbered)
      (change-ok (looks_back true s r.contract_version r.task_id) found
        (matches_build_plan_change_intent r) s request (appended s made p) s2 e
        (plan_looks host s r) rest)

dispatch_looks :
    (s : State) (r : DispatchRequest)
    → validate_phase_execution_dispatch_request true s r ≡ none
    → looks_back true s r.contract_version r.task_id ≡ true
unfolding validate_phase_execution_dispatch_request validate_phase_execution_request
dispatch_looks s r h = ground arith

pub record_phase_execution_dispatch-IsReplayed :
    (host : Host) (s : State) (r : DispatchRequest) (s2 : State) (e : WorkflowEvent)
    → IsReplayed host s
    → IsNumbered s r.event
    → record_phase_execution_dispatch host (state_matches_accepted_history host s) s r ≡ ok s2 e
    → IsReplayed host s2
unfolding record_phase_execution_dispatch
record_phase_execution_dispatch-IsReplayed host s r s2 e known numbered h =
    let found = find (has_key r.event.idempotency_key) s.events in
    let made = dispatch_event host s r in
    let p = touch s.projection made in
    let request = validate_phase_execution_dispatch_request true s r in
    let outcome =
      on_consistent host s (λ c. record_phase_execution_dispatch host c s r) (ok s2 e) known h in
    let (metadata, rest) =
      unless_refused-ok (validate_event_metadata (field "event" ∷ []) r.event) s
        (retry_or (looks_back true s r.contract_version r.task_id) found
          (matches_phase_execution_dispatch_intent r) s
          (unless_refused request s (appended s made p)))
        s2 e outcome in
    changed-IsReplayed host s r.event.idempotency_key request made p s2 e known
      (dispatch_event-replays host s r (IsReplayed-IsRecorded host s known) numbered)
      (change-ok (looks_back true s r.contract_version r.task_id) found
        (matches_phase_execution_dispatch_intent r) s request (appended s made p) s2 e
        (dispatch_looks s r) rest)

result_looks :
    (s : State) (r : ResultRequest)
    → validate_phase_execution_result_request true s r ≡ none
    → looks_back true s r.contract_version r.task_id ≡ true
unfolding validate_phase_execution_result_request validate_phase_execution_request
result_looks s r h = ground arith

pub record_phase_execution_result-IsReplayed :
    (host : Host) (s : State) (r : ResultRequest) (s2 : State) (e : WorkflowEvent)
    → IsReplayed host s
    → IsNumbered s r.event
    → record_phase_execution_result host (state_matches_accepted_history host s) s r ≡ ok s2 e
    → IsReplayed host s2
unfolding record_phase_execution_result
record_phase_execution_result-IsReplayed host s r s2 e known numbered h =
    let found = find (has_key r.event.idempotency_key) s.events in
    let made = result_event host s r in
    let p = touch s.projection made in
    let request = validate_phase_execution_result_request true s r in
    let outcome =
      on_consistent host s (λ c. record_phase_execution_result host c s r) (ok s2 e) known h in
    let (metadata, rest) =
      unless_refused-ok (validate_event_metadata (field "event" ∷ []) r.event) s
        (retry_or (looks_back true s r.contract_version r.task_id) found
          (matches_phase_execution_result_intent r) s
          (unless_refused request s (appended s made p)))
        s2 e outcome in
    changed-IsReplayed host s r.event.idempotency_key request made p s2 e known
      (result_event-replays host s r (IsReplayed-IsRecorded host s known) numbered)
      (change-ok (looks_back true s r.contract_version r.task_id) found
        (matches_phase_execution_result_intent r) s request (appended s made p) s2 e
        (result_looks s r) rest)
