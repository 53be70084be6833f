-- ===== src/Workflow/Replay/Executed.antt =====
-- The replay of the events of Phase executions (packages/core/src/workflow.ts).
use say_hi.Prelude.{◌≡◌, ℕ, String, true, false, ◌&&◌, none, List, [], ◌∷◌, find, arith}
use say_hi.Records.{build, active, Metadata, field, eq_route, eq_lifecycle}
use say_hi.Validation.{is_contract_identity}
use say_hi.Workflow.Events.{
  Payload, phase_execution_dispatched, phase_execution_result_accepted, Projection, WorkflowEvent,
  ExecutionResult, State, Host,
}
use say_hi.Workflow.Transition.{has_key, validate_event_metadata}
use say_hi.Workflow.Transition.Retry.{str_eq_refl}
use say_hi.Workflow.Execution.{is_binding, is_agent_result}
use say_hi.Workflow.Payloads.{is_payload}
use say_hi.Workflow.Changes.{change_event, touch}
use say_hi.Workflow.Changes.Requests.{
  DispatchRequest, ResultRequest, validate_phase_execution_request,
}
use say_hi.Workflow.Changes.Dispatch.{
  is_approved_identity, validate_phase_execution_dispatch_binding,
  validate_build_review_dispatch_binding, validate_phase_execution_dispatch_request, dispatch_event,
}
use say_hi.Workflow.Changes.Outcomes.{
  validate_phase_execution_result_binding, validate_build_review_result_payload,
  validate_phase_execution_result_request, result_event,
}
use say_hi.Workflow.Replay.Envelope.{is_phase_execution_event_envelope}
use say_hi.Workflow.Replay.{replayed, replay_payload, replay_event}
use say_hi.Workflow.Replay.Failures.{dispatch_replay_failure, result_replay_failure}
use say_hi.Workflow.Replay.Sound.{IsRecorded}
use say_hi.Workflow.Replay.Snapshots.{next}
use say_hi.Workflow.Replay.Changed.{
  IsNumbered, change_stays, change_keeps, change_event-admitted, admitted-replays,
}

execution_envelope :
    (host : Host) (s : State) (m : Metadata) (payload : Payload)
    → eq_route s.projection.task.route build && eq_lifecycle s.projection.lifecycle active ≡ true
    → is_phase_execution_event_envelope (change_event host s m payload none).content s.projection
      ≡ true
unfolding is_phase_execution_event_envelope change_event
execution_envelope host s m payload here =
    let on_build : eq_route s.projection.task.route build ≡ true = ground arith in
    let live : eq_lifecycle s.projection.lifecycle active ≡ true = ground arith in
    rw (str_eq_refl s.projection.task.id, on_build, live, change_keeps host s m payload)

request_valid :
    (s : State) (version : ℕ) (task_id : String) (expected : ℕ) (m : Metadata)
    → validate_phase_execution_request s version task_id expected m ≡ none
    → (eq_route s.projection.task.route build && eq_lifecycle s.projection.lifecycle active ≡ true)
      × (validate_event_metadata (field "event" ∷ []) m ≡ none)
unfolding validate_phase_execution_request
request_valid s version task_id expected m h = (ground arith, ground arith)

dispatch_valid :
    (s : State) (r : DispatchRequest)
    → validate_phase_execution_dispatch_request true s r ≡ none
    → (validate_phase_execution_request s r.contract_version r.task_id r.expected_version r.event
        ≡ none)
      × (is_contract_identity r.plan_identity ≡ true)
      × (is_binding r.binding ≡ true)
      × (validate_phase_execution_dispatch_binding s.projection r.binding ≡ none)
      × (is_approved_identity s.events r.plan_identity ≡ true)
      × (validate_build_review_dispatch_binding s.projection s.events r.binding ≡ none)
unfolding validate_phase_execution_dispatch_request
dispatch_valid s r h =
    (ground arith, ground arith, ground arith, ground arith, ground arith, ground arith)

pub dispatch_event-replays :
    (host : Host) (s : State) (r : DispatchRequest)
    → IsRecorded host s
    → IsNumbered s r.event
    → find (has_key r.event.idempotency_key) s.events ≡ none
    → validate_phase_execution_dispatch_request true s r ≡ none
    → replay_event host s (dispatch_event host s r)
      ≡ replayed (next s (dispatch_event host s r) (touch s.projection (dispatch_event host s r)))
unfolding change_event is_payload replay_payload dispatch_replay_failure
dispatch_event-replays host s r known (id, safe) key valid =
    let (request, identity, binding, bound, approved, assesses) = dispatch_valid s r valid in
    let (here, metadata) =
      request_valid s r.contract_version r.task_id r.expected_version r.event request in
    let payload = phase_execution_dispatched r.plan_identity r.binding in
    admitted-replays host s (dispatch_event host s r)
      (replayed (next s (dispatch_event host s r) (touch s.projection (dispatch_event host s r))))
      (change_event-admitted host s r.event payload none known (metadata, key, id, safe)
        (rw (change_stays host s r.event payload none known, identity)))
      (rw (execution_envelope host s r.event payload here, binding, approved, bound, assesses))

less_structured :
    (p : Projection) (events : List WorkflowEvent) (result : ExecutionResult)
    → validate_build_review_result_payload p events result true ≡ none
    → validate_build_review_result_payload p events result false ≡ none
unfolding validate_build_review_result_payload
less_structured p events result h = ground arith

result_valid :
    (s : State) (r : ResultRequest)
    → validate_phase_execution_result_request true s r ≡ none
    → (validate_phase_execution_request s r.contract_version r.task_id r.expected_version r.event
        ≡ none)
      × (is_agent_result r.result ≡ true)
      × (validate_phase_execution_result_binding s.projection s.events r.result ≡ none)
      × (validate_build_review_result_payload s.projection s.events r.result true ≡ none)
unfolding validate_phase_execution_result_request
result_valid s r h = (ground arith, ground arith, ground arith, ground arith)

pub result_event-replays :
    (host : Host) (s : State) (r : ResultRequest)
    → IsRecorded host s
    → IsNumbered s r.event
    → find (has_key r.event.idempotency_key) s.events ≡ none
    → validate_phase_execution_result_request true s r ≡ none
    → replay_event host s (result_event host s r)
      ≡ replayed (next s (result_event host s r) (touch s.projection (result_event host s r)))
unfolding change_event is_payload replay_payload result_replay_failure
result_event-replays host s r known (id, safe) key valid =
    let (request, shape, bound, assessed) = result_valid s r valid in
    let (here, metadata) =
      request_valid s r.contract_version r.task_id r.expected_version r.event request in
    let payload = phase_execution_result_accepted r.result in
    admitted-replays host s (result_event host s r)
      (replayed (next s (result_event host s r) (touch s.projection (result_event host s r))))
      (change_event-admitted host s r.event payload none known (metadata, key, id, safe)
        (rw (change_stays host s r.event payload none known)))
      (rw (
        execution_envelope host s r.event payload here,
        shape,
        bound,
        less_structured s.projection s.events r.result assessed,
      ))
