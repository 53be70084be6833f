-- ===== src/Workflow/Replay/Begun.antt =====
-- The replay of the event that creates a Task (startWorkflowTask and replayWorkflowEvents of
-- packages/core/src/workflow.ts).
use say_hi.Prelude.{
  ◌≡◌, ◌↔◌, refl, sym, subst, inl, inr, true, Option, none, some, [], ◌∷◌, is_empty, ◌or_else◌,
  unless, Option-cases, arith,
}
use say_hi.Records.{strings_discrete, GateAcceptance, field, index}
use say_hi.Validation.{is_identifier}
use say_hi.Workflow.Events.{WorkflowEvent, State, Host, Diagnostic}
use say_hi.Workflow.Gates.{validate_route_gate}
use say_hi.Workflow.Transition.{validate_event_metadata}
use say_hi.Workflow.Transition.Retry.{decided_refl, str_eq_refl}
use say_hi.Workflow.Start.{
  StartRequest, validate_start_request, created_event, started, first_state, start_workflow_task,
}
use say_hi.Workflow.Start.Sound.{start-first_state}
use say_hi.Workflow.Payloads.{
  is_event_record, is_workflow_position, is_workflow_task_definition, is_payload, event_failure,
  validate_replay_event,
}
use say_hi.Workflow.Replay.Envelope.{is_valid_creation_event}
use say_hi.Workflow.Replay.{
  Replayed, replayed, admission_failure, replay_admitted, created_by, replay_first, replay_rest,
  replay_workflow_events,
}
use say_hi.Workflow.Replay.Admits.{metadata_at}
use say_hi.Workflow.Replay.Appends.{IsReplayed}
use say_hi.Workflow.Replay.Changed.{eq_route_refl}
use say_hi.Workflow.Replay.Raised.{route_gate-is_gate_acceptance}

gate_given :
    (r : StartRequest)
    → validate_start_request r ≡ none
    → (gate : GateAcceptance) × (r.route_gate ≡ some gate)
      × (validate_route_gate r.task.route (some gate) ≡ none)
unfolding validate_start_request validate_route_gate
gate_given r h = elim (Option-cases r.route_gate) [
  | inl missing ↦ ground (arith, missing)
  | inr (gate, p) ↦ (gate, p, ground (arith, p))
]

start_valid :
    (r : StartRequest)
    → validate_start_request r ≡ none
    → (is_identifier r.task.id ≡ true)
      × (validate_event_metadata (field "event" ∷ []) r.event ≡ none)
unfolding validate_start_request
start_valid r h = (ground arith, ground arith)

start_again :
    (r : StartRequest) (gate : GateAcceptance)
    → r.route_gate ≡ some gate
    → validate_start_request r ≡ none
    → validate_start_request
        (record { contract_version = 1; task = r.task; route_gate = some gate; event = r.event })
      ≡ none
unfolding validate_start_request
start_again r gate p h = ground (arith, p)

creation_admitted :
    (host : Host) (r : StartRequest) (gate : GateAcceptance)
    → r.route_gate ≡ some gate
    → validate_route_gate r.task.route (some gate) ≡ none
    → validate_start_request r ≡ none
    → is_workflow_task_definition r.task ≡ true
    → admission_failure host [] (created_event host r) ≡ none
unfolding admission_failure validate_replay_event is_event_record is_workflow_position is_payload
    created_event is_empty
creation_admitted host r gate p confirmed valid task =
    let (identifier, metadata) = start_valid r valid in
    rw (
      str_eq_refl (host.event_digest (created_event host r).content),
      p,
      identifier,
      route_gate-is_gate_acceptance r.task.route gate confirmed,
      task,
      metadata_at (field "event" ∷ []) (index 0 ∷ []) r.event metadata,
    )

creation_valid :
    (host : Host) (r : StartRequest) (gate : GateAcceptance)
    → r.route_gate ≡ some gate
    → validate_route_gate r.task.route (some gate) ≡ none
    → validate_start_request r ≡ none
    → is_valid_creation_event (created_event host r).content ≡ true
unfolding is_valid_creation_event created_event is_empty
creation_valid host r gate p confirmed valid = rw (
  p,
  str_eq_refl r.task.id,
  eq_route_refl r.task.route,
  confirmed,
  start_again r gate p valid,
  decided_refl strings_discrete [],
)

first_replays :
    (host : Host) (r : StartRequest)
    → validate_start_request r ≡ none
    → is_workflow_task_definition r.task ≡ true
    → replay_first host (created_event host r) ≡ replayed (first_state host r)
unfolding replay_first created_event
first_replays host r valid task =
    let (gate, p, confirmed) = gate_given r valid in
    rw (
      creation_admitted host r gate p confirmed valid task,
      creation_valid host r gate p confirmed valid,
    )

admitted_first :
    (o f : Option Diagnostic) (r : Replayed) (s : State)
    → replay_admitted (o or_else f) r ≡ replayed s
    → o ≡ none
admitted_first none f r s h = refl
admitted_first (some d) f r s h = cc

first_definition :
    (host : Host) (r : StartRequest) (s : State)
    → replay_first host (created_event host r) ≡ replayed s
    → is_workflow_task_definition r.task ≡ true
unfolding replay_first admission_failure validate_replay_event is_payload created_event
first_definition host r s h =
    let e = created_event host r in
    let admitted : admission_failure host [] e ≡ none =
      admitted_first (admission_failure host [] e)
        (unless (is_valid_creation_event e.content) (event_failure 0))
        (created_by e e.content.payload) s h in
    ground arith

-- The history of a Task that was just started replays to the Task's state exactly when the definition of
-- the Task passes the test of the replay, which asks more than the test of the request.
pub start_workflow_task-replays :
    (host : Host) (r : StartRequest) (s : State) (e : WorkflowEvent)
    → start_workflow_task host r ≡ started s e
    → IsReplayed host s ↔ (is_workflow_task_definition r.task ≡ true)
unfolding start_workflow_task replay_workflow_events replay_rest
start_workflow_task-replays host r s e h =
    let (valid, is) = start-first_state host r (validate_start_request r) s e h in
    subst (λ x. IsReplayed host x ↔ (is_workflow_task_definition r.task ≡ true)) (sym is)
      (
        (λ again. first_definition host r (first_state host r) again),
        (λ task. first_replays host r valid task),
      )
