-- ===== src/Workflow/Replay/Changed.antt =====
-- The replay of the events that record a change and keep the Task's position
-- (packages/core/src/workflow.ts).
use say_hi.Prelude.{
  ◌≡◌, refl, ap, ◌∙◌, ◌+◌, str_eq, codes, true, false, not, ◌||◌, Option, none, List, [], ◌∷◌, any,
  find, arith,
}
use say_hi.Validation.{is_contract_identity}
use say_hi.Records.{
  user, plan, active, eq_lifecycle, eq_phase, Actor, eq_actor_kind, is_safe, Route, quick, build,
  initiative, Metadata, DependencyGraph, field, strings_discrete, eq_route,
}
use say_hi.Workflow.Events.{
  Payload, context_manifest_changed, build_plan_changed, tracker_synchronized, recorded, rejected,
  PlanChange, PlanMaterial, WorkflowEvent, State, Host,
}
use say_hi.Workflow.Routes.{position_of}
use say_hi.Workflow.Transition.{has_key, validate_event_metadata}
use say_hi.Workflow.Transition.Retry.{decided_refl, str_eq_refl, positions_equal_refl}
use say_hi.Workflow.Payloads.{
  is_tracker_reference, is_plan_material, manifest_path_of, is_workflow_position, is_payload, stays,
}
use say_hi.Workflow.Changes.{change_event, touch}
use say_hi.Workflow.Changes.Requests.{ContextRequest, PlanRequest, TrackerRequest}
use say_hi.Workflow.Changes.Tracker.{
  validate_tracker_synchronization_request, project_tracker_synchronized_event, tracker_event,
}
use say_hi.Workflow.Guards.{is_recorded}
use say_hi.Workflow.History.{has_frozen_implement_context}
use say_hi.Workflow.Changes.Plan.{
  in_active_plan, follows, validate_context_manifest_change_request,
  project_context_manifest_changed_event, context_event, validate_build_plan_change_request,
  plan_event,
}
use say_hi.Workflow.Replay.Envelope.{is_plan_envelope, is_plan_sequence, keeps, keeps_position}
use say_hi.Workflow.Replay.{
  Replayed, replayed, has_event_id, admission_failure, replay_admitted, replay_payload,
  replay_event,
}
use say_hi.Workflow.Replay.Failures.{plan_replay_failure}
use say_hi.Workflow.Replay.Sound.{IsRecorded}
use say_hi.Workflow.Replay.Snapshots.{next}
use say_hi.Workflow.Replay.Admits.{IsFresh, signed-admitted}

pub eq_route_refl : (route : Route) → eq_route route route ≡ true
eq_route_refl quick = refl
eq_route_refl build = refl
eq_route_refl initiative = refl

-- An event that keeps the position of a Task stays where the Task is.
pub change_stays :
    (host : Host) (s : State) (m : Metadata) (payload : Payload) (graph : Option DependencyGraph)
    → IsRecorded host s
    → stays
        (change_event host s m payload graph).content.from
        (change_event host s m payload graph).content.to
      ≡ true
unfolding change_event is_workflow_position
change_stays host s m payload graph (sound, keys, ids, identifier, step, texts, limit) =
    rw (step, positions_equal_refl (position_of s.projection))

pub change_keeps :
    (host : Host) (s : State) (m : Metadata) (payload : Payload)
    → keeps (change_event host s m payload none).content s.projection ≡ true
unfolding change_event
change_keeps host s m payload = rw (
  positions_equal_refl (position_of s.projection),
  decided_refl strings_discrete s.projection.blockers,
)

pub change_keeps_position :
    (host : Host) (s : State) (m : Metadata) (payload : Payload)
    → keeps_position (change_event host s m payload none).content s.projection ≡ true
unfolding keeps_position change_event
change_keeps_position host s m payload = rw (
  str_eq_refl s.projection.task.id,
  eq_route_refl s.projection.task.route,
  positions_equal_refl (position_of s.projection),
  decided_refl strings_discrete s.projection.blockers,
)

pub change_event-admitted :
    (host : Host) (s : State) (m : Metadata) (payload : Payload) (graph : Option DependencyGraph)
    → IsRecorded host s
    → IsFresh s m
    → is_payload host (change_event host s m payload graph).content payload ≡ true
    → admission_failure host s.events (change_event host s m payload graph) ≡ none
unfolding change_event is_workflow_position
change_event-admitted host s m payload graph known fresh fits =
    let (sound, keys, ids, identifier, step, texts, limit) = known in
    signed-admitted host s (change_event host s m payload graph).content known fresh
      (refl, refl, refl, ap not step, refl, texts, fits)

-- The event id of a request is new, and the version after it is a safe integer.
abbrev pub IsNumbered : State → Metadata → Type 0
IsNumbered s m =
    (any (has_event_id m.event_id) s.events ≡ false) × (is_safe (s.projection.version + 1) ≡ true)

pub admitted-replays :
    (host : Host) (s : State) (e : WorkflowEvent) (r : Replayed)
    → admission_failure host s.events e ≡ none
    → replay_payload host s e e.content.payload ≡ r
    → replay_event host s e ≡ r
unfolding replay_event
admitted-replays host s e r admitted h =
    ap (λ o. replay_admitted o (replay_payload host s e e.content.payload)) admitted ∙ h

context_valid :
    (s : State) (r : ContextRequest)
    → validate_context_manifest_change_request true s r ≡ none
    → (str_eq r.manifest_path (manifest_path_of r.phase) ≡ true)
      × (is_contract_identity r.manifest_identity ≡ true)
      × (validate_event_metadata (field "event" ∷ []) r.event ≡ none)
unfolding validate_context_manifest_change_request
context_valid s r h = (ground arith, ground arith, ground arith)

pub context_event-replays :
    (host : Host) (s : State) (r : ContextRequest)
    → IsRecorded host s
    → IsNumbered s r.event
    → find (has_key r.event.idempotency_key) s.events ≡ none
    → validate_context_manifest_change_request true s r ≡ none
    → replay_event host s (context_event host s r)
      ≡ replayed (
          next s (context_event host s r) (
            project_context_manifest_changed_event s.projection
              (context_event host s r)
              r.phase
              r.manifest_path))
unfolding change_event is_payload replay_payload
context_event-replays host s r known (id, safe) key valid =
    let (path, identity, metadata) = context_valid s r valid in
    let payload = context_manifest_changed r.phase r.manifest_path r.manifest_identity r.change in
    admitted-replays host s (context_event host s r)
      (replayed (
        next s (context_event host s r) (
          project_context_manifest_changed_event s.projection (context_event host s r) r.phase
            r.manifest_path)))
      (change_event-admitted host s r.event payload none known (metadata, key, id, safe)
        (rw (change_stays host s r.event payload none known, path, identity)))
      (rw (change_keeps_position host s r.event payload))

tracker_valid :
    (host : Host) (s : State) (r : TrackerRequest)
    → validate_tracker_synchronization_request host true s r ≡ none
    → (is_tracker_reference host r.reference ≡ true)
      × (validate_event_metadata (field "event" ∷ []) r.event ≡ none)
unfolding validate_tracker_synchronization_request
tracker_valid host s r h = (ground arith, ground arith)

pub tracker_event-replays :
    (host : Host) (s : State) (r : TrackerRequest)
    → IsRecorded host s
    → IsNumbered s r.event
    → find (has_key r.event.idempotency_key) s.events ≡ none
    → validate_tracker_synchronization_request host true s r ≡ none
    → replay_event host s (tracker_event host s r)
      ≡ replayed (
          next s
            (tracker_event host s r)
            (project_tracker_synchronized_event s.projection (tracker_event host s r) r.reference))
unfolding change_event is_payload replay_payload
tracker_event-replays host s r known (id, safe) key valid =
    let (reference, metadata) = tracker_valid host s r valid in
    let payload = tracker_synchronized r.change r.reference in
    admitted-replays host s (tracker_event host s r)
      (replayed (
        next s (tracker_event host s r)
          (project_tracker_synchronized_event s.projection (tracker_event host s r) r.reference)))
      (change_event-admitted host s r.event payload none known (metadata, key, id, safe)
        (rw (change_stays host s r.event payload none known, reference)))
      (rw (change_keeps_position host s r.event payload))

plan_valid :
    (host : Host) (s : State) (r : PlanRequest)
    → validate_build_plan_change_request host true s r ≡ none
    → (in_active_plan s.projection ≡ true)
      × (is_plan_material r.material ≡ true)
      × (str_eq r.material.requirements_identity (host.intent_identity s.projection.task.intent)
          ≡ true)
      × (has_frozen_implement_context s.events (codes r.material.context_manifest_identity) ≡ true)
      × (is_recorded r.change || eq_actor_kind r.event.actor.kind user ≡ true)
      × (follows s.events r.change r.material ≡ none)
      × (validate_event_metadata (field "event" ∷ []) r.event ≡ none)
unfolding validate_build_plan_change_request
plan_valid host s r h = (
  ground arith,
  ground arith,
  ground arith,
  ground arith,
  ground arith,
  ground arith,
  ground arith,
)

plan_sequence :
    (events : List WorkflowEvent) (actor : Actor) (change : PlanChange) (material : PlanMaterial)
    → is_recorded change || eq_actor_kind actor.kind user ≡ true
    → follows events change material ≡ none
    → is_plan_sequence events actor change material ≡ true
unfolding follows is_plan_sequence
plan_sequence events actor recorded material by_user h = ground arith
plan_sequence events actor rejected material by_user h = ground arith

plan_envelope :
    (host : Host) (s : State) (r : PlanRequest)
    → in_active_plan s.projection ≡ true
    → is_plan_material r.material ≡ true
    → str_eq r.material.requirements_identity (host.intent_identity s.projection.task.intent) ≡ true
    → has_frozen_implement_context s.events (codes r.material.context_manifest_identity) ≡ true
    → is_plan_envelope host s (plan_event host s r).content r.material ≡ true
unfolding is_plan_envelope change_event
plan_envelope host s r here material requirements frozen =
    let on_build : eq_route s.projection.task.route build ≡ true = ground arith in
    let live : eq_lifecycle s.projection.lifecycle active ≡ true = ground arith in
    let planning : eq_phase s.projection.phase plan ≡ true = ground arith in
    let path : str_eq r.material.context_manifest_path "context/implement.jsonl" ≡ true =
      ground arith in
    let kept = change_keeps host s r.event (build_plan_changed r.change r.material) in
    rw
      (str_eq_refl s.projection.task.id, on_build, live, planning, kept, requirements, path, frozen)

pub plan_event-replays :
    (host : Host) (s : State) (r : PlanRequest)
    → IsRecorded host s
    → IsNumbered s r.event
    → find (has_key r.event.idempotency_key) s.events ≡ none
    → validate_build_plan_change_request host true s r ≡ none
    → replay_event host s (plan_event host s r)
      ≡ replayed (next s (plan_event host s r) (touch s.projection (plan_event host s r)))
unfolding change_event is_payload replay_payload plan_replay_failure
plan_event-replays host s r known (id, safe) key valid =
    let (here, material, requirements, frozen, by_user, sequence, metadata) =
      plan_valid host s r valid in
    let payload = build_plan_changed r.change r.material in
    admitted-replays host s (plan_event host s r)
      (replayed (next s (plan_event host s r) (touch s.projection (plan_event host s r))))
      (change_event-admitted host s r.event payload none known (metadata, key, id, safe)
        (rw (change_stays host s r.event payload none known, material)))
      (rw (
        plan_envelope host s r here material requirements frozen,
        plan_sequence s.events r.event.actor r.change r.material by_user sequence,
      ))
