-- ===== src/Workflow/Replay/Raised.antt =====
-- The replay of the events of escalations and of adoptions of a Baseline (packages/core/src/workflow.ts).
use say_hi.Prelude.{
  ◌≡◌, refl, ap, true, not, Option, none, some, [], ◌∷◌, all, find, is_empty, ◌or_else◌, unless,
  arith,
}
use say_hi.Records.{
  quick, build, active, to_route, field, eq_lifecycle, eq_route, GateAcceptance, Route,
}
use say_hi.Validation.{is_contract_identity}
use say_hi.Workflow.Events.{gate_evidence_invalid, baseline_adopted, State, Host, Diagnostic}
use say_hi.Workflow.Routes.{position_of}
use say_hi.Workflow.Gates.{move_to_route_gate, confirmed, validate_gates, validate_route_gate}
use say_hi.Workflow.Transition.{has_key, validate_event_metadata}
use say_hi.Workflow.Transition.Retry.{str_eq_refl, positions_equal_refl}
use say_hi.Workflow.Escalation.{
  EscalationRequest, validate_quick_escalation_request, escalation_event, escalated,
}
use say_hi.Workflow.Adoption.{
  AdoptionRequest, are_adopted_paths, validate_baseline_adoption_request, adoption_event,
  adopted_state,
}
use say_hi.Workflow.Payloads.{is_gate_acceptance, is_workflow_position, is_payload}
use say_hi.Workflow.Replay.Envelope.{is_escalation_envelope}
use say_hi.Workflow.Replay.{replayed, replay_payload, replay_event}
use say_hi.Workflow.Replay.Sound.{IsRecorded}
use say_hi.Workflow.Replay.Admits.{signed-admitted}
use say_hi.Workflow.Replay.References.{validate_gates-is_gate_acceptance}
use say_hi.Workflow.Changes.{change_event}
use say_hi.Workflow.Replay.Changed.{
  IsNumbered, change_stays, change_keeps_position, change_event-admitted, admitted-replays,
}

gates_pass :
    (o : Option Diagnostic) (f : Option Diagnostic)
    → move_to_route_gate o or_else f ≡ none
    → o ≡ none
gates_pass none f h = refl
gates_pass (some d) f h = cc

-- A Route Gate that satisfies a Route names the references of its evidence.
pub route_gate-is_gate_acceptance :
    (route : Route) (gate : GateAcceptance)
    → validate_route_gate route (some gate) ≡ none
    → all is_gate_acceptance (gate ∷ []) ≡ true
unfolding validate_route_gate
route_gate-is_gate_acceptance route gate h =
    validate_gates-is_gate_acceptance (to_route ∷ []) (gate ∷ []) (
      gates_pass (validate_gates (to_route ∷ []) (gate ∷ []))
        (unless (confirmed route gate)
          (record { code = gate_evidence_invalid; path = field "routeGate" ∷ [] }))
        h)

escalation_valid :
    (s : State) (r : EscalationRequest)
    → validate_quick_escalation_request true s r ≡ none
    → (eq_route s.projection.task.route quick ≡ true)
      × (eq_lifecycle s.projection.lifecycle active ≡ true)
      × (validate_route_gate build (some r.route_gate) ≡ none)
      × (validate_event_metadata (field "event" ∷ []) r.event ≡ none)
unfolding validate_quick_escalation_request
escalation_valid s r h = (ground arith, ground arith, ground arith, ground arith)

pub escalation_event-replays :
    (host : Host) (s : State) (r : EscalationRequest)
    → IsRecorded host s
    → IsNumbered s r.event
    → find (has_key r.event.idempotency_key) s.events ≡ none
    → validate_quick_escalation_request true s r ≡ none
    → replay_event host s (escalation_event host s r) ≡ replayed (escalated host s r)
unfolding escalation_event is_workflow_position is_payload replay_payload is_escalation_envelope
    is_empty
escalation_event-replays host s r known (id, safe) key valid =
    let (on_quick, live, gate, metadata) = escalation_valid s r valid in
    let (sound, keys, ids, identifier, step, texts, limit) = known in
    admitted-replays host s (escalation_event host s r) (replayed (escalated host s r))
      (signed-admitted host s (escalation_event host s r).content known (metadata, key, id, safe)
        (
          refl,
          refl,
          refl,
          refl,
          route_gate-is_gate_acceptance build r.route_gate gate,
          refl,
          ap not step,
        ))
      (rw (
        str_eq_refl s.projection.task.id,
        on_quick,
        live,
        positions_equal_refl (position_of s.projection),
        gate,
      ))

adoption_valid :
    (s : State) (r : AdoptionRequest)
    → validate_baseline_adoption_request true s r ≡ none
    → (is_contract_identity r.baseline_identity ≡ true)
      × (are_adopted_paths [] r.adopted ≡ true)
      × (validate_event_metadata (field "event" ∷ []) r.event ≡ none)
unfolding validate_baseline_adoption_request
adoption_valid s r h = (ground arith, ground arith, ground arith)

pub adoption_event-replays :
    (host : Host) (s : State) (r : AdoptionRequest)
    → IsRecorded host s
    → IsNumbered s r.event
    → find (has_key r.event.idempotency_key) s.events ≡ none
    → validate_baseline_adoption_request true s r ≡ none
    → replay_event host s (adoption_event host s r) ≡ replayed (adopted_state host s r)
unfolding adoption_event change_event is_payload replay_payload
adoption_event-replays host s r known (id, safe) key valid =
    let (identity, paths, metadata) = adoption_valid s r valid in
    let payload = baseline_adopted r.baseline_identity r.adopted in
    admitted-replays host s (adoption_event host s r) (replayed (adopted_state host s r))
      (change_event-admitted host s r.event payload none known (metadata, key, id, safe)
        (rw (change_stays host s r.event payload none known, identity, paths)))
      (rw (change_keeps_position host s r.event payload))
