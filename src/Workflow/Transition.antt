-- ===== src/Workflow/Transition.antt =====
-- The transition of a Task (transitionWorkflow and what it calls, packages/core/src/workflow.ts). Whether
-- the state matches its accepted history is an argument, as it is of validateTransitionRequest.
pub mod Accepted
pub mod Chain
pub mod Sound
mod Guarded
mod Reviewed
mod Optimistic
pub mod Retry
mod Tests
use say_hi.Prelude.{
  ℕ, ◌+◌, ◌==◌, String, str_eq, Bool, true, false, not, ◌&&◌, Option, none, some, List, [], ◌∷◌,
  ◌++◌, any, all, find, ◌or_else◌, unless, is_blank, is_empty, if◌then◌else◌,
}
use say_hi.Records.{
  Metadata, Actor, GateAcceptance, DependencyGraph, active, blocked, field, JsonPath, eq_lifecycle,
  eq_actor_kind, gates_discrete, strings_discrete, DependencyGraph-discrete,
}
use say_hi.Validation.{is_identifier, is_timestamp}
use say_hi.Workflow.Events.{
  Position, Projection, EventHead, Payload, workflow_transitioned, Content, WorkflowEvent, State,
  TransitionRequest, Host, Code, request_invalid, contract_version_unsupported, task_mismatch,
  state_inconsistent, version_stale, transition_illegal, event_idempotency_conflict, Diagnostic,
}
use say_hi.Workflow.Routes.{Transition, find_transition, positions_equal, position_of}
use say_hi.Workflow.Gates.{validate_gates}
use say_hi.Workflow.History.{is_transition}
use say_hi.Workflow.Guards.{
  at, given, validate_build_plan_implementation_transition,
  validate_build_implementation_result_transition, validate_build_review_result_transition,
  validate_transition_invariants, Snapshot, no_graph, snapshot, refused,
  validate_initiative_graph_transition,
}

abbrev pub workflow_contract_version : ℕ
workflow_contract_version = 1

unfoldable pub is_workflow_actor : Actor → Bool
is_workflow_actor a = is_identifier a.id && not (is_empty a.session_ref)

abbrev pub invalid_request : JsonPath → String → Diagnostic
invalid_request path name = record { code = request_invalid; path = path ++ field name ∷ [] }

unfoldable pub validate_event_metadata : JsonPath → Metadata → Option Diagnostic
validate_event_metadata path event =
    unless (is_identifier event.event_id) (invalid_request path "eventId")
    or_else unless (is_workflow_actor event.actor) (invalid_request path "actor")
    or_else unless (not (is_blank event.reason)) (invalid_request path "reason")
    or_else unless (is_identifier event.idempotency_key) (invalid_request path "idempotencyKey")
    or_else unless (is_timestamp event.occurred_at) (invalid_request path "occurredAt")

-- validateTransitionRequest
unfoldable pub validate_transition_request : Bool → State → TransitionRequest → Option Diagnostic
validate_transition_request is_consistent state request =
    unless (request.contract_version == workflow_contract_version)
      (at contract_version_unsupported "contractVersion")
    or_else unless (str_eq request.task_id state.projection.task.id) (at task_mismatch "taskId")
    or_else unless is_consistent (at state_inconsistent "state")
    or_else unless (request.expected_version == state.projection.version)
        (at version_stale "expectedVersion")
    or_else unless (not (is_blank request.to.step)) (invalid_request (field "to" ∷ []) "step")
    or_else unless (all (λ b. not (is_blank b)) (given request.blockers))
        (at request_invalid "blockers")
    or_else validate_event_metadata (field "event" ∷ []) request.event

-- The guards that follow the Gates, up to the one that yields the graph of the event.
unfoldable pub guard_failure :
    Host → State → Position → Actor → List GateAcceptance → Option (List String) → Option Diagnostic
guard_failure host state to actor gates blockers =
    validate_build_plan_implementation_transition host state.projection state.events to actor gates
    or_else validate_build_implementation_result_transition state.projection state.events to
    or_else validate_build_review_result_transition state.projection state.events to
    or_else validate_transition_invariants state.projection state.events to blockers

abbrev admitted : Option Diagnostic → Snapshot → Snapshot
admitted (some d) graph = refused d
admitted none graph = graph

abbrev admitted_by :
    Option Transition
    → Host
    → State
    → Position
    → Actor
    → List GateAcceptance
    → Option (List String)
    → Option DependencyGraph
    → Snapshot
admitted_by none host state to actor gates blockers graph = refused (at transition_illegal "to")
admitted_by (some transition) host state to actor gates blockers graph =
    admitted
      (validate_gates transition.required_gates gates
        or_else guard_failure host state to actor gates blockers)
      (validate_initiative_graph_transition state.projection state.events to graph)

-- From findTransition on: what transitionWorkflow and replayWorkflowEvents both ask of a transition.
unfoldable pub admit_transition :
    Host
    → State
    → Position
    → Actor
    → List GateAcceptance
    → Option (List String)
    → Option DependencyGraph
    → Snapshot
admit_transition host state to = admitted_by (find_transition state.projection to) host state to

unfoldable pub blockers_after_transition : Projection → TransitionRequest → List String
blockers_after_transition p request =
    if eq_lifecycle request.to.lifecycle blocked
    then given request.blockers
    else (if eq_lifecycle p.lifecycle blocked && eq_lifecycle request.to.lifecycle active
        then []
        else p.blockers)

-- `state.events[state.events.length - 1]!.chainDigest`
abbrev pub tail_digest : List WorkflowEvent → Option String
tail_digest [] = none
tail_digest (e ∷ []) = some e.chain_digest
tail_digest (e ∷ f ∷ events) = tail_digest (f ∷ events)

-- Adds the digest of the content.
abbrev pub signed : Host → Content → WorkflowEvent
signed host content = record { content = content; chain_digest = host.event_digest content }

unfoldable pub transition_event :
    Host → State → TransitionRequest → Option DependencyGraph → WorkflowEvent
transition_event host state request graph = signed host (record {
  event_id = request.event.event_id;
  task_id = state.projection.task.id;
  route = state.projection.task.route;
  sequence = state.projection.version + 1;
  previous_chain_digest = tail_digest state.events;
  payload = workflow_transitioned;
  from = some (position_of state.projection);
  to = request.to;
  actor = request.event.actor;
  gates = request.gates;
  blockers = blockers_after_transition state.projection request;
  initiative_graph = graph;
  reason = request.event.reason;
  idempotency_key = request.event.idempotency_key;
  occurred_at = request.event.occurred_at;
})

abbrev pub event_head : WorkflowEvent → EventHead
event_head e = record {
  sequence = e.content.sequence;
  event_id = e.content.event_id;
  chain_digest = e.chain_digest;
}

unfoldable pub project_transition_event : Projection → WorkflowEvent → Projection
project_transition_event p e = record {
  task = p.task;
  lifecycle = e.content.to.lifecycle;
  phase = e.content.to.phase;
  step = e.content.to.step;
  version = e.content.sequence;
  event_head = event_head e;
  blockers = e.content.blockers;
  external_references = p.external_references;
  created_at = p.created_at;
  updated_at = e.content.occurred_at;
}

abbrev pub decided {ℓ} : {A : Type ℓ} → Dec A → Bool
decided (yes a) = true
decided (no f) = false

abbrev pub same_strings : List String → List String → Bool
same_strings a b = decided (strings_discrete a b)

abbrev pub same_gates : List GateAcceptance → List GateAcceptance → Bool
same_gates a b = decided (gates_discrete a b)

abbrev pub same_graph : Option DependencyGraph → Option DependencyGraph → Bool
same_graph none none = true
same_graph (some a) (some b) = decided (DependencyGraph-discrete a b)
same_graph _ _ = false

unfoldable pub matches_transition_intent : Content → TransitionRequest → Bool
matches_transition_intent e request =
    str_eq e.task_id request.task_id
    && e.sequence == request.expected_version + 1
    && positions_equal e.to request.to
    && same_gates e.gates request.gates
    && same_strings e.blockers (given request.blockers)
    && same_graph e.initiative_graph request.initiative_graph
    && str_eq e.reason request.event.reason
    && eq_actor_kind e.actor.kind request.event.actor.kind
    && str_eq e.actor.id request.event.actor.id
    && str_eq e.actor.session_ref request.event.actor.session_ref

-- TransitionWorkflowResult
pub data Result : Type 0 where
  ok : State → WorkflowEvent → Result
  failure : State → Diagnostic → Result

abbrev pub after : Host → State → TransitionRequest → Option DependencyGraph → State
after host state request graph =
    let e = transition_event host state request graph in
    record {
      events = state.events ++ e ∷ [];
      projection = project_transition_event state.projection e;
    }

abbrev accept : Host → State → TransitionRequest → Snapshot → Result
accept host state request (refused d) = failure state d
accept host state request no_graph =
    ok (after host state request none) (transition_event host state request none)
accept host state request (snapshot graph) =
    ok (after host state request (some graph)) (transition_event host state request (some graph))

abbrev pub retried : State → TransitionRequest → WorkflowEvent → Result
retried state request e =
    if is_transition e.content.payload && matches_transition_intent e.content request
    then ok state e
    else failure state (record {
      code = event_idempotency_conflict;
      path = field "event" ∷ field "idempotencyKey" ∷ [];
    })

abbrev pub requested : Host → State → TransitionRequest → Option Diagnostic → Result
requested host state request (some d) = failure state d
requested host state request none = accept host state request (
    admit_transition host state request.to request.event.actor request.gates request.blockers
      request.initiative_graph)

abbrev pub has_key : String → WorkflowEvent → Bool
has_key key e = str_eq e.content.idempotency_key key

-- transitionWorkflow
unfoldable pub transition_workflow : Host → Bool → State → TransitionRequest → Result
transition_workflow host is_consistent state request =
    elim (find (has_key request.event.idempotency_key) state.events) [
      | some e ↦ retried state request e
      | none ↦
          requested host state request (validate_transition_request is_consistent state request)
    ]
