-- ===== src/Workflow/Changes/Tracker.antt =====
-- recordTrackerSynchronization (packages/core/src/workflow.ts).
use say_hi.Prelude.{
  ℕ, ◌==◌, ltb, String, string_discrete, codes, Bool, true, false, not, ◌&&◌, ◌||◌, Option, none,
  List, [], ◌∷◌, ◌++◌, find, ◌or_else◌, unless, if◌then◌else◌,
}
use say_hi.Records.{user, field, eq_actor_kind}
use say_hi.DependencyGraph.Cycle.{contains}
use say_hi.Workflow.Events.{
  Projection, TrackerChange, created, updated, observed, external_closed, resolved_local,
  resolved_remote, TrackerReference, tracker_synchronized, Content, WorkflowEvent, State, Host,
  request_invalid, Diagnostic,
}
use say_hi.Workflow.Guards.{at}
use say_hi.Workflow.Payloads.{is_tracker_reference}
use say_hi.Workflow.Transition.{validate_event_metadata, decided, Result, has_key}
use say_hi.Workflow.Changes.{
  change_event, touch, matches_request, looks_back, appended, unless_refused, retry_or,
}
use say_hi.Workflow.Changes.Requests.{TrackerRequest, validate_current}

abbrev pub resolves : TrackerChange → Bool
resolves resolved_local = true
resolves resolved_remote = true
resolves _ = false

-- validateTrackerSynchronizationRequest
unfoldable pub validate_tracker_synchronization_request :
    Host → Bool → State → TrackerRequest → Option Diagnostic
validate_tracker_synchronization_request host is_consistent state r =
    validate_current is_consistent state r.contract_version r.task_id r.expected_version
    or_else unless (is_tracker_reference host r.reference) (at request_invalid "reference")
    or_else validate_event_metadata (field "event" ∷ []) r.event
    or_else unless (not (resolves r.change) || eq_actor_kind r.event.actor.kind user) (record {
      code = request_invalid;
      path = field "event" ∷ field "actor" ∷ field "kind" ∷ [];
    })

abbrev tracker_change_index : TrackerChange → ℕ
tracker_change_index created = 0
tracker_change_index updated = 1
tracker_change_index observed = 2
tracker_change_index external_closed = 3
tracker_change_index resolved_local = 4
tracker_change_index resolved_remote = 5

pub TrackerReference-discrete : Discrete TrackerReference
TrackerReference-discrete = hlevel string_discrete

unfoldable pub matches_tracker_synchronization_intent : TrackerRequest → Content → Bool
matches_tracker_synchronization_intent r e = elim e.payload [
  | tracker_synchronized change reference ↦
      matches_request e r.task_id r.expected_version r.event
      && tracker_change_index change == tracker_change_index r.change
      && decided (TrackerReference-discrete reference r.reference)
  | _ ↦ false
]

-- Whether a text comes before another one or is equal to it, as `sort` orders the identifiers, which are
-- in ASCII.
abbrev pub leq_codes : List ℕ → List ℕ → Bool
leq_codes [] t = true
leq_codes (c ∷ s) [] = false
leq_codes (c ∷ s) (d ∷ t) = let rest = leq_codes s t in ltb c d || c == d && rest

unfoldable pub insert_reference : String → List String → List String
unfolding codes
insert_reference id [] = id ∷ []
insert_reference id (other ∷ ids) =
    let rest = insert_reference id ids in
    if leq_codes (codes id) (codes other) then id ∷ other ∷ ids else other ∷ rest

unfoldable pub sort_references : List String → List String
sort_references [] = []
sort_references (id ∷ ids) = insert_reference id (sort_references ids)

unfoldable pub project_tracker_synchronized_event :
    Projection → WorkflowEvent → TrackerReference → Projection
project_tracker_synchronized_event p e reference = record (touch p e) {
  external_references =
      if contains p.external_references reference.id
      then p.external_references
      else sort_references (p.external_references ++ reference.id ∷ []);
}

abbrev pub tracker_event : Host → State → TrackerRequest → WorkflowEvent
tracker_event host state r =
    change_event host state r.event (tracker_synchronized r.change r.reference) none

unfoldable pub record_tracker_synchronization : Host → Bool → State → TrackerRequest → Result
record_tracker_synchronization host c state r =
    retry_or (looks_back c state r.contract_version r.task_id)
      (find (has_key r.event.idempotency_key) state.events)
      (matches_tracker_synchronization_intent r) state
      (unless_refused (validate_tracker_synchronization_request host c state r) state (
        appended state (tracker_event host state r) (
          project_tracker_synchronized_event state.projection (tracker_event host state r)
            r.reference)))
