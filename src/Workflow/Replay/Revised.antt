-- ===== src/Workflow/Replay/Revised.antt =====
-- The replay of the events that revise the graph of an Initiative (packages/core/src/workflow.ts).
use say_hi.Prelude.{
  ◌≡◌, refl, ap, ◌∙◌, leb, Bool, true, ◌&&◌, Option, none, some, [], ◌∷◌, find, arith,
}
use say_hi.Records.{DependencyGraph, field, is_safe}
use say_hi.DependencyGraph.Validate as Graph
use say_hi.Workflow.Events.{initiative_graph_revised, State, Host, Diagnostic}
use say_hi.Workflow.Guards.{snapshot}
use say_hi.Workflow.Transition.{has_key, validate_event_metadata}
use say_hi.Workflow.Transition.Retry.{str_eq_refl}
use say_hi.Workflow.Payloads.{is_payload}
use say_hi.Workflow.Changes.{change_event, touch}
use say_hi.Workflow.Changes.Requests.{GraphRequest}
use say_hi.Workflow.Changes.Graph.{
  validate_revision, validate_succession, succession_failure, kept, revised, revised_unless,
  latest_initiative_graph, validate_initiative_graph_revision_request, graph_event,
}
use say_hi.Workflow.Replay.{replayed, accepted_with, replay_payload, replay_event, graph_request}
use say_hi.Workflow.Replay.Sound.{IsRecorded}
use say_hi.Workflow.Replay.Snapshots.{next, accepted_with-next}
use say_hi.Workflow.Replay.Changed.{
  IsNumbered, change_stays, change_event-admitted, admitted-replays,
}

-- The request that the replay makes of the event of a request.
abbrev pub replayed_request : Host → State → GraphRequest → GraphRequest
replayed_request host s r =
    graph_request s (graph_event host s r r.graph).content r.expected_graph_version r.graph

revision_passes :
    (host : Host) (s : State) (r : GraphRequest)
    → validate_revision true s r ≡ none
    → validate_revision true s (replayed_request host s r) ≡ none
unfolding validate_revision change_event
revision_passes host s r h = ground (arith, str_eq_refl s.projection.task.id)

succession_passes :
    (host : Host) (s : State) (r : GraphRequest) (allow : Bool) (graph : DependencyGraph)
    (current : Option DependencyGraph)
    → succession_failure s r allow graph current ≡ none
    → succession_failure s (replayed_request host s r) true graph current ≡ none
unfolding validate_succession change_event
succession_passes host s r allow graph none h = cc
succession_passes host s r allow graph (some current) h = ground arith

kept-passes :
    (graph g : DependencyGraph) (o : Option Diagnostic) → kept graph o ≡ snapshot g → o ≡ none
kept-passes graph g none h = refl
kept-passes graph g (some d) h = cc

revised_again :
    (host : Host) (s : State) (r : GraphRequest) (allow : Bool) (f : Option Diagnostic)
    (v : Option Graph.Diagnostic) (g : DependencyGraph)
    → validate_revision true s r ≡ f
    → revised_unless f (revised s r allow (Graph.validated r.graph v)) ≡ snapshot g
    → (f ≡ none)
      × (revised s (replayed_request host s r) true (Graph.validated r.graph v) ≡ snapshot r.graph)
revised_again host s r allow (some d) v g is h = cc
revised_again host s r allow none (some d) g is h = cc
revised_again host s r allow none none g is h =
    let current = latest_initiative_graph s.events in
    let passes =
      succession_passes host s r allow r.graph current
        (kept-passes r.graph g (succession_failure s r allow r.graph current) h) in
    (refl, ap (kept r.graph) passes)

-- A request that is accepted passes its tests, and so does the request that the replay makes of it.
pub request_again :
    (host : Host) (s : State) (r : GraphRequest) (allow : Bool) (g : DependencyGraph)
    → validate_initiative_graph_revision_request true s r allow ≡ snapshot g
    → (validate_revision true s r ≡ none)
      × (validate_initiative_graph_revision_request true s (replayed_request host s r) true
          ≡ snapshot r.graph)
unfolding validate_initiative_graph_revision_request Graph.validate_dependency_graph
request_again host s r allow g h =
    let (valid, again) =
      revised_again host s r allow (validate_revision true s r) (Graph.graph_failure r.graph) g refl
        h in
    (
      valid,
      ap
            (λ o. revised_unless o (
              revised s (replayed_request host s r) true
                (Graph.validated r.graph (Graph.graph_failure r.graph))))
            (revision_passes host s r valid)
          ∙ again,
    )

counted :
    (s : State) (r : GraphRequest)
    → validate_revision true s r ≡ none
    → is_safe r.expected_graph_version && leb 1 r.expected_graph_version ≡ true
unfolding validate_revision
counted s r h = ground arith

-- A revision that was accepted replays, whether or not the request allowed it to add repairs.
pub graph_event-replays :
    (host : Host) (s : State) (r : GraphRequest) (allow : Bool) (g : DependencyGraph)
    → IsRecorded host s
    → IsNumbered s r.event
    → find (has_key r.event.idempotency_key) s.events ≡ none
    → validate_event_metadata (field "event" ∷ []) r.event ≡ none
    → validate_initiative_graph_revision_request true s r allow ≡ snapshot g
    → replay_event host s (graph_event host s r r.graph)
      ≡ replayed (
          next s (graph_event host s r r.graph) (touch s.projection (graph_event host s r r.graph)))
unfolding change_event is_payload replay_payload
graph_event-replays host s r allow g known (id, safe) key metadata valid =
    let (request, again) = request_again host s r allow g valid in
    let e = graph_event host s r r.graph in
    admitted-replays host s e (replayed (next s e (touch s.projection e)))
      (change_event-admitted host s r.event (initiative_graph_revised r.expected_graph_version)
        (some r.graph) known (metadata, key, id, safe)
        (rw (
          change_stays host s r.event (initiative_graph_revised r.expected_graph_version)
              (some r.graph) known,
          counted s r request,
        )))
      (ap (λ x. accepted_with x s e (touch s.projection)) again
        ∙ accepted_with-next (some r.graph) s e (touch s.projection) refl)
