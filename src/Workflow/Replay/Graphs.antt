-- ===== src/Workflow/Replay/Graphs.antt =====
-- A revision of the graph of an Initiative, of a state that its history replays to, leaves such a state
-- (packages/core/src/workflow.ts).
use say_hi.Prelude.{
  ◌≡◌, refl, sym, ap, ◌∙◌, ◌⊎◌, subst, inl, inr, Bool, true, false, none, some, [], ◌∷◌, find,
  arith,
}
use say_hi.Records.{DependencyGraph, field}
use say_hi.Workflow.Events.{WorkflowEvent, State, Host}
use say_hi.Workflow.Guards.{Snapshot, snapshot, no_graph, refused}
use say_hi.Workflow.Transition.{ok, has_key, validate_event_metadata}
use say_hi.Workflow.Changes.{touch, looks_back, appended, retry_or}
use say_hi.Workflow.Changes.Requests.{GraphRequest}
use say_hi.Workflow.Changes.Graph.{
  validate_revision, validate_initiative_graph_revision_request,
  matches_initiative_graph_revision_intent, graph_event, with_graph, revise_initiative_graph,
}
use say_hi.Workflow.Changes.Accepted.{unless_refused-ok, retry_or-ok}
use say_hi.Workflow.Replay.{state_matches_accepted_history}
use say_hi.Workflow.Replay.Appends.{IsReplayed}
use say_hi.Workflow.Replay.Grows.{IsReplayed-IsRecorded, appended-IsReplayed, on_consistent}
use say_hi.Workflow.Replay.Changed.{IsNumbered}
use say_hi.Workflow.Replay.Snapshots.{revision_graph}
use say_hi.Workflow.Replay.Revised.{request_again, graph_event-replays}

with_graph-ok :
    (host : Host) (s : State) (r : GraphRequest) (v : Snapshot) (s2 : State) (e : WorkflowEvent)
    → with_graph host s r v ≡ ok s2 e
    → (g : DependencyGraph) × (v ≡ snapshot g)
      × (appended s (graph_event host s r g) (touch s.projection (graph_event host s r g))
          ≡ ok s2 e)
with_graph-ok host s r no_graph s2 e h = cc
with_graph-ok host s r (refused d) s2 e h = cc
with_graph-ok host s r (snapshot g) s2 e h = (g, refl, h)

graph_looks :
    (s : State) (r : GraphRequest)
    → validate_revision true s r ≡ none
    → looks_back true s r.contract_version r.task_id ≡ true
unfolding validate_revision
graph_looks s r h = ground arith

revision-IsReplayed :
    (host : Host) (s : State) (r : GraphRequest) (allow : Bool) (s2 : State) (e : WorkflowEvent)
    → IsReplayed host s
    → IsNumbered s r.event
    → validate_event_metadata (field "event" ∷ []) r.event ≡ none
    → (looks_back true s r.contract_version r.task_id ≡ false)
      ⊎ (find (has_key r.event.idempotency_key) s.events ≡ none)
    → with_graph host s r (validate_initiative_graph_revision_request true s r allow) ≡ ok s2 e
    → IsReplayed host s2
revision-IsReplayed host s r allow s2 e known numbered metadata fresh h =
    let (g, is, made) =
      with_graph-ok host s r (validate_initiative_graph_revision_request true s r allow) s2 e h in
    let own : some g ≡ some r.graph = revision_graph true s r allow (some g) is in
    let event = graph_event host s r r.graph in
    let same : appended s event (touch s.projection event) ≡ ok s2 e =
      sym (
        ap (λ x. appended s (graph_event host s r x) (touch s.projection (graph_event host s r x)))
          (ground arith))
      ∙ made in
    elim fresh [
      | inl blind ↦ ground (arith, blind, graph_looks s r (request_again host s r allow g is).0)
      | inr new ↦
          appended-IsReplayed host s event (touch s.projection event) s2 e known
            (graph_event-replays host s r allow g (IsReplayed-IsRecorded host s known) numbered new
              metadata is)
            same
    ]

pub revise_initiative_graph-IsReplayed :
    (host : Host) (s : State) (r : GraphRequest) (allow : Bool) (s2 : State) (e : WorkflowEvent)
    → IsReplayed host s
    → IsNumbered s r.event
    → revise_initiative_graph host (state_matches_accepted_history host s) s r allow ≡ ok s2 e
    → IsReplayed host s2
unfolding revise_initiative_graph
revise_initiative_graph-IsReplayed host s r allow s2 e known numbered h =
    let found = find (has_key r.event.idempotency_key) s.events in
    let revision =
      with_graph host s r (validate_initiative_graph_revision_request true s r allow) in
    let outcome =
      on_consistent host s (λ c. revise_initiative_graph host c s r allow) (ok s2 e) known h in
    let (metadata, rest) =
      unless_refused-ok (validate_event_metadata (field "event" ∷ []) r.event) s
        (retry_or (looks_back true s r.contract_version r.task_id) found
          (matches_initiative_graph_revision_intent r) s revision)
        s2 e outcome in
    elim (retry_or-ok (looks_back true s r.contract_version r.task_id) found
      (matches_initiative_graph_revision_intent r) s revision s2 e rest) [
        | inl same ↦ subst (IsReplayed host) (sym same) known
        | inr (fresh, made) ↦
            revision-IsReplayed host s r allow s2 e known numbered metadata fresh made
      ]
