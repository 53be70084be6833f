-- ===== src/Workflow/Replay/Sound.antt =====
-- What holds of a history that replays (replayWorkflowEvents of packages/core/src/workflow.ts).
use say_hi.Prelude.{
  ◌≤◌, ◌≡◌, refl, sym, ap, ◌∙◌, subst, inl, inr, ◌==◌, true, false, not, Option, none, some, List,
  [], ◌∷◌, ◌++◌, all, length, ◌or_else◌, unless, unless-passes, is_empty, arith,
}
use mathlib.Core.List.{append-nil, append_assoc}
use say_hi.Records.{active, blocked, eq_lifecycle, strings_discrete}
use say_hi.Records.Equality.{eq_lifecycle-true}
use say_hi.Validation.{is_identifier}
use say_hi.Workflow.Events.{
  Payload, task_created, workflow_transitioned, route_escalated, baseline_adopted,
  context_manifest_changed, build_plan_changed, initiative_graph_revised,
  phase_execution_dispatched, phase_execution_result_accepted, tracker_synchronized, TaskDefinition,
  Content, WorkflowEvent, State, Host, Diagnostic,
}
use say_hi.Workflow.History.{is_transition, count_repair_attempts}
use say_hi.Workflow.Transition.{decided}
use say_hi.Workflow.Transition.Chain.{
  Chain, Chain-append, length-append, count_repair_attempts-append,
}
use say_hi.Workflow.Transition.Sound.{IsSound}
use say_hi.Workflow.Start.{StartRequest, validate_start_request, project_created_event}
use say_hi.Workflow.Payloads.{is_text, is_workflow_position, event_failure}
use say_hi.Workflow.Replay.Envelope.{creates, start_request, is_valid_creation_event}
use say_hi.Workflow.Replay.{
  replayed, replay_failure, Replayed, admission_failure, replay_admitted, replay_event, created_by,
  replay_first, replay_rest, replay_workflow_events,
}
use say_hi.Workflow.Replay.Admitted.{
  Distinct, Distinct-append, key_of, id_of, IsAdmitted, admission_failure-IsAdmitted,
}
use say_hi.Workflow.Replay.Accepts.{Extends, replay_event-Extends}

-- A state that a replay yields: it is sound; no idempotency key and no event id is used twice; the Task's
-- identifier is well formed, its step is not empty, its blockers are not blank, and its policy allows at
-- most two repairs.
abbrev pub IsRecorded : Host → State → Type 0
IsRecorded host s =
    IsSound host s
    × Distinct key_of s.events
    × Distinct id_of s.events
    × (is_identifier s.projection.task.id ≡ true)
    × (is_empty s.projection.step ≡ false)
    × (all is_text s.projection.blockers ≡ true)
    × (s.projection.task.policies.max_repair_attempts ≤ 2)

Extends-IsRecorded :
    (host : Host) (s : State) (e : WorkflowEvent) (s2 : State)
    → IsRecorded host s
    → IsAdmitted host s.events e
    → Extends s e s2
    → IsRecorded host s2
unfolding is_workflow_position
Extends-IsRecorded host s e s2
      ((chain, version, repairs, fit), keys, ids, identifier, step, texts, limit)
      (new_key, new_id, sequence, previous, digest, position, blockers)
      (events, (at_version, same_id, policies, at_step, at_blockers, fits, repaired)) =
    (
      (
        subst (Chain host none 0) (sym events)
            (Chain-append host s.events e chain sequence previous digest),
        at_version ∙ sequence ∙ sym (length-append s.events e) ∙ ap length (sym events),
        ground (
          arith,
          repaired repairs,
          count_repair_attempts-append s.events e,
          ap count_repair_attempts events,
        ),
        fits fit,
      ),
      subst (Distinct key_of) (sym events) (Distinct-append key_of s.events e keys new_key),
      subst (Distinct id_of) (sym events) (Distinct-append id_of s.events e ids new_id),
      ap is_identifier same_id ∙ identifier,
      elim at_step [ inl q ↦ ap is_empty q ∙ step | inr q ↦ ground (arith, ap is_empty q) ],
      elim at_blockers [
        | inl q ↦ ap (all is_text) q ∙ texts
        | inr q ↦ ap (all is_text) q ∙ blockers
      ],
      ground (arith, limit, ap (λ x. x.max_repair_attempts) policies),
    )

creation_creates : (e : Content) → is_valid_creation_event e ≡ true → creates e e.payload ≡ true
unfolding is_valid_creation_event
creation_creates e h = ground arith

creation_starts :
    (e : Content) (task : TaskDefinition)
    → is_valid_creation_event e ≡ true
    → e.payload ≡ task_created task
    → validate_start_request (start_request e task) ≡ none
creation_starts e task h is =
    let created : creates e (task_created task) ≡ true =
      ap (creates e) (sym is) ∙ creation_creates e h in
    ground arith

start_identifier :
    (r : StartRequest) → validate_start_request r ≡ none → is_identifier r.task.id ≡ true
unfolding validate_start_request
start_identifier r h = ground arith

start_limit :
    (r : StartRequest) → validate_start_request r ≡ none → r.task.policies.max_repair_attempts ≤ 2
unfolding validate_start_request
start_limit r h = ground arith

pub decided-true {ℓ} : {A : Type ℓ} (d : Dec A) → decided d ≡ true → A
decided-true (yes a) h = a
decided-true (no f) h = cc

created-Fit :
    (e : Content)
    → is_valid_creation_event e ≡ true
    → (length e.blockers == 0) ≡ not (eq_lifecycle e.to.lifecycle blocked)
unfolding is_valid_creation_event
created-Fit e h =
    let here : e.to.lifecycle ≡ active = eq_lifecycle-true e.to.lifecycle active (ground arith) in
    let empty : e.blockers ≡ [] = decided-true (strings_discrete e.blockers []) (ground arith) in
    ap (λ xs. length xs == 0) empty ∙ sym (ap (λ l. not (eq_lifecycle l blocked)) here)

created-IsRecorded :
    (host : Host) (e : WorkflowEvent) (task : TaskDefinition)
    → IsAdmitted host [] e
    → is_valid_creation_event e.content ≡ true
    → e.content.payload ≡ task_created task
    → IsRecorded host (record { events = e ∷ []; projection = project_created_event task e })
unfolding project_created_event is_workflow_position count_repair_attempts
created-IsRecorded host e task (k, i, sequence, previous, digest, position, blockers) valid is = (
  (
    ((sequence, previous, digest), tt),
    sequence,
    ground (arith, ap is_transition is),
    created-Fit e.content valid,
  ),
  (tt, tt),
  (tt, tt),
  start_identifier (start_request e.content task) (creation_starts e.content task valid is),
  ground arith,
  blockers,
  start_limit (start_request e.content task) (creation_starts e.content task valid is),
)

-- What a replay yields is such a state, with the events that are replayed.
abbrev pub Yields : Host → List WorkflowEvent → Replayed → Type 0
Yields host events (replay_failure d) = Unit
Yields host events (replayed s) = (s.events ≡ events) × IsRecorded host s

created_by-Yields :
    (host : Host) (e : WorkflowEvent) (payload : Payload)
    → IsAdmitted host [] e
    → is_valid_creation_event e.content ≡ true
    → e.content.payload ≡ payload
    → Yields host (e ∷ []) (created_by e payload)
created_by-Yields host e (task_created task) admitted valid is =
    (refl, created-IsRecorded host e task admitted valid is)
created_by-Yields host e workflow_transitioned admitted valid is = tt
created_by-Yields host e route_escalated admitted valid is = tt
created_by-Yields host e (baseline_adopted a b) admitted valid is = tt
created_by-Yields host e (context_manifest_changed a b c d) admitted valid is = tt
created_by-Yields host e (build_plan_changed a b) admitted valid is = tt
created_by-Yields host e (initiative_graph_revised a) admitted valid is = tt
created_by-Yields host e (phase_execution_dispatched a b) admitted valid is = tt
created_by-Yields host e (phase_execution_result_accepted a) admitted valid is = tt
created_by-Yields host e (tracker_synchronized a b) admitted valid is = tt

first-Yields :
    (host : Host) (e : WorkflowEvent) (o v : Option Diagnostic)
    → admission_failure host [] e ≡ o
    → unless (is_valid_creation_event e.content) (event_failure 0) ≡ v
    → Yields host (e ∷ []) (replay_admitted (o or_else v) (created_by e e.content.payload))
first-Yields host e (some d) v p q = tt
first-Yields host e none (some d) p q = tt
first-Yields host e none none p q =
    created_by-Yields host e e.content.payload (admission_failure-IsAdmitted host [] e p)
      (unless-passes (is_valid_creation_event e.content) (event_failure 0) q) refl

replay_first-Yields : (host : Host) (e : WorkflowEvent) → Yields host (e ∷ []) (replay_first host e)
unfolding replay_first
replay_first-Yields host e =
    first-Yields host e (admission_failure host [] e)
      (unless (is_valid_creation_event e.content) (event_failure 0)) refl refl

event-Yields :
    (host : Host) (events : List WorkflowEvent) (s : State) (e : WorkflowEvent) (r : Replayed)
    → replay_event host s e ≡ r
    → Yields host events (replayed s)
    → Yields host (events ++ e ∷ []) r
event-Yields host events s e (replay_failure d) h y = tt
event-Yields host events s e (replayed s2) h (same, recorded) =
    let (passes, extends) = replay_event-Extends host s e s2 h in
    (
      extends.0 ∙ ap (λ xs. xs ++ e ∷ []) same,
      Extends-IsRecorded host s e s2 recorded (admission_failure-IsAdmitted host s.events e passes)
          extends,
    )

rest-Yields :
    (host : Host) (before : List WorkflowEvent) (r : Replayed) (events : List WorkflowEvent)
    → Yields host before r
    → Yields host (before ++ events) (replay_rest host r events)
unfolding replay_rest
rest-Yields host before r [] y = subst (λ xs. Yields host xs r) (sym (append-nil before)) y
rest-Yields host before (replay_failure d) (e ∷ events) y = tt
rest-Yields host before (replayed s) (e ∷ events) y =
    subst (λ xs. Yields host xs (replay_rest host (replay_event host s e) events))
      (append_assoc before (e ∷ []) events)
      (rest-Yields host (before ++ e ∷ []) (replay_event host s e) events
        (event-Yields host before s e (replay_event host s e) refl y))

-- A history that replays yields a state with just its events: they form a chain of digests from sequence 1
-- on, no idempotency key and no event id occurs in two of them, the version is their number, the repairs
-- are within the policy, which allows at most two, the Task has blockers exactly when it is blocked, its
-- identifier is well formed, its step is not empty and no blocker is blank.
pub replay_workflow_events-IsRecorded :
    (host : Host) (events : List WorkflowEvent) (s : State)
    → replay_workflow_events host events ≡ replayed s
    → (s.events ≡ events) × IsRecorded host s
unfolding replay_workflow_events
replay_workflow_events-IsRecorded host [] s h = cc
replay_workflow_events-IsRecorded host (e ∷ events) s h =
    subst (Yields host (e ∷ events)) h
      (rest-Yields host (e ∷ []) (replay_first host e) events (replay_first-Yields host e))
