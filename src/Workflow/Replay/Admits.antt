-- ===== src/Workflow/Replay/Admits.antt =====
-- When the replay admits an event that an operation signs (packages/core/src/workflow.ts).
use say_hi.Prelude.{
  ◌≡◌, refl, ap, ◌∙◌, inl, inr, ◌+◌, ◌==◌, leb, String, str_eq, true, false, Option, none, some,
  List, [], ◌∷◌, any, all, find, length, Bool-cases, arith,
}
use say_hi.Records.{Metadata, field, is_safe, index, JsonPath}
use say_hi.Validation.{is_identifier}
use say_hi.Workflow.Events.{Content, WorkflowEvent, State, Host}
use say_hi.Workflow.Transition.{signed, tail_digest, has_key, validate_event_metadata}
use say_hi.Workflow.Transition.Retry.{str_eq_refl}
use say_hi.Workflow.Payloads.{
  is_text, is_workflow_position, is_event_record, is_gate_acceptance, is_payload, metadata_of,
  validate_replay_event,
}
use say_hi.Workflow.Replay.{has_event_key, has_event_id, same_digest, admission_failure}
use say_hi.Workflow.Replay.Sound.{IsRecorded}

same_digest_refl : (o : Option String) → same_digest o o ≡ true
same_digest_refl none = refl
same_digest_refl (some d) = str_eq_refl d

pub metadata_at :
    (p q : JsonPath) (m : Metadata)
    → validate_event_metadata p m ≡ none
    → validate_event_metadata q m ≡ none
unfolding validate_event_metadata
metadata_at p q m h = ground arith

no_key :
    (key : String) (events : List WorkflowEvent)
    → find (has_key key) events ≡ none
    → any (has_event_key key) events ≡ false
no_key key [] h = refl
no_key key (e ∷ events) h = elim (Bool-cases (str_eq e.content.idempotency_key key)) [
  | inl hit ↦ ground (arith, hit)
  | inr miss ↦ ground (arith, miss, no_key key events (ground (arith, miss)))
]

-- What is asked of the request of an event: its metadata is well formed, its key and its event id are
-- new, and the version after it is a safe integer.
abbrev pub IsFresh : State → Metadata → Type 0
IsFresh s m =
    (validate_event_metadata (field "event" ∷ []) m ≡ none)
    × (find (has_key m.idempotency_key) s.events ≡ none)
    × (any (has_event_id m.event_id) s.events ≡ false)
    × (is_safe (s.projection.version + 1) ≡ true)

-- What is asked of the content of the event.
abbrev pub IsNext : Host → State → Content → Type 0
IsNext host s e =
    (e.task_id ≡ s.projection.task.id)
    × (e.sequence ≡ s.projection.version + 1)
    × (e.previous_chain_digest ≡ tail_digest s.events)
    × (is_workflow_position e.to ≡ true)
    × (all is_gate_acceptance e.gates ≡ true)
    × (all is_text e.blockers ≡ true)
    × (is_payload host e e.payload ≡ true)

event_record :
    (host : Host) (s : State) (e : Content)
    → IsRecorded host s
    → IsFresh s (metadata_of e)
    → IsNext host s e
    → is_event_record e ≡ true
unfolding is_event_record
event_record host s e (sound, keys, ids, identifier, step, texts, limit) (metadata, key, id, safe)
      (task, sequence, previous, position, gates, blockers, payload) =
    let named : is_identifier e.task_id ≡ true = ap is_identifier task ∙ identifier in
    let counted : is_safe e.sequence ≡ true = ap is_safe sequence ∙ safe in
    let from_one : leb 1 e.sequence ≡ true = ground (arith, sequence) in
    cc (named, counted, from_one, position, gates, blockers)

-- An event with such a request and content is admitted.
pub signed-admitted :
    (host : Host) (s : State) (e : Content)
    → IsRecorded host s
    → IsFresh s (metadata_of e)
    → IsNext host s e
    → admission_failure host s.events (signed host e) ≡ none
unfolding admission_failure validate_replay_event
signed-admitted host s e recorded fresh next =
    let record_test = event_record host s e recorded fresh next in
    let ((chain, version, repairs, fit), keys, ids, identifier, step, texts, limit) = recorded in
    let (metadata, key, id, safe) = fresh in
    let (task, sequence, previous, position, gates, blockers, payload) = next in
    let metadata_test =
      metadata_at (field "event" ∷ []) (index (length s.events) ∷ []) (metadata_of e) metadata in
    let new_key = no_key e.idempotency_key s.events key in
    let sequence_test : (e.sequence == length s.events + 1) ≡ true =
      ground (arith, sequence, version) in
    let previous_test : same_digest e.previous_chain_digest (tail_digest s.events) ≡ true =
      ap (λ o. same_digest o (tail_digest s.events)) previous
      ∙ same_digest_refl (tail_digest s.events) in
    rw (
      record_test,
      payload,
      metadata_test,
      new_key,
      id,
      sequence_test,
      previous_test,
      str_eq_refl (host.event_digest e),
    )
