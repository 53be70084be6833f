-- ===== src/Workflow/Payloads.antt =====
-- The record of an event, before its place in the history is looked at (validateReplayEvent and the tests
-- that it calls, packages/core/src/workflow.ts). Typed events pass the tests of the shape of JSON values.
use say_hi.Prelude.{
  ℕ, leb, String, str_eq, Bool, true, false, not, ◌&&◌, ◌||◌, Option, none, some, List, [], ◌∷◌,
  all, ◌or_else◌, unless, is_blank, is_empty,
}
use say_hi.Records.{
  Phase, triage, explore, plan, implement, review, integrate, finish, Metadata, GateAcceptance,
  Evidence, is_safe, index,
}
use say_hi.Validation.{is_identifier, is_timestamp, is_contract_identity}
use say_hi.RepositoryPath.{is_repository_relative_path}
use say_hi.Workflow.Events.{
  Position, TaskDefinition, PlanMaterial, TrackerReference, Payload, task_created,
  workflow_transitioned, route_escalated, baseline_adopted, context_manifest_changed,
  build_plan_changed, initiative_graph_revised, phase_execution_dispatched,
  phase_execution_result_accepted, tracker_synchronized, Content, Host, event_invalid, Diagnostic,
}
use say_hi.Workflow.Routes.{positions_equal}
use say_hi.Workflow.Transition.{validate_event_metadata}
use say_hi.Workflow.Adoption.{are_adopted_paths}

unfoldable pub is_workflow_position : Position → Bool
is_workflow_position p = not (is_empty p.step)

abbrev pub has_reference : Evidence → Bool
has_reference e = not (is_empty e.reference)

unfoldable pub is_gate_acceptance : GateAcceptance → Bool
is_gate_acceptance a = all has_reference a.evidence

abbrev pub is_text : String → Bool
is_text s = not (is_blank s)

-- isStringArray
abbrev pub is_string_array : List String → Bool
is_string_array items = all is_text items

abbrev pub is_optional_identifier : Option String → Bool
is_optional_identifier none = true
is_optional_identifier (some id) = is_identifier id

unfoldable pub is_workflow_task_definition : TaskDefinition → Bool
is_workflow_task_definition task =
    is_identifier task.id
    && not (is_blank task.title)
    && is_optional_identifier task.parent_task_id
    && is_optional_identifier task.initiative_graph_id
    && (is_string_array task.intent.goals
        && is_string_array task.intent.non_goals
        && is_string_array task.intent.acceptance_criteria)
    && (is_string_array task.scope.files && all is_repository_relative_path task.scope.files)
    && is_string_array task.scope.apis
    && is_string_array task.scope.schemas
    && (is_string_array task.scope.locks && all is_repository_relative_path task.scope.locks)
    && is_repository_relative_path task.baseline_ref
    && all (λ c. is_repository_relative_path c.path) task.contexts
    && leb task.policies.max_repair_attempts 2

-- `context/${phase}.jsonl`
abbrev pub manifest_path_of : Phase → String
manifest_path_of triage = "context/triage.jsonl"
manifest_path_of explore = "context/explore.jsonl"
manifest_path_of plan = "context/plan.jsonl"
manifest_path_of implement = "context/implement.jsonl"
manifest_path_of review = "context/review.jsonl"
manifest_path_of integrate = "context/integrate.jsonl"
manifest_path_of finish = "context/finish.jsonl"

-- isCredentialFreeAbsoluteUri (packages/core/src/tracker-utils.ts).
unfoldable pub is_credential_free_absolute_uri : Host → String → Bool
is_credential_free_absolute_uri host s = elim (host.new_url s) [
  | none ↦ false
  | some uri ↦
      (str_eq uri.protocol "http:" || str_eq uri.protocol "https:")
      && is_empty uri.username
      && is_empty uri.password
      && is_empty uri.search
      && is_empty uri.hash
]

abbrev pub is_optional_text : Option String → Bool
is_optional_text none = true
is_optional_text (some s) = not (is_empty s)

unfoldable pub is_tracker_reference : Host → TrackerReference → Bool
is_tracker_reference host r =
    is_identifier r.id
    && not (is_empty r.adapter)
    && is_credential_free_absolute_uri host r.uri
    && not (is_empty r.external_id)
    && not (is_empty r.observed_version)
    && is_optional_text r.observed_state
    && not (is_empty r.role)
    && is_contract_identity r.identity
    && is_timestamp r.last_observed_at

-- What the payload tests ask of `from`.
abbrev pub stays : Option Position → Position → Bool
stays none to = false
stays (some from) to = is_workflow_position from && positions_equal from to

abbrev pub starts : Option Position → Bool
starts none = false
starts (some from) = is_workflow_position from

abbrev pub is_absent : Option Position → Bool
is_absent none = true
is_absent (some from) = false

abbrev pub is_plan_material : PlanMaterial → Bool
is_plan_material m =
    is_contract_identity m.plan_identity
    && is_contract_identity m.requirements_identity
    && str_eq m.context_manifest_path "context/implement.jsonl"
    && is_contract_identity m.context_manifest_identity

abbrev pub is_given {ℓ} : {A : Type ℓ} → Option A → Bool
is_given none = false
is_given (some a) = true

-- The test that the type of an event selects.
unfoldable pub is_payload : Host → Content → Payload → Bool
is_payload host e (task_created task) = is_absent e.from && is_workflow_task_definition task
is_payload host e workflow_transitioned = starts e.from
is_payload host e route_escalated = starts e.from
is_payload host e (baseline_adopted identity adopted) =
    stays e.from e.to && is_contract_identity identity && are_adopted_paths [] adopted
is_payload host e (context_manifest_changed phase path identity change) =
    stays e.from e.to && str_eq path (manifest_path_of phase) && is_contract_identity identity
is_payload host e (build_plan_changed change material) =
    stays e.from e.to && is_plan_material material
is_payload host e (initiative_graph_revised n) =
    stays e.from e.to && (is_safe n && leb 1 n) && is_given e.initiative_graph
is_payload host e (phase_execution_dispatched identity binding) =
    stays e.from e.to && is_contract_identity identity
is_payload host e (phase_execution_result_accepted result) = stays e.from e.to
is_payload host e (tracker_synchronized change reference) =
    stays e.from e.to && is_tracker_reference host reference

-- The fields of an event that its metadata had in the request.
abbrev pub metadata_of : Content → Metadata
metadata_of e = record {
  event_id = e.event_id;
  actor = e.actor;
  reason = e.reason;
  idempotency_key = e.idempotency_key;
  occurred_at = e.occurred_at;
}

abbrev pub event_failure : ℕ → Diagnostic
event_failure i = record { code = event_invalid; path = index i ∷ [] }

-- The fields that every event has.
unfoldable pub is_event_record : Content → Bool
is_event_record e =
    is_identifier e.task_id
    && (is_safe e.sequence && leb 1 e.sequence)
    && is_workflow_position e.to
    && all is_gate_acceptance e.gates
    && is_string_array e.blockers

unfoldable pub validate_replay_event : Host → Content → ℕ → Option Diagnostic
validate_replay_event host e i =
    unless (is_event_record e) (event_failure i)
    or_else unless (is_payload host e e.payload) (event_failure i)
    or_else validate_event_metadata (index i ∷ []) (metadata_of e)
