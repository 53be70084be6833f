-- ===== src/Workflow/Changes/Plan.antt =====
-- recordContextManifestChange and recordBuildPlanChange (packages/core/src/workflow.ts).
use say_hi.Prelude.{
  ℕ, ◌==◌, String, str_eq, codes, Bool, true, false, not, ◌&&◌, ◌||◌, Option, none, some, List, [],
  ◌∷◌, find, ◌or_else◌, unless, if◌then◌else◌,
}
use say_hi.Records.{
  Phase, plan, build, active, user, field, eq_route, eq_phase, eq_lifecycle, eq_actor_kind,
}
use say_hi.Validation.{is_contract_identity}
use say_hi.Workflow.Events.{
  Context, Projection, PlanChange, recorded, rejected, PlanMaterial, ContextChange, added,
  refreshed, removed, frozen, context_manifest_changed, build_plan_changed, Content, WorkflowEvent,
  State, Host, request_invalid, transition_illegal, Diagnostic,
}
use say_hi.Workflow.History.{newest_first, current_build_plan_change, has_frozen_implement_context}
use say_hi.Workflow.Guards.{at, is_recorded}
use say_hi.Workflow.Payloads.{manifest_path_of}
use say_hi.Workflow.Transition.{validate_event_metadata, Result, has_key}
use say_hi.Workflow.Changes.{
  change_event, touch, matches_request, looks_back, appended, unless_refused, retry_or,
}
use say_hi.Workflow.Changes.Requests.{ContextRequest, PlanRequest, validate_current}

-- validateContextManifestChangeRequest
unfoldable pub validate_context_manifest_change_request :
    Bool → State → ContextRequest → Option Diagnostic
validate_context_manifest_change_request is_consistent state r =
    validate_current is_consistent state r.contract_version r.task_id r.expected_version
    or_else unless (str_eq r.manifest_path (manifest_path_of r.phase))
        (at request_invalid "manifestPath")
    or_else unless (is_contract_identity r.manifest_identity)
        (at request_invalid "manifestIdentity")
    or_else validate_event_metadata (field "event" ∷ []) r.event

abbrev context_change_index : ContextChange → ℕ
context_change_index added = 0
context_change_index refreshed = 1
context_change_index removed = 2
context_change_index frozen = 3

unfoldable pub matches_context_manifest_change_intent : ContextRequest → Content → Bool
matches_context_manifest_change_intent r e = elim e.payload [
  | context_manifest_changed phase path identity change ↦
      matches_request e r.task_id r.expected_version r.event
      && eq_phase phase r.phase
      && str_eq path r.manifest_path
      && str_eq identity r.manifest_identity
      && context_change_index change == context_change_index r.change
  | _ ↦ false
]

-- `{ ...contexts, [phase]: path }`
unfoldable pub set_context : Phase → String → List Context → List Context
set_context phase path [] = record { phase = phase; path = path } ∷ []
set_context phase path (c ∷ contexts) =
    let rest = set_context phase path contexts in
    if eq_phase c.phase phase then record { phase = phase; path = path } ∷ contexts else c ∷ rest

unfoldable pub project_context_manifest_changed_event :
    Projection → WorkflowEvent → Phase → String → Projection
project_context_manifest_changed_event p e phase path = record (touch p e) {
  task = record p.task { contexts = set_context phase path p.task.contexts };
}

abbrev pub context_event : Host → State → ContextRequest → WorkflowEvent
context_event host state r =
    change_event host state r.event
      (context_manifest_changed r.phase r.manifest_path r.manifest_identity r.change) none

unfoldable pub record_context_manifest_change : Host → Bool → State → ContextRequest → Result
record_context_manifest_change host c state r =
    retry_or (looks_back c state r.contract_version r.task_id)
      (find (has_key r.event.idempotency_key) state.events)
      (matches_context_manifest_change_intent r) state
      (unless_refused (validate_context_manifest_change_request c state r) state (
        appended state (context_event host state r) (
          project_context_manifest_changed_event state.projection (context_event host state r)
            r.phase r.manifest_path)))

-- matchesBuildPlanMaterial
abbrev pub same_material : PlanMaterial → PlanMaterial → Bool
same_material a b =
    str_eq a.plan_identity b.plan_identity
    && str_eq a.requirements_identity b.requirements_identity
    && str_eq a.context_manifest_path b.context_manifest_path
    && str_eq a.context_manifest_identity b.context_manifest_identity

abbrev latest_change_from : PlanMaterial → List WorkflowEvent → Option PlanChange
latest_change_from material [] = none
latest_change_from material (e ∷ older) =
    let rest = latest_change_from material older in
    elim e.content.payload [
      | build_plan_changed change m ↦ if same_material m material then some change else rest
      | _ ↦ rest
    ]

-- latestBuildPlanChange, whose `change` is all that is read.
unfoldable pub latest_build_plan_change : List WorkflowEvent → PlanMaterial → Option PlanChange
latest_build_plan_change events material = latest_change_from material (newest_first events [])

abbrev pub rejects_recorded : Option (PlanChange × PlanMaterial) → PlanMaterial → Bool
rejects_recorded none material = false
rejects_recorded (some current) material = same_material current.1 material && is_recorded current.0

abbrev pub was_rejected : Option PlanChange → Bool
was_rejected (some rejected) = true
was_rejected _ = false

-- A rejection is of the current Plan, which is recorded; material that was rejected is not recorded again.
unfoldable pub follows : List WorkflowEvent → PlanChange → PlanMaterial → Option Diagnostic
follows events rejected material =
    unless (rejects_recorded (current_build_plan_change events) material)
      (at transition_illegal "change")
follows events recorded material =
    unless (not (was_rejected (latest_build_plan_change events material)))
      (at transition_illegal "planIdentity")

abbrev pub in_active_plan : Projection → Bool
in_active_plan p =
    eq_route p.task.route build && eq_lifecycle p.lifecycle active && eq_phase p.phase plan

-- validateBuildPlanChangeRequest
unfoldable pub validate_build_plan_change_request :
    Host → Bool → State → PlanRequest → Option Diagnostic
unfolding codes
validate_build_plan_change_request host is_consistent state r =
    validate_current is_consistent state r.contract_version r.task_id r.expected_version
    or_else unless (in_active_plan state.projection) (at transition_illegal "state")
    or_else unless
        (is_contract_identity r.material.plan_identity
          && is_contract_identity r.material.requirements_identity
          && is_contract_identity r.material.context_manifest_identity)
        (at request_invalid "planIdentity")
    or_else unless (str_eq r.material.context_manifest_path "context/implement.jsonl")
        (at request_invalid "contextManifestPath")
    or_else unless
        (str_eq r.material.requirements_identity
          (host.intent_identity state.projection.task.intent))
        (at request_invalid "requirementsIdentity")
    or_else unless
        (has_frozen_implement_context state.events (codes r.material.context_manifest_identity))
        (at request_invalid "contextManifestIdentity")
    or_else unless (is_recorded r.change || eq_actor_kind r.event.actor.kind user) (record {
      code = request_invalid;
      path = field "event" ∷ field "actor" ∷ field "kind" ∷ [];
    })
    or_else follows state.events r.change r.material
    or_else validate_event_metadata (field "event" ∷ []) r.event

abbrev pub same_plan_change : PlanChange → PlanChange → Bool
same_plan_change recorded recorded = true
same_plan_change rejected rejected = true
same_plan_change _ _ = false

unfoldable pub matches_build_plan_change_intent : PlanRequest → Content → Bool
matches_build_plan_change_intent r e = elim e.payload [
  | build_plan_changed change material ↦
      matches_request e r.task_id r.expected_version r.event
      && same_plan_change change r.change
      && same_material material r.material
  | _ ↦ false
]

abbrev pub plan_event : Host → State → PlanRequest → WorkflowEvent
plan_event host state r =
    change_event host state r.event (build_plan_changed r.change r.material) none

-- The metadata is tested before the retry, and once more at the end of the request's tests.
unfoldable pub record_build_plan_change : Host → Bool → State → PlanRequest → Result
record_build_plan_change host c state r =
    unless_refused (validate_event_metadata (field "event" ∷ []) r.event) state (
      retry_or (looks_back c state r.contract_version r.task_id)
        (find (has_key r.event.idempotency_key) state.events) (matches_build_plan_change_intent r)
        state
        (unless_refused (validate_build_plan_change_request host c state r) state (
          appended state (plan_event host state r)
            (touch state.projection (plan_event host state r)))))
