-- ===== src/Workflow/Start/Tests.antt =====
-- A concrete Task that is started and moved once.
use say_hi.Prelude.{
  ◌⊎◌, arith, ◌≡◌, refl, true, String, codes, is_blank, is_empty, none, some, [], ◌∷◌,
}
use say_hi.Records.{
  quick, eq_route, eq_lifecycle, build, explore, active, human_approval, to_route, GateAcceptance,
  user, Metadata,
}
use say_hi.Validation.{is_contract_identity, is_identifier, is_timestamp}
use say_hi.RepositoryPath.{is_repository_relative_path}
use say_hi.Workflow.Events.{never, TransitionRequest, Host, State}
use say_hi.Workflow.Routes.{find_transition, position_of}
use say_hi.Workflow.Gates.{
  declared_once, accepted, required_met, declared_expected, validate_gates, validate_route_gate,
}
use say_hi.Workflow.History.{count_repair_attempts}
use say_hi.Workflow.Guards.{
  validate_build_plan_implementation_transition, validate_build_implementation_result_transition,
  validate_build_review_result_transition, validate_transition_invariants,
  validate_initiative_graph_transition,
}
use say_hi.Workflow.Transition.{
  is_workflow_actor, validate_event_metadata, validate_transition_request, guard_failure,
  admit_transition, transition_event, ok, after, transition_workflow,
}
use say_hi.Workflow.Transition.Sound.{IsSound}
use say_hi.Workflow.Escalation.{
  EscalationRequest, validate_quick_escalation_request, escalation_event, escalated,
  escalate_quick_to_build,
}
use say_hi.Workflow.Escalation.Sound.{escalate_quick_to_build-IsSound}
use say_hi.DependencyGraph.Cycle.{contains}
use say_hi.Workflow.Adoption.{
  AdoptionRequest, are_adopted_paths, validate_baseline_adoption_request, adoption_event,
  adopted_state, adopt_workflow_baseline,
}
use say_hi.Workflow.Adoption.Sound.{adopt_workflow_baseline-IsSound}
use say_hi.Workflow.Start.{
  StartRequest, started, created_event, project_created_event, validate_scope_paths,
  validate_context_paths, validate_task_paths, validate_start_request, first_state,
  start_workflow_task,
}
use say_hi.Workflow.Start.Sound.{
  Lives, begun, moved, Lives-IsSound, IsConfirmed, start_workflow_task-IsConfirmed,
}

abbrev pub host : Host
host = record {
  intent_identity = λ intent. "intent";
  event_digest = λ c. c.event_id;
  new_url = λ s. none;
}

abbrev pub approval : GateAcceptance
approval = record {
  gate = to_route;
  evidence = record { kind = human_approval; reference = "approval" } ∷ [];
}

abbrev pub metadata : String → Metadata
metadata id = record {
  event_id = id;
  actor = record { kind = user; id = "user"; session_ref = "session" };
  reason = "reason";
  idempotency_key = id;
  occurred_at = "2026-01-01T00:00:00Z";
}

abbrev pub new_build : StartRequest
new_build = record {
  contract_version = 1;
  task = record {
    id = "task";
    title = "Title";
    route = build;
    parent_task_id = none;
    initiative_graph_id = none;
    intent = record { goals = "goal" ∷ []; non_goals = []; acceptance_criteria = "works" ∷ [] };
    scope = record { files = "src/a.ts" ∷ []; apis = []; schemas = []; locks = [] };
    baseline_ref = "baseline.json";
    contexts = [];
    policies = record { commit = never; max_repair_attempts = 1 };
  };
  route_gate = some approval;
  event = metadata "e1";
}

pub new_build-started :
    start_workflow_task host new_build
    ≡ started (first_state host new_build) (created_event host new_build)
unfolding start_workflow_task validate_start_request is_identifier is_empty is_blank codes
    validate_task_paths validate_scope_paths validate_context_paths is_repository_relative_path
    validate_route_gate validate_gates declared_once accepted required_met declared_expected
    validate_event_metadata is_workflow_actor is_timestamp
new_build-started = refl

start_workflow_task-IsConfirmed_example :
    (gate : GateAcceptance) × ((created_event host new_build).content.gates ≡ gate ∷ [])
    × IsConfirmed build gate
start_workflow_task-IsConfirmed_example =
    start_workflow_task-IsConfirmed host new_build (first_state host new_build)
      (created_event host new_build) new_build-started

abbrev pub to_explore_request : TransitionRequest
to_explore_request = record {
  contract_version = 1;
  task_id = "task";
  expected_version = 1;
  to = record { lifecycle = active; phase = explore; step = "ready" };
  gates = approval ∷ [];
  blockers = none;
  initiative_graph = none;
  event = metadata "e2";
}

abbrev pub exploring : State
exploring = after host (first_state host new_build) to_explore_request none

exploring-Lives : Lives host exploring
unfolding transition_workflow validate_transition_request is_identifier is_empty is_blank codes
    validate_gates declared_once accepted required_met declared_expected validate_event_metadata
    is_workflow_actor is_timestamp admit_transition find_transition guard_failure
    validate_build_plan_implementation_transition validate_build_implementation_result_transition
    validate_build_review_result_transition validate_transition_invariants
    validate_initiative_graph_transition created_event project_created_event
exploring-Lives =
    moved true to_explore_request exploring
      (transition_event host (first_state host new_build) to_explore_request none)
      (begun new_build (first_state host new_build) (created_event host new_build)
        new_build-started)
      refl

Lives-IsSound_example : IsSound host exploring
Lives-IsSound_example = Lives-IsSound host exploring-Lives

-- A Quick that is escalated at once.
abbrev new_quick : StartRequest
new_quick = record new_build { task = record new_build.task { route = quick } }

abbrev escalation : EscalationRequest
escalation = record {
  contract_version = 1;
  task_id = "task";
  expected_version = 1;
  route_gate = approval;
  event = metadata "e2";
}

abbrev quick_state : State
quick_state = first_state host new_quick

quick_state-IsSound : IsSound host quick_state
unfolding created_event project_created_event count_repair_attempts
quick_state-IsSound = (((refl, refl, refl), tt), refl, ground arith, refl)

escalation-ok :
    escalate_quick_to_build host true quick_state escalation
    ≡ ok (escalated host quick_state escalation) (escalation_event host quick_state escalation)
unfolding escalate_quick_to_build validate_quick_escalation_request is_identifier is_empty is_blank
    codes validate_route_gate validate_gates declared_once accepted required_met declared_expected
    validate_event_metadata is_workflow_actor is_timestamp created_event project_created_event
escalation-ok = refl

escalate_quick_to_build-IsSound_example :
    IsSound host (escalated host quick_state escalation)
    × ((escalated host quick_state escalation ≡ quick_state)
        ⊎ ((eq_route quick_state.projection.task.route quick ≡ true)
            × (eq_lifecycle quick_state.projection.lifecycle active ≡ true)
            × ((escalated host quick_state escalation).projection.task.route ≡ build)
            × ((escalated host quick_state escalation).projection.lifecycle ≡ active)
            × ((escalated host quick_state escalation).projection.phase ≡ explore)
            × ((escalated host quick_state escalation).projection.task.policies
                ≡ quick_state.projection.task.policies)
            × ((escalated host quick_state escalation).projection.blockers ≡ [])))
escalate_quick_to_build-IsSound_example =
    escalate_quick_to_build-IsSound host true quick_state escalation
      (escalated host quick_state escalation) (escalation_event host quick_state escalation)
      quick_state-IsSound escalation-ok

abbrev adoption : AdoptionRequest
adoption = record {
  contract_version = 1;
  task_id = "task";
  expected_version = 1;
  baseline_identity = "sha256:0000000000000000000000000000000000000000000000000000000000000000";
  adopted =
      record {
        path = "src/a.ts";
        identity = "sha256:0000000000000000000000000000000000000000000000000000000000000000";
      }
      ∷ [];
  event = metadata "e2";
}

adoption-ok :
    adopt_workflow_baseline host true quick_state adoption
    ≡ ok (adopted_state host quick_state adoption) (adoption_event host quick_state adoption)
unfolding adopt_workflow_baseline validate_baseline_adoption_request are_adopted_paths
    is_repository_relative_path is_contract_identity contains is_identifier is_empty is_blank codes
    validate_event_metadata is_workflow_actor is_timestamp created_event project_created_event
adoption-ok = refl

adopt_workflow_baseline-IsSound_example :
    IsSound host (adopted_state host quick_state adoption)
    × ((adopted_state host quick_state adoption).projection.task ≡ quick_state.projection.task)
    × (position_of (adopted_state host quick_state adoption).projection
        ≡ position_of quick_state.projection)
    × ((adopted_state host quick_state adoption).projection.blockers
        ≡ quick_state.projection.blockers)
adopt_workflow_baseline-IsSound_example =
    adopt_workflow_baseline-IsSound host true quick_state adoption
      (adopted_state host quick_state adoption) (adoption_event host quick_state adoption)
      quick_state-IsSound adoption-ok
