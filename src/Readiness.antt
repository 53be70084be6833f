-- ===== src/Readiness.antt =====
-- Which Tasks of an Initiative can be worked on (packages/core/src/initiative-readiness.ts). The texts of
-- the blockers are left out.
pub mod Derive
pub mod Sound
pub mod Frontier
pub mod Fuel
pub mod Ranking
pub mod Order
mod Tests
use say_hi.Prelude.{
  ℕ, zero, suc, ◌==◌, ltb, String, str_eq, codes, Bool, true, false, not, ◌&&◌, ◌||◌, Option, none,
  some, List, [], ◌∷◌, ◌++◌, any, find, if◌then◌else◌, map,
}
use say_hi.Records.{
  ℤ, pos, negsuc, build, triage, review, implement, active, archived, cancelled, to_route,
  review_repair, human_approval, blocks, supersedes, EdgeType, Edge, Node, DependencyGraph,
  GateAcceptance, eq_route, eq_phase, eq_lifecycle, eq_gate, eq_evidence_kind, eq_edge_type,
}
use say_hi.Records as Records
use say_hi.Workflow.Events.{
  Position, Payload, task_created, workflow_transitioned, phase_execution_result_accepted, Outcome,
  succeeded, Content, WorkflowEvent, State,
}
use say_hi.Workflow.History.{newest_first, has_succeeded}
use say_hi.Workflow.Changes.Tracker.{leq_codes}

-- InitiativeReadiness
pub data Readiness : Type 0 where
  ready waiting blocked completed : Readiness

-- InitiativeReadinessBlockerCode
pub data BlockerCode : Type 0 where
  task_missing task_blocked task_cancelled task_failed task_repair_required task_in_progress
        task_route_invalid task_context_invalid task_gate_unmet dependency_incomplete
        dependency_blocked dependency_cancelled dependency_failed dependency_evidence_required
        dependency_repair_required :
      BlockerCode

pub record Blocker : Type 0 where
  pub code : BlockerCode
  pub task_id : String

-- InitiativeReadinessTask; a Context is valid or not.
pub record ReadinessTask : Type 0 where
  pub task_id : String
  pub state : Option State
  pub has_valid_context : Bool

-- InitiativeReadinessNode
pub record ReadinessNode : Type 0 where
  pub task_id : String
  pub readiness : Readiness
  pub blockers : List Blocker

unfoldable pub requires_initiative_triage_context : State → Bool
requires_initiative_triage_context s =
    eq_route s.projection.task.route build
    && eq_lifecycle s.projection.lifecycle active
    && eq_phase s.projection.phase triage

abbrev pub is_confirmed : GateAcceptance → Bool
is_confirmed gate =
    eq_gate gate.gate to_route && any (λ e. eq_evidence_kind e.kind human_approval) gate.evidence

abbrev pub is_creation : Payload → Bool
is_creation (task_created task) = true
is_creation _ = false

abbrev pub confirmed_by : List WorkflowEvent → Bool
confirmed_by [] = false
confirmed_by (created ∷ events) =
    is_creation created.content.payload && any is_confirmed created.content.gates

unfoldable pub has_accepted_route_gate : State → Bool
has_accepted_route_gate s = confirmed_by s.events

-- What an event says of the last execution, where it says anything.
abbrev pub execution_verdict : Payload → Option Bool
execution_verdict workflow_transitioned = some false
execution_verdict (task_created task) = some false
execution_verdict (phase_execution_result_accepted result) =
    some (not (has_succeeded result.outcome))
execution_verdict _ = none

abbrev pub failed_from : List WorkflowEvent → Bool
failed_from [] = false
failed_from (e ∷ older) =
    let rest = failed_from older in
    elim (execution_verdict e.content.payload) [ none ↦ rest | some failed ↦ failed ]

unfoldable pub has_current_failed_execution : State → Bool
has_current_failed_execution s = failed_from (newest_first s.events [])

abbrev pub is_from_review : Option Position → Bool
is_from_review none = false
is_from_review (some from) = eq_phase from.phase review

abbrev pub sends_back : Content → Bool
sends_back e =
    is_from_review e.from
    && eq_lifecycle e.to.lifecycle active
    && eq_phase e.to.phase implement
    && any (λ g. eq_gate g.gate review_repair) e.gates

abbrev pub repair_verdict : Content → Payload → Option Bool
repair_verdict e workflow_transitioned = some (sends_back e)
repair_verdict e (task_created task) = some false
repair_verdict e _ = none

abbrev pub repair_from : List WorkflowEvent → Bool
repair_from [] = false
repair_from (e ∷ older) =
    let rest = repair_from older in
    elim (repair_verdict e.content e.content.payload) [ none ↦ rest | some required ↦ required ]

unfoldable pub has_current_repair_requirement : State → Bool
has_current_repair_requirement s = repair_from (newest_first s.events [])

-- A readiness with its blockers.
pub record Standing : Type 0 where
  pub readiness : Readiness
  pub blockers : List Blocker

abbrev pub waiting_state : BlockerCode → String → Standing
waiting_state code id = record {
  readiness = waiting;
  blockers = record { code = code; task_id = id } ∷ [];
}

abbrev pub blocked_state : BlockerCode → String → Standing
blocked_state code id = record {
  readiness = blocked;
  blockers = record { code = code; task_id = id } ∷ [];
}

abbrev pub readiness_state : Readiness → Standing
readiness_state readiness = record { readiness = readiness; blockers = [] }

abbrev pub is_done : State → Bool
is_done s =
    eq_lifecycle s.projection.lifecycle Records.completed
    || eq_lifecycle s.projection.lifecycle archived

unfoldable pub readiness_for_task : String → Option State → Bool → Standing
readiness_for_task id none has_context = waiting_state task_missing id
readiness_for_task id (some s) has_context =
    if not (eq_route s.projection.task.route build)
    then blocked_state task_route_invalid id
    else (if is_done s
        then readiness_state completed
        else (if eq_lifecycle s.projection.lifecycle cancelled
            then blocked_state task_cancelled id
            else (if eq_lifecycle s.projection.lifecycle Records.blocked
                then blocked_state task_blocked id
                else (if has_current_failed_execution s
                    then blocked_state task_failed id
                    else (if has_current_repair_requirement s
                        then blocked_state task_repair_required id
                        else (if not (requires_initiative_triage_context s)
                            then waiting_state task_in_progress id
                            else (if not (has_accepted_route_gate s)
                                then waiting_state task_gate_unmet id
                                else (if not has_context
                                    then waiting_state task_context_invalid id
                                    else readiness_state ready))))))))

-- `new Map(...).get(key)`: the last entry with the key.
abbrev pub last_with {ℓ} : {A : Type ℓ} → (A → Bool) → List A → Option A
last_with p [] = none
last_with p (x ∷ xs) =
    let rest = last_with p xs in elim rest [ some y ↦ some y | none ↦ if p x then some x else none ]

abbrev pub standing_of : String → Option ReadinessTask → Standing
standing_of id none = readiness_for_task id none false
standing_of id (some task) = readiness_for_task id task.state task.has_valid_context

abbrev pub own_standing : List ReadinessTask → String → Standing
own_standing tasks id = standing_of id (last_with (λ t. str_eq t.task_id id) tasks)

-- `graph.edges.filter(...)`
abbrev pub arriving : List Edge → String → List Edge
arriving [] id = []
arriving (e ∷ edges) id =
    let rest = arriving edges id in
    if not (eq_edge_type e.type supersedes) && str_eq e.to id then e ∷ rest else rest

-- `incomingDependencies.get(taskId) ?? []`: the map has the identifiers of the nodes.
abbrev pub incoming : DependencyGraph → String → List Edge
incoming graph id =
    if any (λ n. str_eq n.task_id id) graph.nodes then arriving graph.edges id else []
