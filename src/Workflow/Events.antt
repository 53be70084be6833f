-- ===== src/Workflow/Events.antt =====
-- Tasks, events and requests of the workflow engine (the types of packages/core/src/workflow.ts). The
-- payload of an event that Core records as `unknown` is a record of the fields that Core reads.
use say_hi.Prelude.{ℕ, String, Option, List}
use say_hi.Records.{
  Route, Phase, Lifecycle, GateAcceptance, Actor, Metadata, TaskIntent, TaskScope, DependencyGraph,
  JsonPath,
}
use say_hi.DependencyGraph.Validate as Graph

pub record Position : Type 0 where
  pub lifecycle : Lifecycle
  pub phase : Phase
  pub step : String

pub data CommitPolicy : Type 0 where
  auto_after_review confirm never : CommitPolicy

-- TaskPolicies: `push` has one value only.
pub record Policies : Type 0 where
  pub commit : CommitPolicy
  pub max_repair_attempts : ℕ

-- A Context is a Phase with the path of its manifest.
pub record Context : Type 0 where
  pub phase : Phase
  pub path : String

pub record TaskDefinition : Type 0 where
  pub id : String
  pub title : String
  pub route : Route
  pub parent_task_id : Option String
  pub initiative_graph_id : Option String
  pub intent : TaskIntent
  pub scope : TaskScope
  pub baseline_ref : String
  pub contexts : List Context
  pub policies : Policies

pub record EventHead : Type 0 where
  pub sequence : ℕ
  pub event_id : String
  pub chain_digest : String

-- TaskProjection
pub record Projection : Type 0 where
  pub task : TaskDefinition
  pub lifecycle : Lifecycle
  pub phase : Phase
  pub step : String
  pub version : ℕ
  pub event_head : EventHead
  pub blockers : List String
  pub external_references : List String
  pub created_at : String
  pub updated_at : String

pub record AdoptedPath : Type 0 where
  pub path : String
  pub identity : String

pub data PlanChange : Type 0 where
  recorded rejected : PlanChange

pub record PlanMaterial : Type 0 where
  pub plan_identity : String
  pub requirements_identity : String
  pub context_manifest_path : String
  pub context_manifest_identity : String

pub data ContextChange : Type 0 where
  added refreshed removed frozen : ContextChange

pub data AgentRole : Type 0 where
  research planning architecture implementation standards_review spec_review integration knowledge :
      AgentRole

pub data Outcome : Type 0 where
  succeeded failed blocked_outcome : Outcome

pub data Severity : Type 0 where
  blocking advisory : Severity

-- ContentHash
pub data HashAlgorithm : Type 0 where
  sha256_lf_v1 sha256_bytes_v1 : HashAlgorithm

pub record BoundSkillIdentity : Type 0 where
  pub name : String
  pub algorithm : HashAlgorithm
  pub digest : String

-- PhaseExecutionBinding
pub record Binding : Type 0 where
  pub schema_version : ℕ
  pub dispatch_id : String
  pub task_id : String
  pub expected_task_version : ℕ
  pub phase : Phase
  pub agent_role : AgentRole
  pub base_fingerprint : String
  pub requested_at : String
  pub context_manifest_identity : String
  pub agent_contract_identity : String
  pub skill_lock_identity : String
  pub skill_identities : List BoundSkillIdentity

pub data Subject : Type 0 where
  acceptance_criterion approved_spec : Subject

pub record ReviewFinding : Type 0 where
  pub id : String
  pub severity : Severity
  pub subject : Subject
  pub reference : String
  pub message : String
  pub remediation : String

-- AgentResultRecord
pub record ExecutionResult : Type 0 where
  pub schema_version : ℕ
  pub dispatch_id : String
  pub task_id : String
  pub expected_task_version : ℕ
  pub phase : Phase
  pub agent_role : AgentRole
  pub context_manifest_identity : String
  pub agent_contract_identity : String
  pub base_fingerprint : String
  pub outcome : Outcome
  pub artifacts : List String
  pub evidence : List String
  pub findings : List String
  pub review_findings : Option (List ReviewFinding)
  pub observed_final_fingerprint : String

pub data TrackerChange : Type 0 where
  created updated observed external_closed resolved_local resolved_remote : TrackerChange

pub record TrackerReference : Type 0 where
  pub id : String
  pub adapter : String
  pub uri : String
  pub external_id : String
  pub observed_version : String
  pub observed_state : Option String
  pub role : String
  pub identity : String
  pub last_observed_at : String

-- `type`, with the fields that only that type of event has.
pub data Payload : Type 0 where
  task_created : TaskDefinition → Payload
  workflow_transitioned : Payload
  route_escalated : Payload
  baseline_adopted : String → List AdoptedPath → Payload
  context_manifest_changed : Phase → String → String → ContextChange → Payload
  build_plan_changed : PlanChange → PlanMaterial → Payload
  initiative_graph_revised : ℕ → Payload
  phase_execution_dispatched : String → Binding → Payload
  phase_execution_result_accepted : ExecutionResult → Payload
  tracker_synchronized : TrackerChange → TrackerReference → Payload

-- The content of an event, which its digest covers; `schemaVersion` and `outcome` have one value.
pub record Content : Type 0 where
  pub event_id : String
  pub task_id : String
  pub route : Route
  pub sequence : ℕ
  pub previous_chain_digest : Option String
  pub payload : Payload
  pub from : Option Position
  pub to : Position
  pub actor : Actor
  pub gates : List GateAcceptance
  pub blockers : List String
  pub initiative_graph : Option DependencyGraph
  pub reason : String
  pub idempotency_key : String
  pub occurred_at : String

-- WorkflowEvent
pub record WorkflowEvent : Type 0 where
  pub content : Content
  pub chain_digest : String

pub record State : Type 0 where
  pub events : List WorkflowEvent
  pub projection : Projection

-- TransitionWorkflowRequest
pub record TransitionRequest : Type 0 where
  pub contract_version : ℕ
  pub task_id : String
  pub expected_version : ℕ
  pub to : Position
  pub gates : List GateAcceptance
  pub blockers : Option (List String)
  pub initiative_graph : Option DependencyGraph
  pub event : Metadata

-- WorkflowDiagnosticCode
pub data Code : Type 0 where
  graph_code : Graph.Code → Code
  request_invalid contract_version_unsupported task_mismatch state_inconsistent version_stale
        transition_illegal gate_unmet gate_unexpected gate_evidence_invalid event_sequence_invalid
        event_chain_invalid event_idempotency_conflict event_id_conflict repair_exhausted
        graph_invalid event_invalid :
      Code

-- WorkflowDiagnostic, less its texts for the reader.
pub record Diagnostic : Type 0 where
  pub code : Code
  pub path : JsonPath

-- What `new URL` reads out of a text.
pub record Url : Type 0 where
  pub protocol : String
  pub username : String
  pub password : String
  pub search : String
  pub hash : String

-- What the engine takes from Node: the SHA-256 identity of an intent's canonical JSON, and that of an
-- event's content; and `new URL`, which throws on a text that is no URL.
pub record Host : Type 0 where
  pub intent_identity : TaskIntent → String
  pub event_digest : Content → String
  pub new_url : String → Option Url
