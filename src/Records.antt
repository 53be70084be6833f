-- ===== src/Records.antt =====
-- The records that the Workflow and the Dependency Graphs share (the types at the top of
-- packages/core/src/workflow.ts). A text union is a data type, and `null` or `undefined` is `none`.
pub mod Equality
use say_hi.Prelude.{ℕ, ◌+◌, ◌==◌, String, Bool, Option, List, string_discrete, leb}
use native.Mathlib.Decide.{ℕ_discrete}

pub data Route : Type 0 where
  quick build initiative : Route

pub data Phase : Type 0 where
  triage explore plan implement review integrate finish : Phase

pub data Lifecycle : Type 0 where
  proposed active blocked completed archived cancelled : Lifecycle

pub data Gate : Type 0 where
  to_route to_explore to_plan to_implement to_review to_integrate to_finish initiative_ready replan
        review_repair block resume cancel archive :
      Gate

pub data EvidenceKind : Type 0 where
  human_approval validation review_evidence workflow : EvidenceKind

pub record Evidence : Type 0 where
  pub kind : EvidenceKind
  pub reference : String

pub record GateAcceptance : Type 0 where
  pub gate : Gate
  pub evidence : List Evidence

pub data ActorKind : Type 0 where
  orchestrator user agent system : ActorKind

pub record Actor : Type 0 where
  pub kind : ActorKind
  pub id : String
  pub session_ref : String

-- WorkflowEventMetadata
pub record Metadata : Type 0 where
  pub event_id : String
  pub actor : Actor
  pub reason : String
  pub idempotency_key : String
  pub occurred_at : String

pub record TaskIntent : Type 0 where
  pub goals : List String
  pub non_goals : List String
  pub acceptance_criteria : List String

pub record TaskScope : Type 0 where
  pub files : List String
  pub apis : List String
  pub schemas : List String
  pub locks : List String

pub data RepairFailureKind : Type 0 where
  conflict acceptance_failed : RepairFailureKind

pub record RepairContext : Type 0 where
  pub failure_kind : RepairFailureKind
  pub summary : String
  pub evidence : List Evidence

pub data EdgeType : Type 0 where
  blocks informs validates supersedes : EdgeType

-- An integer, by its sign and size: `negsuc n` is -(n + 1).
pub data ℤ : Type 0 where
  pos : ℕ → ℤ
  negsuc : ℕ → ℤ

-- DependencyGraphNode
pub record Node : Type 0 where
  pub task_id : String
  pub priority : ℤ
  pub resources : TaskScope
  pub repair : Option RepairContext
  pub repair_intent : Option TaskIntent

-- DependencyGraphEdge
pub record Edge : Type 0 where
  pub from : String
  pub to : String
  pub type : EdgeType
  pub reason : String

pub record DependencyGraph : Type 0 where
  pub schema_version : ℕ
  pub id : String
  pub initiative_task_id : String
  pub version : ℕ
  pub nodes : List Node
  pub edges : List Edge
  pub updated_by_event : String

-- A place in a JSON value, from its root `$`.
pub data Segment : Type 0 where
  field : String → Segment
  index : ℕ → Segment

abbrev pub JsonPath : Type 0
JsonPath = List Segment

-- `Number.isSafeInteger`, of an integer.
abbrev pub is_safe : ℕ → Bool
is_safe n = leb n 9007199254740991

abbrev pub is_safe_integer : ℤ → Bool
is_safe_integer (pos n) = is_safe n
is_safe_integer (negsuc n) = is_safe (n + 1)

-- `===` on the text unions.
abbrev pub route_index : Route → ℕ
route_index quick = 0
route_index build = 1
route_index initiative = 2

abbrev pub eq_route : Route → Route → Bool
eq_route a b = route_index a == route_index b

abbrev pub phase_index : Phase → ℕ
phase_index triage = 0
phase_index explore = 1
phase_index plan = 2
phase_index implement = 3
phase_index review = 4
phase_index integrate = 5
phase_index finish = 6

abbrev pub eq_phase : Phase → Phase → Bool
eq_phase a b = phase_index a == phase_index b

abbrev pub lifecycle_index : Lifecycle → ℕ
lifecycle_index proposed = 0
lifecycle_index active = 1
lifecycle_index blocked = 2
lifecycle_index completed = 3
lifecycle_index archived = 4
lifecycle_index cancelled = 5

abbrev pub eq_lifecycle : Lifecycle → Lifecycle → Bool
eq_lifecycle a b = lifecycle_index a == lifecycle_index b

abbrev pub gate_index : Gate → ℕ
gate_index to_route = 0
gate_index to_explore = 1
gate_index to_plan = 2
gate_index to_implement = 3
gate_index to_review = 4
gate_index to_integrate = 5
gate_index to_finish = 6
gate_index initiative_ready = 7
gate_index replan = 8
gate_index review_repair = 9
gate_index block = 10
gate_index resume = 11
gate_index cancel = 12
gate_index archive = 13

abbrev pub eq_gate : Gate → Gate → Bool
eq_gate a b = gate_index a == gate_index b

abbrev pub evidence_kind_index : EvidenceKind → ℕ
evidence_kind_index human_approval = 0
evidence_kind_index validation = 1
evidence_kind_index review_evidence = 2
evidence_kind_index workflow = 3

abbrev pub eq_evidence_kind : EvidenceKind → EvidenceKind → Bool
eq_evidence_kind a b = evidence_kind_index a == evidence_kind_index b

abbrev pub actor_kind_index : ActorKind → ℕ
actor_kind_index orchestrator = 0
actor_kind_index user = 1
actor_kind_index agent = 2
actor_kind_index system = 3

abbrev pub eq_actor_kind : ActorKind → ActorKind → Bool
eq_actor_kind a b = actor_kind_index a == actor_kind_index b

abbrev edge_type_index : EdgeType → ℕ
edge_type_index blocks = 0
edge_type_index informs = 1
edge_type_index validates = 2
edge_type_index supersedes = 3

abbrev pub eq_edge_type : EdgeType → EdgeType → Bool
eq_edge_type a b = edge_type_index a == edge_type_index b

-- `===` on the texts that `stableJson` or `hashCanonicalJson` makes of two values is equality of
-- the values.
pub GateAcceptance-discrete : Discrete GateAcceptance
GateAcceptance-discrete = hlevel string_discrete

pub gates_discrete : Discrete (List GateAcceptance)
gates_discrete = hlevel GateAcceptance-discrete

pub strings_discrete : Discrete (List String)
strings_discrete = hlevel string_discrete

pub TaskIntent-discrete : Discrete TaskIntent
TaskIntent-discrete = hlevel string_discrete

pub DependencyGraph-discrete : Discrete DependencyGraph
DependencyGraph-discrete = hlevel (string_discrete, ℕ_discrete)
