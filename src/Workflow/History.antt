-- ===== src/Workflow/History.antt =====
-- What the engine reads out of a Task's accepted events (packages/core/src/workflow.ts). A loop that
-- runs down from the last event is a recursion on the reversed list.
pub mod Latest
pub mod Current
use say_hi.Prelude.{
  ℕ, zero, suc, ◌+◌, ◌==◌, String, str_eq, Bool, true, false, ◌&&◌, ◌||◌, Option, none, some, List,
  [], ◌∷◌, ◌++◌, any, all, find, length, if◌then◌else◌, codes, is_digit, strip_prefix, leb,
}
use say_hi.Records.{
  Phase, implement, review, Lifecycle, active, to_plan, human_approval, GateAcceptance, Evidence,
  eq_phase, eq_lifecycle, eq_gate, eq_evidence_kind,
}
use say_hi.Validation.{is_contract_identity}
use say_hi.Workflow.Events.{
  Position, PlanChange, PlanMaterial, ContextChange, frozen, AgentRole, implementation,
  standards_review, spec_review, Outcome, succeeded, Severity, blocking, advisory, ExecutionResult,
  Payload, workflow_transitioned, context_manifest_changed, build_plan_changed,
  phase_execution_result_accepted, WorkflowEvent,
}

abbrev pub newest_first {ℓ} : {A : Type ℓ} → List A → List A → List A
newest_first [] acc = acc
newest_first (x ∷ xs) acc = newest_first xs (x ∷ acc)

abbrev pub is_at : Option Position → Lifecycle → Phase → Bool
is_at none l p = false
is_at (some at) l p = eq_lifecycle at.lifecycle l && eq_phase at.phase p

abbrev pub is_transition : Payload → Bool
is_transition workflow_transitioned = true
is_transition _ = false

-- The events that countRepairAttempts counts.
abbrev pub is_repair : WorkflowEvent → Bool
is_repair e =
    is_transition e.content.payload
    && is_at e.content.from active review
    && is_at (some e.content.to) active implement

abbrev pub as_one : Bool → ℕ
as_one true = 1
as_one false = 0

unfoldable pub count_repair_attempts : List WorkflowEvent → ℕ
count_repair_attempts [] = 0
count_repair_attempts (e ∷ events) = as_one (is_repair e) + count_repair_attempts events

abbrev pub latest_plan_change : List WorkflowEvent → Option (PlanChange × PlanMaterial)
latest_plan_change [] = none
latest_plan_change (e ∷ older) =
    let rest = latest_plan_change older in
    elim e.content.payload [
      | build_plan_changed change material ↦ some (change, material)
      | _ ↦ rest
    ]

unfoldable pub current_build_plan_change : List WorkflowEvent → Option (PlanChange × PlanMaterial)
current_build_plan_change events = latest_plan_change (newest_first events [])

record ContextManifest : Type 0 where
  pub manifest_path : String
  pub manifest_identity : String
  pub change : ContextChange

abbrev latest_implement_context : List WorkflowEvent → Option ContextManifest
latest_implement_context [] = none
latest_implement_context (e ∷ older) =
    let rest = latest_implement_context older in
    elim e.content.payload [
      | context_manifest_changed phase path identity change ↦ elim (eq_phase phase implement) [
        | true ↦
            some (record { manifest_path = path; manifest_identity = identity; change = change })
        | false ↦ rest
      ]
      | _ ↦ rest
    ]

abbrev current_implement_context_change : List WorkflowEvent → Option ContextManifest
current_implement_context_change events = latest_implement_context (newest_first events [])

abbrev is_frozen : ContextChange → Bool
is_frozen frozen = true
is_frozen _ = false

-- An identity that was cut out of a text is the list of its code points.
abbrev pub same_codes : List ℕ → List ℕ → Bool
same_codes [] [] = true
same_codes (a ∷ s) (b ∷ t) = a == b && same_codes s t
same_codes _ _ = false

unfoldable pub has_frozen_implement_context : List WorkflowEvent → List ℕ → Bool
unfolding codes
has_frozen_implement_context events identity = elim (current_implement_context_change events) [
  | none ↦ false
  | some c ↦
      is_frozen c.change
      && str_eq c.manifest_path "context/implement.jsonl"
      && same_codes (codes c.manifest_identity) identity
]

abbrev pub has_role : AgentRole → AgentRole → Bool
has_role implementation implementation = true
has_role standards_review standards_review = true
has_role spec_review spec_review = true
has_role _ _ = false

abbrev pub has_succeeded : Outcome → Bool
has_succeeded succeeded = true
has_succeeded _ = false

abbrev pub from_phase : Option Position → Phase → Bool
from_phase none p = false
from_phase (some at) p = eq_phase at.phase p

abbrev pub is_implementation_result : WorkflowEvent → ExecutionResult → Bool
is_implementation_result e result =
    from_phase e.content.from implement
    && eq_phase result.phase implement
    && has_role result.agent_role implementation
    && has_succeeded result.outcome
    && is_contract_identity result.observed_final_fingerprint

abbrev pub implementation_result_from : List WorkflowEvent → Option ExecutionResult
implementation_result_from [] = none
implementation_result_from (e ∷ older) =
    let rest = implementation_result_from older in
    elim e.content.payload [
      | workflow_transitioned ↦ elim (is_at (some e.content.to) active implement) [
        | true ↦ none
        | false ↦ rest
      ]
      | phase_execution_result_accepted result ↦ elim (is_implementation_result e result) [
        | true ↦ some result
        | false ↦ rest
      ]
      | _ ↦ rest
    ]

unfoldable pub current_build_implementation_result : List WorkflowEvent → Option ExecutionResult
current_build_implementation_result events = implementation_result_from (newest_first events [])

abbrev pub is_review_result : AgentRole → WorkflowEvent → ExecutionResult → Bool
is_review_result role e result =
    from_phase e.content.from review
    && eq_phase result.phase review
    && has_role result.agent_role role
    && elim result.review_findings [ none ↦ false | some findings ↦ true ]

-- The entry of one role in the map that currentBuildReviewResults makes.
abbrev pub review_result_from : AgentRole → List WorkflowEvent → Option ExecutionResult
review_result_from role [] = none
review_result_from role (e ∷ older) =
    let rest = review_result_from role older in
    elim e.content.payload [
      | workflow_transitioned ↦ elim (is_at (some e.content.to) active review) [
        | true ↦ none
        | false ↦ rest
      ]
      | phase_execution_result_accepted result ↦ elim (is_review_result role e result) [
        | true ↦ some result
        | false ↦ rest
      ]
      | _ ↦ rest
    ]

unfoldable pub current_build_review_result : AgentRole → List WorkflowEvent → Option ExecutionResult
current_build_review_result role events = review_result_from role (newest_first events [])

abbrev pub is_blocking : Severity → Bool
is_blocking blocking = true
is_blocking advisory = false

abbrev pub has_blocking_review_finding : ExecutionResult → Bool
has_blocking_review_finding result = elim result.review_findings [
  | none ↦ false
  | some findings ↦ any (λ f. is_blocking f.severity) findings
]

-- `[a-f0-9]`
is_lower_hex : ℕ → Bool
unfolding is_digit
is_lower_hex c = is_digit c || leb b'a' c && leb c b'f'

abbrev pub split_digest : ℕ → List ℕ → List ℕ × List ℕ
split_digest zero s = ([], s)
split_digest (suc n) [] = ([], [])
split_digest (suc n) (c ∷ s) = let rest = split_digest n s in (c ∷ rest.0, rest.1)

-- A prefix, 64 digits and a suffix: the digits of a text of that form.
digest_between : List ℕ → List ℕ → List ℕ → Option (List ℕ)
unfolding is_lower_hex strip_prefix
digest_between prefix suffix s = elim (strip_prefix prefix s) [
  | none ↦ none
  | some rest ↦
      let parts = split_digest 64 rest in
      if length parts.0 == 64 && all is_lower_hex parts.0 && same_codes parts.1 suffix
      then some parts.0
      else none
]

-- The first evidence of a human approval whose reference has that form, by its digits.
abbrev approval_digest : List ℕ → List ℕ → List Evidence → Option (List ℕ)
approval_digest prefix suffix [] = none
approval_digest prefix suffix (e ∷ es) =
    let rest = approval_digest prefix suffix es in
    elim (eq_evidence_kind e.kind human_approval) [
      | false ↦ rest
      | true ↦ elim (digest_between prefix suffix (codes e.reference)) [
        | none ↦ rest
        | some digits ↦ some digits
      ]
    ]

pub record PlanApproval : Type 0 where
  pub plan_identity : List ℕ
  pub context_manifest_identity : List ℕ

abbrev approval_of : Option (List ℕ) → Option (List ℕ) → Option PlanApproval
approval_of (some plan_digits) (some context_digits) = some (record {
  plan_identity = codes "sha256:" ++ plan_digits;
  context_manifest_identity = codes "sha256:" ++ context_digits;
})
approval_of _ _ = none

-- Both identities have the form of a content identity, so that the last test passes always.
unfoldable pub build_plan_approval_evidence : List GateAcceptance → Option PlanApproval
unfolding digest_between codes
build_plan_approval_evidence gates = elim (find (λ g. eq_gate g.gate to_plan) gates) [
  | none ↦ none
  | some gate ↦
      approval_of (approval_digest (codes "plans/") (codes ".json") gate.evidence)
        (approval_digest (codes "context/implement.jsonl#sha256:") [] gate.evidence)
]

-- matchesBuildPlanMaterial, of a plan and the material of an approval; `requirements` is the identity
-- of the intent.
unfoldable pub matches_build_plan_material : PlanMaterial → PlanApproval → String → Bool
unfolding codes
matches_build_plan_material material approval requirements =
    same_codes (codes material.plan_identity) approval.plan_identity
    && str_eq material.requirements_identity requirements
    && str_eq material.context_manifest_path "context/implement.jsonl"
    && same_codes (codes material.context_manifest_identity) approval.context_manifest_identity
