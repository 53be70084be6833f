-- ===== src/Workflow/Execution.antt =====
-- Bindings and results of a Phase execution (parsePhaseExecutionBinding and its neighbours of
-- packages/core/src/execution.ts, and validateAgentResult of packages/core/src/record-contracts.ts). A
-- binding or a result is a typed record, and what is left of parsing it is a test.
use say_hi.Prelude.{
  ℕ, ◌==◌, leb, String, str_eq, Bool, true, false, not, ◌&&◌, ◌||◌, Option, none, some, List, [],
  ◌∷◌, weigh, is_empty,
}
use say_hi.Records.{review, is_safe, eq_phase}
use say_hi.Validation.{is_identifier, is_timestamp, is_contract_identity, is_sha256_digest}
use say_hi.DependencyGraph.Cycle.{contains}
use say_hi.Workflow.Events.{
  AgentRole, research, planning, architecture, implementation, standards_review, spec_review,
  integration, knowledge, BoundSkillIdentity, Binding, ReviewFinding, ExecutionResult,
}
use say_hi.Workflow.History.{has_succeeded, is_blocking, as_one}

abbrev pub role_index : AgentRole → ℕ
role_index research = 0
role_index planning = 1
role_index architecture = 2
role_index implementation = 3
role_index standards_review = 4
role_index spec_review = 5
role_index integration = 6
role_index knowledge = 7

abbrev pub eq_role : AgentRole → AgentRole → Bool
eq_role a b = role_index a == role_index b

-- validateDispatch, of the fields that a binding shares with its dispatch.
unfoldable pub is_dispatch : Binding → Bool
is_dispatch b =
    b.schema_version == 1
    && (is_identifier b.dispatch_id && is_identifier b.task_id)
    && is_safe b.expected_task_version
    && is_contract_identity b.base_fingerprint
    && is_timestamp b.requested_at
    && (is_contract_identity b.context_manifest_identity
        && is_contract_identity b.agent_contract_identity)

-- The loop over `value.skillIdentities`; `names` is the set so far.
unfoldable pub are_skill_identities : List String → List BoundSkillIdentity → Bool
are_skill_identities names [] = true
are_skill_identities names (skill ∷ skills) =
    not (is_empty skill.name)
    && not (contains names skill.name)
    && is_sha256_digest skill.digest
    && are_skill_identities (skill.name ∷ names) skills

-- `parsePhaseExecutionBinding(value) !== null`
unfoldable pub is_binding : Binding → Bool
is_binding b =
    is_contract_identity b.skill_lock_identity
    && is_dispatch b
    && are_skill_identities [] b.skill_identities

-- isUniqueStringArray, where no item is required; `values` is the set so far.
unfoldable pub is_unique_string_array : List String → List String → Bool
is_unique_string_array values [] = true
is_unique_string_array values (item ∷ items) =
    not (is_empty item)
    && not (contains values item)
    && is_unique_string_array (item ∷ values) items

-- The loop over `record.reviewFindings`; `ids` is the set so far.
unfoldable pub are_review_findings : List String → List ReviewFinding → Bool
are_review_findings ids [] = true
are_review_findings ids (f ∷ findings) =
    is_identifier f.id
    && not (contains ids f.id)
    && not (is_empty f.reference)
    && not (is_empty f.message)
    && not (is_empty f.remediation)
    && are_review_findings (f.id ∷ ids) findings

abbrev pub blocking_findings : List ReviewFinding → ℕ
blocking_findings findings = weigh (λ f. as_one (is_blocking f.severity)) findings

-- A successful result has no blocking finding, and any other has one.
abbrev pub outcome_fits : Bool → ℕ → Bool
outcome_fits true n = n == 0
outcome_fits false n = not (n == 0)

abbrev structured_findings : ExecutionResult → Option (List ReviewFinding) → Bool
structured_findings result none = true
structured_findings result (some findings) =
    eq_phase result.phase review
    && (eq_role result.agent_role standards_review || eq_role result.agent_role spec_review)
    && are_review_findings [] findings
    && outcome_fits (has_succeeded result.outcome) (blocking_findings findings)

-- validateAgentResultFindings
unfoldable pub are_agent_result_findings : ExecutionResult → Bool
are_agent_result_findings result =
    is_unique_string_array [] result.findings && structured_findings result result.review_findings

-- `parsePhaseExecutionResult(value) !== null`: validateAgentResult passes.
unfoldable pub is_agent_result : ExecutionResult → Bool
is_agent_result result =
    result.schema_version == 1
    && (is_identifier result.dispatch_id && is_identifier result.task_id)
    && (is_safe result.expected_task_version && leb 1 result.expected_task_version)
    && (is_contract_identity result.context_manifest_identity
        && is_contract_identity result.agent_contract_identity
        && is_contract_identity result.base_fingerprint
        && is_contract_identity result.observed_final_fingerprint)
    && (is_unique_string_array [] result.artifacts && is_unique_string_array [] result.evidence)
    && are_agent_result_findings result

unfoldable pub phase_execution_result_matches_binding : ExecutionResult → Binding → Bool
phase_execution_result_matches_binding result binding =
    str_eq result.dispatch_id binding.dispatch_id
    && str_eq result.task_id binding.task_id
    && result.expected_task_version == binding.expected_task_version
    && eq_phase result.phase binding.phase
    && eq_role result.agent_role binding.agent_role
    && str_eq result.context_manifest_identity binding.context_manifest_identity
    && str_eq result.agent_contract_identity binding.agent_contract_identity
    && str_eq result.base_fingerprint binding.base_fingerprint
