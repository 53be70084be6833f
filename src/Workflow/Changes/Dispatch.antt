-- ===== src/Workflow/Changes/Dispatch.antt =====
-- recordPhaseExecutionDispatch (packages/core/src/workflow.ts).
use say_hi.Prelude.{
  ℕ, ◌+◌, ◌==◌, String, str_eq, string_discrete, codes, is_hex, Bool, true, false, ◌&&◌, ◌||◌,
  Option, none, some, List, [], ◌∷◌, ◌++◌, all, find, length, ◌or_else◌, unless, if◌then◌else◌,
}
use native.Mathlib.Decide.{ℕ_discrete}
use say_hi.Records.{
  Phase, plan, implement, review, build, to_plan, human_approval, GateAcceptance, field, JsonPath,
  eq_route, eq_phase, eq_gate, eq_evidence_kind,
}
use say_hi.Validation.{is_contract_identity}
use say_hi.Workflow.Events.{
  Position, Projection, Binding, ExecutionResult, phase_execution_dispatched, Content,
  WorkflowEvent, State, Host, request_invalid, state_inconsistent, transition_illegal, Diagnostic,
}
use say_hi.Workflow.History.{
  newest_first, is_transition, same_codes, split_digest, current_build_implementation_result,
}
use say_hi.Workflow.Guards.{at}
use say_hi.Workflow.Execution.{is_binding}
use say_hi.Workflow.Transition.{validate_event_metadata, decided, Result, has_key}
use say_hi.Workflow.Changes.{
  change_event, touch, matches_request, looks_back, appended, unless_refused, retry_or,
}
use say_hi.Workflow.Changes.Requests.{DispatchRequest, validate_phase_execution_request}

-- A letter of either case; `s` also matches U+017F under the flags `iu`.
abbrev either_case : ℕ → ℕ → Bool
either_case lower c = c == lower || c + 32 == lower || lower == b's' && c == 0x17f

abbrev after_letters : List ℕ → List ℕ → Option (List ℕ)
after_letters [] s = some s
after_letters (p ∷ ps) [] = none
after_letters (p ∷ ps) (c ∷ s) =
    let rest = after_letters ps s in elim (either_case p c) [ true ↦ rest | false ↦ none ]

-- The digits of a text of the form `/^plans\/[0-9a-f]{64}\.json$/iu`. No sign of the pattern but a letter
-- has a second case.
plan_digits : List ℕ → Option (List ℕ)
unfolding codes is_hex
plan_digits s = elim (after_letters (codes "plans/") s) [
  | none ↦ none
  | some rest ↦
      let parts = split_digest 64 rest in
      if length parts.0 == 64 && all is_hex parts.0
      then elim (after_letters (codes ".json") parts.1) [
        | none ↦ none
        | some end ↦ if length end == 0 then some parts.0 else none
      ]
      else none
]

-- The reference of the first human approval of the Plan Gate.
abbrev pub plan_reference : List GateAcceptance → Option String
plan_reference gates = elim (find (λ g. eq_gate g.gate to_plan) gates) [
  | none ↦ none
  | some gate ↦ elim (find (λ e. eq_evidence_kind e.kind human_approval) gate.evidence) [
    | none ↦ none
    | some e ↦ some e.reference
  ]
]

abbrev pub is_from : Option Position → Phase → Bool
is_from none phase = false
is_from (some from) phase = eq_phase from.phase phase

-- A transition of a Build from Plan to Implement.
abbrev pub approves : Content → Bool
approves e =
    is_transition e.payload
    && eq_route e.route build
    && is_from e.from plan
    && eq_phase e.to.phase implement

unfoldable pub approved_digits : List GateAcceptance → Option (List ℕ)
unfolding plan_digits codes
approved_digits gates = elim (plan_reference gates) [
  | none ↦ none
  | some reference ↦ plan_digits (codes reference)
]

abbrev pub approved_from : List WorkflowEvent → Option (List ℕ)
approved_from [] = none
approved_from (e ∷ older) =
    let rest = approved_from older in
    elim (approves e.content) [
      | false ↦ rest
      | true ↦ elim (approved_digits e.content.gates) [ none ↦ rest | some digits ↦ some digits ]
    ]

-- approvedBuildPlanIdentity, by the digits behind `sha256:`.
unfoldable pub approved_build_plan_digits : List WorkflowEvent → Option (List ℕ)
approved_build_plan_digits events = approved_from (newest_first events [])

-- `approvedBuildPlanIdentity(events) === identity`
unfoldable pub is_approved_identity : List WorkflowEvent → String → Bool
unfolding codes
is_approved_identity events identity = elim (approved_build_plan_digits events) [
  | none ↦ false
  | some digits ↦ same_codes (codes identity) (codes "sha256:" ++ digits)
]

abbrev pub in_binding : String → JsonPath
in_binding name = field "binding" ∷ field name ∷ []

-- validatePhaseExecutionDispatchBinding
unfoldable pub validate_phase_execution_dispatch_binding : Projection → Binding → Option Diagnostic
validate_phase_execution_dispatch_binding p b =
    unless
      (str_eq b.task_id p.task.id
        && b.expected_task_version == p.version
        && eq_phase b.phase p.phase)
      (at transition_illegal "binding")

abbrev pub in_build_review : Projection → Bool
in_build_review p = eq_route p.task.route build && eq_phase p.phase review

abbrev pub dispatch_failure : Binding → Option ExecutionResult → Option Diagnostic
dispatch_failure b none =
    some (record { code = transition_illegal; path = in_binding "baseFingerprint" })
dispatch_failure b (some implementation) =
    unless (str_eq b.base_fingerprint implementation.observed_final_fingerprint)
      (record { code = transition_illegal; path = in_binding "baseFingerprint" })

unfoldable pub validate_build_review_dispatch_binding :
    Projection → List WorkflowEvent → Binding → Option Diagnostic
validate_build_review_dispatch_binding p events b =
    if in_build_review p
    then dispatch_failure b (current_build_implementation_result events)
    else none

-- validatePhaseExecutionDispatchRequest
unfoldable pub validate_phase_execution_dispatch_request :
    Bool → State → DispatchRequest → Option Diagnostic
validate_phase_execution_dispatch_request is_consistent state r =
    validate_phase_execution_request state r.contract_version r.task_id r.expected_version r.event
    or_else unless is_consistent (at state_inconsistent "state")
    or_else unless (is_contract_identity r.plan_identity) (at request_invalid "planIdentity")
    or_else unless (is_binding r.binding) (at request_invalid "binding")
    or_else validate_phase_execution_dispatch_binding state.projection r.binding
    or_else unless (is_approved_identity state.events r.plan_identity)
        (at transition_illegal "planIdentity")
    or_else validate_build_review_dispatch_binding state.projection state.events r.binding

pub Binding-discrete : Discrete Binding
Binding-discrete = hlevel (string_discrete, ℕ_discrete)

unfoldable pub matches_phase_execution_dispatch_intent : DispatchRequest → Content → Bool
matches_phase_execution_dispatch_intent r e = elim e.payload [
  | phase_execution_dispatched identity binding ↦
      matches_request e r.task_id r.expected_version r.event
      && str_eq identity r.plan_identity
      && decided (Binding-discrete binding r.binding)
  | _ ↦ false
]

abbrev pub dispatch_event : Host → State → DispatchRequest → WorkflowEvent
dispatch_event host state r =
    change_event host state r.event (phase_execution_dispatched r.plan_identity r.binding) none

unfoldable pub record_phase_execution_dispatch : Host → Bool → State → DispatchRequest → Result
record_phase_execution_dispatch host c state r =
    unless_refused (validate_event_metadata (field "event" ∷ []) r.event) state (
      retry_or (looks_back c state r.contract_version r.task_id)
        (find (has_key r.event.idempotency_key) state.events)
        (matches_phase_execution_dispatch_intent r) state
        (unless_refused (validate_phase_execution_dispatch_request c state r) state (
          appended state (dispatch_event host state r)
            (touch state.projection (dispatch_event host state r)))))
