-- ===== src/Workflow/Changes/Outcomes.antt =====
-- recordPhaseExecutionResult (packages/core/src/workflow.ts).
use say_hi.Prelude.{
  String, str_eq, string_discrete, Bool, true, false, not, ◌&&◌, ◌||◌, Option, none, some, List, [],
  ◌∷◌, any, find, ◌or_else◌, unless, if◌then◌else◌,
}
use native.Mathlib.Decide.{ℕ_discrete}
use say_hi.Records.{Phase, field, eq_phase}
use say_hi.Workflow.Events.{
  Projection, Binding, ExecutionResult, Payload, phase_execution_dispatched,
  phase_execution_result_accepted, Content, WorkflowEvent, State, Host, request_invalid,
  state_inconsistent, transition_illegal, Diagnostic,
}
use say_hi.Workflow.History.{newest_first, is_transition, current_build_implementation_result}
use say_hi.Workflow.Guards.{at}
use say_hi.Workflow.Execution.{is_binding, is_agent_result, phase_execution_result_matches_binding}
use say_hi.Workflow.Payloads.{is_given}
use say_hi.Workflow.Transition.{validate_event_metadata, decided, Result, has_key}
use say_hi.Workflow.Changes.{
  change_event, touch, matches_request, looks_back, appended, unless_refused, retry_or,
}
use say_hi.Workflow.Changes.Requests.{ResultRequest, validate_phase_execution_request}
use say_hi.Workflow.Changes.Dispatch.{in_build_review}

abbrev pub binding_of : Phase → Payload → Option Binding
binding_of phase (phase_execution_dispatched identity b) =
    if is_binding b && eq_phase b.phase phase then some b else none
binding_of phase _ = none

abbrev pub push : Option Binding → List Binding → List Binding
push none bindings = bindings
push (some b) bindings = b ∷ bindings

-- The dispatches since the Task entered its Phase, the latest one first.
abbrev pub bindings_from : Phase → List WorkflowEvent → List Binding
bindings_from phase [] = []
bindings_from phase (e ∷ older) =
    let rest = bindings_from phase older in
    elim (is_transition e.content.payload && eq_phase e.content.to.phase phase) [
      | true ↦ []
      | false ↦ push (binding_of phase e.content.payload) rest
    ]

abbrev pub answers : String → Payload → Bool
answers dispatch_id (phase_execution_result_accepted result) =
    is_agent_result result && str_eq result.dispatch_id dispatch_id
answers dispatch_id _ = false

abbrev pub has_result : String → WorkflowEvent → Bool
has_result dispatch_id e = answers dispatch_id e.content.payload

-- The first binding of the list is the latest dispatch.
abbrev pub latest_binding_failure : ExecutionResult → List Binding → Option Diagnostic
latest_binding_failure result [] =
    some (record { code = transition_illegal; path = field "result" ∷ field "dispatchId" ∷ [] })
latest_binding_failure result (b ∷ bindings) =
    unless (str_eq b.dispatch_id result.dispatch_id)
      (record { code = transition_illegal; path = field "result" ∷ field "dispatchId" ∷ [] })
    or_else unless (phase_execution_result_matches_binding result b)
        (at transition_illegal "result")

-- validatePhaseExecutionResultBinding. A result of another dispatch than the latest one is refused with
-- one diagnostic, whether or not that dispatch was accepted.
unfoldable pub validate_phase_execution_result_binding :
    Projection → List WorkflowEvent → ExecutionResult → Option Diagnostic
validate_phase_execution_result_binding p events result =
    unless (eq_phase result.phase p.phase)
      (record { code = transition_illegal; path = field "result" ∷ field "phase" ∷ [] })
    or_else latest_binding_failure result (bindings_from p.phase (newest_first events []))
    or_else unless (not (any (has_result result.dispatch_id) events))
        (record { code = transition_illegal; path = field "result" ∷ field "dispatchId" ∷ [] })

abbrev pub assessment_failure : ExecutionResult → Option ExecutionResult → Option Diagnostic
assessment_failure result none =
    some
      (record { code = transition_illegal; path = field "result" ∷ field "baseFingerprint" ∷ [] })
assessment_failure result (some implementation) =
    unless
      (str_eq result.base_fingerprint implementation.observed_final_fingerprint
        && str_eq result.observed_final_fingerprint implementation.observed_final_fingerprint)
      (record {
        code = transition_illegal;
        path = field "result" ∷ field "observedFinalFingerprint" ∷ [];
      })

unfoldable pub validate_build_review_result_payload :
    Projection → List WorkflowEvent → ExecutionResult → Bool → Option Diagnostic
validate_build_review_result_payload p events result require_structured =
    if in_build_review p
    then (unless (not require_structured || is_given result.review_findings)
          (record { code = request_invalid; path = field "result" ∷ field "reviewFindings" ∷ [] })
        or_else assessment_failure result (current_build_implementation_result events))
    else none

-- validatePhaseExecutionResultRequest
unfoldable pub validate_phase_execution_result_request :
    Bool → State → ResultRequest → Option Diagnostic
validate_phase_execution_result_request is_consistent state r =
    validate_phase_execution_request state r.contract_version r.task_id r.expected_version r.event
    or_else unless is_consistent (at state_inconsistent "state")
    or_else unless (is_agent_result r.result) (at request_invalid "result")
    or_else validate_phase_execution_result_binding state.projection state.events r.result
    or_else validate_build_review_result_payload state.projection state.events r.result true

pub ExecutionResult-discrete : Discrete ExecutionResult
ExecutionResult-discrete = hlevel (string_discrete, ℕ_discrete)

unfoldable pub matches_phase_execution_result_intent : ResultRequest → Content → Bool
matches_phase_execution_result_intent r e = elim e.payload [
  | phase_execution_result_accepted result ↦
      matches_request e r.task_id r.expected_version r.event
      && decided (ExecutionResult-discrete result r.result)
  | _ ↦ false
]

abbrev pub result_event : Host → State → ResultRequest → WorkflowEvent
result_event host state r =
    change_event host state r.event (phase_execution_result_accepted r.result) none

unfoldable pub record_phase_execution_result : Host → Bool → State → ResultRequest → Result
record_phase_execution_result host c state r =
    unless_refused (validate_event_metadata (field "event" ∷ []) r.event) state (
      retry_or (looks_back c state r.contract_version r.task_id)
        (find (has_key r.event.idempotency_key) state.events)
        (matches_phase_execution_result_intent r) state
        (unless_refused (validate_phase_execution_result_request c state r) state (
          appended state (result_event host state r)
            (touch state.projection (result_event host state r)))))
