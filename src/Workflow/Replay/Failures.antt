-- ===== src/Workflow/Replay/Failures.antt =====
-- The tests that the replay makes of an event by its type (replayWorkflowEvents of
-- packages/core/src/workflow.ts).
use say_hi.Prelude.{
  ℕ, String, false, ◌&&◌, Option, none, some, [], ◌∷◌, length, is_none, ◌or_else◌, unless,
}
use say_hi.Records.{field, index, JsonPath}
use say_hi.Workflow.Events.{
  Binding, ExecutionResult, PlanChange, PlanMaterial, Content, State, Host, transition_illegal,
  Diagnostic,
}
use say_hi.Workflow.Routes.{Transition, find_transition}
use say_hi.Workflow.Gates.{validate_gates}
use say_hi.Workflow.Transition.{guard_failure}
use say_hi.Workflow.Execution.{is_binding, is_agent_result}
use say_hi.Workflow.Payloads.{event_failure}
use say_hi.Workflow.Changes.Dispatch.{
  is_approved_identity, validate_phase_execution_dispatch_binding,
  validate_build_review_dispatch_binding,
}
use say_hi.Workflow.Changes.Outcomes.{
  validate_phase_execution_result_binding, validate_build_review_result_payload,
}
use say_hi.Workflow.Replay.Envelope.{
  is_phase_execution_event_envelope, is_plan_envelope, is_plan_sequence, continues,
}

abbrev pub in_event : ℕ → String → JsonPath
in_event i name = index i ∷ field name ∷ []

abbrev pub relocated : JsonPath → Option Diagnostic → Option Diagnostic
relocated path none = none
relocated path (some d) = some (record d { path = path })

unfoldable pub dispatch_replay_failure : State → Content → String → Binding → Option Diagnostic
dispatch_replay_failure s e identity b =
    let i = length s.events in
    unless
      (is_phase_execution_event_envelope e s.projection
        && is_binding b
        && is_approved_identity s.events identity)
      (event_failure i)
    or_else relocated (in_event i "binding")
        (validate_phase_execution_dispatch_binding s.projection b)
    or_else relocated (in_event i "binding")
        (validate_build_review_dispatch_binding s.projection s.events b)

unfoldable pub result_replay_failure : State → Content → ExecutionResult → Option Diagnostic
result_replay_failure s e result =
    unless
      (is_phase_execution_event_envelope e s.projection
        && is_agent_result result
        && is_none (validate_phase_execution_result_binding s.projection s.events result)
        && is_none (validate_build_review_result_payload s.projection s.events result false))
      (event_failure (length s.events))

unfoldable pub plan_replay_failure :
    Host → State → Content → PlanChange → PlanMaterial → Option Diagnostic
plan_replay_failure host s e change material =
    unless (is_plan_envelope host s e material) (event_failure (length s.events))
    or_else unless (is_plan_sequence s.events e.actor change material)
        (event_failure (length s.events))

abbrev pub gates_failure : ℕ → Option Transition → Content → Option Diagnostic
gates_failure i none e = some (record { code = transition_illegal; path = in_event i "to" })
gates_failure i (some t) e =
    relocated (in_event i "gates") (validate_gates t.required_gates e.gates)

-- The tests of a transition before the one that yields its graph.
unfoldable pub transition_replay_failure : Host → State → Content → Option Diagnostic
transition_replay_failure host s e =
    let i = length s.events in
    unless (continues e s.projection) (event_failure i)
    or_else gates_failure i (find_transition s.projection e.to) e
    or_else relocated (index i ∷ []) (guard_failure host s e.to e.actor e.gates (some e.blockers))
