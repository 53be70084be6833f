-- ===== src/Workflow/History/Latest.antt =====
-- Where the current results stand in a history (currentBuildImplementationResult and
-- currentBuildReviewResults of packages/core/src/workflow.ts).
use say_hi.Prelude.{◌≡◌, refl, ap, ◌⊎◌, inl, inr, true, Option, some, List, [], ◌∷◌, ◌++◌, All}
use say_hi.Records.{Phase, implement, review, active}
use say_hi.Validation.{is_contract_identity}
use say_hi.Workflow.Events.{
  Position, AgentRole, implementation, succeeded, ReviewFinding, ExecutionResult,
  workflow_transitioned, phase_execution_result_accepted, WorkflowEvent,
}
use say_hi.Workflow.History.{newest_first}

-- The event accepts a result of a Phase execution of the active Phase and of a role.
abbrev pub IsResult : Phase → AgentRole → WorkflowEvent → ExecutionResult → Type 0
IsResult phase role e r =
    (e.content.payload ≡ phase_execution_result_accepted r)
    × ((at : Position) × (e.content.from ≡ some at) × (at.phase ≡ phase))
    × (r.phase ≡ phase)
    × (r.agent_role ≡ role)

-- The event takes the Task into an active Phase.
abbrev pub IsEntry : Phase → WorkflowEvent → Type 0
IsEntry phase e =
    (e.content.payload ≡ workflow_transitioned)
    × (e.content.to.lifecycle ≡ active)
    × (e.content.to.phase ≡ phase)

abbrev pub IsImplementation : WorkflowEvent → ExecutionResult → Type 0
IsImplementation e r =
    IsResult implement implementation e r
    × (r.outcome ≡ succeeded)
    × (is_contract_identity r.observed_final_fingerprint ≡ true)

abbrev pub IsReview : AgentRole → WorkflowEvent → ExecutionResult → Type 0
IsReview role e r =
    IsResult review role e r × ((fs : List ReviewFinding) × (r.review_findings ≡ some fs))

-- The event neither takes the Task into the active Phase nor accepts such a result.
abbrev pub IsPast : Phase → (WorkflowEvent → ExecutionResult → Type 0) → WorkflowEvent → Type 0
IsPast phase Accepts f = (¬ IsEntry phase f) × ((x : ExecutionResult) → Accepts f x → ⊥)

-- The last result of a history: an event accepts it, and no later event accepts another one or takes the
-- Task into the active Phase.
abbrev pub IsCurrent :
    Phase
    → (WorkflowEvent → ExecutionResult → Type 0)
    → List WorkflowEvent
    → ExecutionResult
    → Type 0
IsCurrent phase Accepts events r =
    (before : List WorkflowEvent) × (e : WorkflowEvent) × (later : List WorkflowEvent) × (events
      ≡ before ++ e ∷ later)
    × Accepts e r
    × All (IsPast phase Accepts) later

-- A search that runs down from the last event, by what it does at one event.
module _ (phase : Phase) (Accepts : WorkflowEvent → ExecutionResult → Type 0)
    (from : List WorkflowEvent → Option ExecutionResult)
    (at_event : (e : WorkflowEvent) (older : List WorkflowEvent) (r : ExecutionResult)
      → from (e ∷ older) ≡ some r
      → Accepts e r ⊎ (IsPast phase Accepts e × (from older ≡ some r))) where
  newest_first-IsCurrent :
      (events older : List WorkflowEvent) (r : ExecutionResult)
      → from (newest_first events older) ≡ some r
      → IsCurrent phase Accepts events r
        ⊎ (All (IsPast phase Accepts) events × (from older ≡ some r))
  newest_first-IsCurrent [] older r h = inr (tt, h)
  newest_first-IsCurrent (x ∷ events) older r h =
      elim (newest_first-IsCurrent events (x ∷ older) r h) [
        | inl (before, e, later, is, accepts, past) ↦
            inl (x ∷ before, e, later, ap (λ l. x ∷ l) is, accepts, past)
        | inr (past, here) ↦ elim (at_event x older r here) [
          | inl accepts ↦ inl ([], x, events, refl, accepts, past)
          | inr (passed, rest) ↦ inr ((passed, past), rest)
        ]
      ]

  pub search-IsCurrent :
      (events : List WorkflowEvent) (r : ExecutionResult)
      → ¬ (from [] ≡ some r)
      → from (newest_first events []) ≡ some r
      → IsCurrent phase Accepts events r
  search-IsCurrent events r empty h = elim (newest_first-IsCurrent events [] r h) [
    | inl current ↦ current
    | inr (past, nothing) ↦ elim (empty nothing) [ ]
  ]
