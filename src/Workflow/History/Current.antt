-- ===== src/Workflow/History/Current.antt =====
-- What currentBuildImplementationResult and currentBuildReviewResults find in a history
-- (packages/core/src/workflow.ts).
use say_hi.Prelude.{
  ◌≡◌, refl, ◌⊎◌, inl, inr, true, false, Option, none, some, List, ◌∷◌, Bool-cases, arith, arith,
  subst,
}
use say_hi.Records.{Phase, implement, review, active}
use say_hi.Records.Equality.{eq_phase-true}
use say_hi.Workflow.Events.{
  Position, AgentRole, implementation, ReviewFinding, ExecutionResult, Payload,
  workflow_transitioned, phase_execution_result_accepted, WorkflowEvent,
}
use say_hi.Workflow.History.{
  from_phase, is_at, has_role, is_implementation_result, implementation_result_from,
  current_build_implementation_result, is_review_result, review_result_from,
  current_build_review_result,
}
use say_hi.Workflow.History.Latest.{
  IsEntry, IsImplementation, IsReview, IsPast, IsCurrent, search-IsCurrent,
}

has_role-true : (a b : AgentRole) → has_role a b ≡ true → a ≡ b
has_role-true a b h = ground arith

not_entered :
    (e : WorkflowEvent) (phase : Phase)
    → e.content.payload ≡ workflow_transitioned
    → is_at (some e.content.to) active phase ≡ false
    → ¬ IsEntry phase e
not_entered e phase p h (q, l, at) = ground (arith, l, at)

true_is_at :
    (o : Option Position) (phase : Phase)
    → from_phase o phase ≡ true
    → (at : Position) × (o ≡ some at) × (at.phase ≡ phase)
true_is_at none phase h = cc
true_is_at (some at) phase h = (at, refl, eq_phase-true at.phase phase h)

has_findings :
    (o : Option (List ReviewFinding))
    → elim o [ none ↦ false | some findings ↦ true ] ≡ true
    → (fs : List ReviewFinding) × (o ≡ some fs)
has_findings none h = cc
has_findings (some fs) h = (fs, refl)

is_review_result-IsReview :
    (role : AgentRole) (e : WorkflowEvent) (r : ExecutionResult)
    → e.content.payload ≡ phase_execution_result_accepted r
    → is_review_result role e r ≡ true
    → IsReview role e r
is_review_result-IsReview role e r q h = (
  (
    q,
    true_is_at e.content.from review (ground (arith, h)),
    eq_phase-true r.phase review (ground (arith, h)),
    has_role-true r.agent_role role (ground (arith, h)),
  ),
  has_findings r.review_findings (ground (arith, h)),
)

IsReview-is_review_result :
    (role : AgentRole) (e : WorkflowEvent) (r : ExecutionResult)
    → has_role role role ≡ true
    → IsReview role e r
    → is_review_result role e r ≡ true
IsReview-is_review_result role e r known ((q, (at, from, p), phase, is), (fs, some_fs)) =
    rw (from, p, phase, is, some_fs, known) refl

is_implementation_result-IsImplementation :
    (e : WorkflowEvent) (r : ExecutionResult)
    → e.content.payload ≡ phase_execution_result_accepted r
    → is_implementation_result e r ≡ true
    → IsImplementation e r
is_implementation_result-IsImplementation e r q h = (
  (
    q,
    true_is_at e.content.from implement (ground (arith, h)),
    eq_phase-true r.phase implement (ground (arith, h)),
    has_role-true r.agent_role implementation (ground (arith, h)),
  ),
  ground (arith, h),
  ground (arith, h),
)

IsImplementation-is_implementation_result :
    (e : WorkflowEvent) (r : ExecutionResult)
    → IsImplementation e r
    → is_implementation_result e r ≡ true
IsImplementation-is_implementation_result e r ((q, (at, from, p), phase, is), ended, identity) =
    rw (from, p, phase, is, ended, identity) refl

-- An accepted result determines its event's payload.
same_result :
    (e : WorkflowEvent) (r x : ExecutionResult)
    → e.content.payload ≡ phase_execution_result_accepted r
    → e.content.payload ≡ phase_execution_result_accepted x
    → x ≡ r
same_result e r x p q = ground (arith, p, q)

at_review_event :
    (role : AgentRole) (e : WorkflowEvent) (older : List WorkflowEvent) (r : ExecutionResult)
    (p : Payload)
    → has_role role role ≡ true
    → e.content.payload ≡ p
    → review_result_from role (e ∷ older) ≡ some r
    → IsReview role e r
      ⊎ (IsPast review (IsReview role) e × (review_result_from role older ≡ some r))
at_review_event role e older r workflow_transitioned known q h =
    elim (Bool-cases (is_at (some e.content.to) active review)) [
      | inl enters ↦ ground (arith, q, enters)
      | inr stays ↦
          inr
            ((not_entered e review q stays, (λ x accepts. cc (accepts.0.0, q))), rw (q, stays) at h)
    ]
at_review_event role e older r (phase_execution_result_accepted x) known q h =
    elim (Bool-cases (is_review_result role e x)) [
      | inl hit ↦
          let is : some x ≡ some r = rw (q, hit) at h in
          let same : x ≡ r = ground arith in
          inl (subst (IsReview role e) same (is_review_result-IsReview role e x q hit))
      | inr miss ↦ inr (
        (
          (λ entry. cc (entry.0, q)),
          (λ y accepts. cc (
            miss,
            IsReview-is_review_result role e y known accepts,
            same_result e x y q accepts.0.0,
          )),
        ),
        rw (q, miss) at h,
      )
    ]
at_review_event role e older r p known q h =
    inr (((λ entry. cc (entry.0, q)), (λ x accepts. cc (accepts.0.0, q))), rw q at h)

at_implement_event :
    (e : WorkflowEvent) (older : List WorkflowEvent) (r : ExecutionResult) (p : Payload)
    → e.content.payload ≡ p
    → implementation_result_from (e ∷ older) ≡ some r
    → IsImplementation e r
      ⊎ (IsPast implement IsImplementation e × (implementation_result_from older ≡ some r))
at_implement_event e older r workflow_transitioned q h =
    elim (Bool-cases (is_at (some e.content.to) active implement)) [
      | inl enters ↦ ground (arith, q, enters)
      | inr stays ↦ inr (
        (not_entered e implement q stays, (λ x accepts. cc (accepts.0.0, q))),
        rw (q, stays) at h,
      )
    ]
at_implement_event e older r (phase_execution_result_accepted x) q h =
    elim (Bool-cases (is_implementation_result e x)) [
      | inl hit ↦
          let is : some x ≡ some r = rw (q, hit) at h in
          let same : x ≡ r = ground arith in
          inl
            (subst (IsImplementation e) same (is_implementation_result-IsImplementation e x q hit))
      | inr miss ↦ inr (
        (
          (λ entry. cc (entry.0, q)),
          (λ y accepts. cc (
            miss,
            IsImplementation-is_implementation_result e y accepts,
            same_result e x y q accepts.0.0,
          )),
        ),
        rw (q, miss) at h,
      )
    ]
at_implement_event e older r p q h =
    inr (((λ entry. cc (entry.0, q)), (λ x accepts. cc (accepts.0.0, q))), rw q at h)

-- A current Review of a role is the last accepted Review of that role since the Task has entered Review.
pub current_build_review_result-IsCurrent :
    (role : AgentRole) (events : List WorkflowEvent) (r : ExecutionResult)
    → has_role role role ≡ true
    → current_build_review_result role events ≡ some r
    → IsCurrent review (IsReview role) events r
unfolding current_build_review_result
current_build_review_result-IsCurrent role events r known h =
    search-IsCurrent review (IsReview role) (review_result_from role)
      (λ e older x here. at_review_event role e older x e.content.payload known refl here) events r
      (λ nothing. cc nothing) h

-- The current Implementation result is the last accepted one that succeeded since the Task has entered
-- Implement.
pub current_build_implementation_result-IsCurrent :
    (events : List WorkflowEvent) (r : ExecutionResult)
    → current_build_implementation_result events ≡ some r
    → IsCurrent implement IsImplementation events r
unfolding current_build_implementation_result
current_build_implementation_result-IsCurrent events r h =
    search-IsCurrent implement IsImplementation implementation_result_from
      (λ e older x here. at_implement_event e older x e.content.payload refl here) events r
      (λ nothing. cc nothing) h
