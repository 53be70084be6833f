-- ===== src/Workflow/Transition/Reviewed.antt =====
-- What the Reviews of a Build promise (validateBuildReviewResultTransition, and transitionWorkflow, of
-- packages/core/src/workflow.ts).
use say_hi.Prelude.{
  find, In, List, [], ◌∷◌, ◌≡◌, refl, ap, inl, inr, Bool, true, false, String, str_eq, str_eq_iff,
  Option, none, some, List, any, ◌or_else◌, &&-both, arith,
}
use say_hi.Records.{implement, review, finish, eq_phase}
use say_hi.Workflow.Events.{
  Position, Projection, WorkflowEvent, State, TransitionRequest, Host, Diagnostic, ExecutionResult,
  standards_review, spec_review, Outcome, succeeded, blocking, ReviewFinding,
}
use say_hi.Workflow.History.{
  is_blocking, has_blocking_review_finding, has_succeeded, current_build_implementation_result,
  current_build_review_result,
}
use say_hi.Workflow.History.Latest.{IsImplementation, IsReview, IsCurrent}
use say_hi.Workflow.History.Current.{
  current_build_implementation_result-IsCurrent, current_build_review_result-IsCurrent,
}
use say_hi.Workflow.Guards.{
  build_moves, assesses, verdict, reviews_failure, validate_build_plan_implementation_transition,
  validate_build_implementation_result_transition, validate_build_review_result_transition,
  validate_transition_invariants,
}
use say_hi.Workflow.Transition.{has_key, guard_failure, ok, transition_workflow}
use say_hi.Workflow.Transition.Accepted.{transition_workflow-accepted}
use say_hi.Workflow.Transition.Sound.{fourth}

-- No finding of a result is blocking.
abbrev pub IsUnblocked : ExecutionResult → Type 0
IsUnblocked r =
    (fs : List ReviewFinding)
    → r.review_findings ≡ some fs
    → (f : ReviewFinding) → In f fs
    → ¬ (f.severity ≡ blocking)

-- A Review whose base and final fingerprints are the one given, successful and without a blocking finding.
abbrev pub Approves : String → ExecutionResult → Type 0
Approves fingerprint r =
    (r.base_fingerprint ≡ fingerprint)
    × (r.observed_final_fingerprint ≡ fingerprint)
    × (r.outcome ≡ succeeded)
    × IsUnblocked r

-- The history has a current Implementation result, and a current Standards and a current Spec Review that
-- approve its final fingerprint.
abbrev pub IsReviewed : List WorkflowEvent → Type 0
IsReviewed events =
    (built : ExecutionResult) × (standards : ExecutionResult) × (spec : ExecutionResult) × IsCurrent
      implement IsImplementation events built
    × IsCurrent review (IsReview standards_review) events standards
    × IsCurrent review (IsReview spec_review) events spec
    × Approves built.observed_final_fingerprint standards
    × Approves built.observed_final_fingerprint spec

findings-unblocked :
    (fs : List ReviewFinding) (f : ReviewFinding)
    → any (λ x. is_blocking x.severity) fs ≡ false
    → In f fs
    → ¬ (f.severity ≡ blocking)
findings-unblocked [] f h i = elim i [ ]
findings-unblocked (x ∷ fs) f h (inl is) =
    λ bad. ground (arith, h, ap (λ y. is_blocking y.severity) is, ap is_blocking bad)
findings-unblocked (x ∷ fs) f h (inr i) = findings-unblocked fs f (ground (arith, h)) i

result-IsUnblocked : (r : ExecutionResult) → has_blocking_review_finding r ≡ false → IsUnblocked r
result-IsUnblocked r h fs is f i = findings-unblocked fs f (rw is at h) i

has_succeeded-true : (o : Outcome) → has_succeeded o ≡ true → o ≡ succeeded
has_succeeded-true o h = ground arith

assessed :
    (fingerprint : String) (result : ExecutionResult)
    → assesses fingerprint result ≡ true
    → (result.base_fingerprint ≡ fingerprint) × (result.observed_final_fingerprint ≡ fingerprint)
assessed fingerprint result h =
    let (base, final) =
      &&-both (str_eq result.base_fingerprint fingerprint)
        (str_eq result.observed_final_fingerprint fingerprint) h in
    (
      (str_eq_iff result.base_fingerprint fingerprint).0 base,
      (str_eq_iff result.observed_final_fingerprint fingerprint).0 final,
    )

review-Approves :
    (fingerprint : String) (r : ExecutionResult)
    → assesses fingerprint r ≡ true
    → has_succeeded r.outcome ≡ true
    → has_blocking_review_finding r ≡ false
    → Approves fingerprint r
review-Approves fingerprint r fits ended open_findings =
    let (base, final) = assessed fingerprint r fits in
    (base, final, has_succeeded-true r.outcome ended, result-IsUnblocked r open_findings)

reviewed :
    (events : List WorkflowEvent) (i a b : Option ExecutionResult)
    → current_build_implementation_result events ≡ i
    → current_build_review_result standards_review events ≡ a
    → current_build_review_result spec_review events ≡ b
    → reviews_failure true i a b ≡ none
    → IsReviewed events
reviewed events none a b p q w h = cc
reviewed events (some i) none b p q w h = cc
reviewed events (some i) (some a) none p q w h = cc
reviewed events (some i) (some a) (some b) p q w h =
    let both =
      &&-both (assesses i.observed_final_fingerprint a) (assesses i.observed_final_fingerprint b)
        (ground arith) in
    let passed : verdict true a b ≡ true = ground (arith, both.0, both.1) in
    (
      i,
      a,
      b,
      current_build_implementation_result-IsCurrent events i p,
      current_build_review_result-IsCurrent standards_review events a refl q,
      current_build_review_result-IsCurrent spec_review events b refl w,
      review-Approves i.observed_final_fingerprint a both.0 (ground arith) (ground arith),
      review-Approves i.observed_final_fingerprint b both.1 (ground arith) (ground arith),
    )

reviews_pass :
    (p : Projection) (events : List WorkflowEvent) (to : Position)
    → build_moves p to ≡ true
    → eq_phase p.phase review ≡ true
    → eq_phase to.phase finish ≡ true
    → validate_build_review_result_transition p events to ≡ none
    → reviews_failure true
        (current_build_implementation_result events)
        (current_build_review_result standards_review events)
        (current_build_review_result spec_review events)
      ≡ none
unfolding validate_build_review_result_transition
reviews_pass p events to m x y h = rw (m, x, y) at h

third : (a b c d : Option Diagnostic) → a or_else b or_else c or_else d ≡ none → c ≡ none
third a b c d h = (fourth a b c d h).0

-- An accepted transition of an active Build from Review to Finish, by a request whose key is not in the
-- history, has a history with a successful Implementation result, the last one since the last entry into
-- Implement, a result of the Standards Review and one of the Spec Review, each the last one of its role
-- since the last entry into Review. Both Reviews have the final fingerprint of the Implementation as
-- their base and as their final one, both succeeded, and neither has a blocking finding.
pub transition_workflow-IsReviewed :
    (host : Host) (c : Bool) (s : State) (r : TransitionRequest) (s2 : State) (e : WorkflowEvent)
    → transition_workflow host c s r ≡ ok s2 e
    → find (has_key r.event.idempotency_key) s.events ≡ none
    → build_moves s.projection r.to ≡ true
    → eq_phase s.projection.phase review ≡ true
    → eq_phase r.to.phase finish ≡ true
    → IsReviewed s.events
unfolding guard_failure
transition_workflow-IsReviewed host c s r s2 e h new m x y =
    elim (transition_workflow-accepted host c s r s2 e h) [
      | inl (found, is, matches, same) ↦ cc (found, new)
      | inr (fresh, valid, (t, graph, found, (gates, guards, snap), state, event)) ↦
          reviewed s.events (current_build_implementation_result s.events)
            (current_build_review_result standards_review s.events)
            (current_build_review_result spec_review s.events) refl refl refl
            (reviews_pass s.projection s.events r.to m x y (
              third
                (validate_build_plan_implementation_transition host s.projection s.events r.to
                  r.event.actor r.gates)
                (validate_build_implementation_result_transition s.projection s.events r.to)
                (validate_build_review_result_transition s.projection s.events r.to)
                (validate_transition_invariants s.projection s.events r.to r.blockers) guards))
    ]
