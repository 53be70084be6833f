-- ===== src/Workflow/Transition/Sound.antt =====
-- The invariant that transitions keep (transitionWorkflow of packages/core/src/workflow.ts).
use say_hi.Prelude.{
  String, ◌+◌, ◌≤◌, ◌==◌, leb, ltb, ◌≡◌, refl, sym, ap, ◌∙◌, inl, inr, Bool, true, not, ◌&&◌, ◌||◌,
  Option, none, some, List, length, ◌or_else◌, or_else-both, Bool-cases, subst, arith,
}
use say_hi.Records.{review, implement, active, blocked, DependencyGraph, eq_lifecycle, eq_phase}
use say_hi.Workflow.Events.{
  Projection, WorkflowEvent, State, TransitionRequest, Host, Position, Diagnostic,
}
use say_hi.Workflow.Routes.Table.{find_transition-is_permitted, blocked_resumes}
use say_hi.Workflow.History.{count_repair_attempts}
use say_hi.Workflow.Guards.{
  given, validate_transition_invariants, validate_build_plan_implementation_transition,
  validate_build_implementation_result_transition, validate_build_review_result_transition,
}
use say_hi.Workflow.Transition.{
  guard_failure, blockers_after_transition, transition_event, project_transition_event, ok, after,
  transition_workflow,
}
use say_hi.Workflow.Transition.Accepted.{transition_workflow-accepted}
use say_hi.Workflow.Transition.Chain.{
  Chain, Chain-append, length-append, count_repair_attempts-append,
}

-- A blocked Task has blockers, and no other Task has any.
abbrev pub BlockersFit : Projection → Type 0
BlockersFit p = (length p.blockers == 0) ≡ not (eq_lifecycle p.lifecycle blocked)

-- The version is the number of events, which form a chain of digests; the repairs stay within the
-- policy; and the blockers fit.
abbrev pub IsSound : Host → State → Type 0
IsSound host s =
    Chain host none 0 s.events
    × (s.projection.version ≡ length s.events)
    × (count_repair_attempts s.events ≤ s.projection.task.policies.max_repair_attempts)
    × BlockersFit s.projection

pub fourth :
    (a b c d : Option Diagnostic) → a or_else b or_else c or_else d ≡ none → (c ≡ none) × (d ≡ none)
fourth none none c d h = or_else-both c d h
fourth none (some x) c d h = cc
fourth (some x) b c d h = cc

pub guards_end :
    (host : Host) (s : State) (r : TransitionRequest)
    → guard_failure host s r.to r.event.actor r.gates r.blockers ≡ none
    → validate_transition_invariants s.projection s.events r.to r.blockers ≡ none
unfolding guard_failure
guards_end host s r h =
    (fourth
      (validate_build_plan_implementation_transition host s.projection s.events r.to r.event.actor
        r.gates)
      (validate_build_implementation_result_transition s.projection s.events r.to)
      (validate_build_review_result_transition s.projection s.events r.to)
      (validate_transition_invariants s.projection s.events r.to r.blockers) h).1

-- The two tests on blockers and the one on repairs, apart.
pub invariants_hold :
    (p : Projection) (events : List WorkflowEvent) (to : Position) (blockers : Option (List String))
    → validate_transition_invariants p events to blockers ≡ none
    → (not (eq_lifecycle to.lifecycle blocked) || leb 1 (length (given blockers)) ≡ true)
      × (eq_lifecycle to.lifecycle blocked || length (given blockers) == 0 ≡ true)
      × (not (
              eq_lifecycle p.lifecycle active
              && eq_phase p.phase review
              && eq_lifecycle to.lifecycle active
              && eq_phase to.phase implement)
            || ltb (count_repair_attempts events) p.task.policies.max_repair_attempts
          ≡ true)
unfolding validate_transition_invariants
invariants_hold p events to blockers h = (ground arith, ground arith, ground arith)

pub blockers_after-Fit :
    (p : Projection) (r : TransitionRequest)
    → BlockersFit p
    → (eq_lifecycle p.lifecycle blocked ≡ true → eq_lifecycle r.to.lifecycle active ≡ true)
    → (not (eq_lifecycle r.to.lifecycle blocked) || leb 1 (length (given r.blockers)) ≡ true)
    → (length (blockers_after_transition p r) == 0) ≡ not (eq_lifecycle r.to.lifecycle blocked)
unfolding blockers_after_transition
blockers_after-Fit p r fit resumes given_some =
    elim (Bool-cases (eq_lifecycle r.to.lifecycle blocked)) [
      | inl b ↦ ground (arith, b)
      | inr b ↦ elim (Bool-cases (eq_lifecycle p.lifecycle blocked)) [
        | inl q ↦ ground (arith, b, q, resumes q)
        | inr q ↦ ground (arith, b, q)
      ]
    ]

repairs_after :
    (host : Host) (s : State) (r : TransitionRequest) (graph : Option DependencyGraph)
    → count_repair_attempts s.events ≤ s.projection.task.policies.max_repair_attempts
    → validate_transition_invariants s.projection s.events r.to r.blockers ≡ none
    → count_repair_attempts (after host s r graph).events
      ≤ s.projection.task.policies.max_repair_attempts
unfolding transition_event
repairs_after host s r graph bound h =
    let tested = (invariants_hold s.projection s.events r.to r.blockers h).2 in
    ground (arith, count_repair_attempts-append s.events (transition_event host s r graph))

after-IsSound :
    (host : Host) (s : State) (r : TransitionRequest) (graph : Option DependencyGraph)
    → IsSound host s
    → (eq_lifecycle s.projection.lifecycle blocked ≡ true
        → eq_lifecycle r.to.lifecycle active ≡ true)
    → validate_transition_invariants s.projection s.events r.to r.blockers ≡ none
    → IsSound host (after host s r graph)
unfolding transition_event project_transition_event
after-IsSound host s r graph (chain, version, repairs, fit) resumes h =
    let e = transition_event host s r graph in
    (
      Chain-append host s.events e chain (ap (λ n. n + 1) version) refl refl,
      ap (λ n. n + 1) version ∙ sym (length-append s.events e),
      repairs_after host s r graph repairs h,
      blockers_after-Fit s.projection r fit resumes
          (invariants_hold s.projection s.events r.to r.blockers h).0,
    )

-- An accepted transition leads from a sound state to a sound state: the events are a chain in which each
-- one has the next sequence, the digest of its content and the digest of the event before; the version
-- is their number; the repairs are within the Task's policy; and it has blockers exactly when it is
-- blocked.
pub transition_workflow-IsSound :
    (host : Host) (c : Bool) (s : State) (r : TransitionRequest) (s2 : State) (e : WorkflowEvent)
    → IsSound host s
    → transition_workflow host c s r ≡ ok s2 e
    → IsSound host s2
transition_workflow-IsSound host c s r s2 e sound h =
    elim (transition_workflow-accepted host c s r s2 e h) [
      | inl (found, is, matches, same) ↦ subst (IsSound host) (sym same) sound
      | inr (fresh, valid, (t, graph, found, (gates, guards, snapshot), state, event)) ↦
          subst (IsSound host) (sym state) (
            after-IsSound host s r graph sound
              (blocked_resumes s.projection.task.route s.projection.lifecycle s.projection.phase
                r.to.lifecycle r.to.phase (find_transition-is_permitted s.projection r.to t found))
              (guards_end host s r guards))
    ]
