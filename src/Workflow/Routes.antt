-- ===== src/Workflow/Routes.antt =====
-- The transitions that each Route permits (routeDefinitions and findTransition of
-- packages/core/src/workflow.ts).
pub mod Table
use say_hi.Prelude.{
  Bool, ◌&&◌, ◌||◌, String, str_eq, Option, List, [], ◌∷◌, ◌++◌, find, if◌then◌else◌,
}
use say_hi.Records.{
  Route, quick, build, initiative, Phase, triage, explore, plan, implement, review, integrate,
  finish, Lifecycle, active, blocked, completed, archived, cancelled, Gate, to_route, to_explore,
  to_plan, to_implement, to_review, to_integrate, to_finish, initiative_ready, replan,
  review_repair, block, resume, cancel, archive, eq_phase, eq_lifecycle,
}
use say_hi.Workflow.Events.{Position, Projection}

-- WorkflowTransition
pub record Transition : Type 0 where
  pub from : Position
  pub to : Position
  pub required_gates : List Gate

abbrev pub transition_step : Lifecycle → String
transition_step completed = "completed"
transition_step archived = "archived"
transition_step _ = "ready"

-- routeTransition
abbrev pub transition : Lifecycle → Phase → Lifecycle → Phase → List Gate → Transition
transition l p l2 p2 gates = record {
  from = record { lifecycle = l; phase = p; step = transition_step l };
  to = record { lifecycle = l2; phase = p2; step = transition_step l2 };
  required_gates = gates;
}

-- What every Phase of a Route permits.
abbrev pub phase_transitions : List Phase → List Transition
phase_transitions [] = []
phase_transitions (p ∷ ps) =
    transition active p blocked p (block ∷ [])
    ∷ transition blocked p active p (resume ∷ [])
    ∷ transition active p cancelled p (cancel ∷ [])
    ∷ phase_transitions ps

abbrev pub lifecycle_transitions : List Phase → List Transition
lifecycle_transitions phases =
    phase_transitions phases ++ transition completed finish archived finish (archive ∷ []) ∷ []

-- The `phases` of routeDefinitions.
abbrev pub phases_of : Route → List Phase
phases_of quick = triage ∷ implement ∷ review ∷ finish ∷ []
phases_of build = triage ∷ explore ∷ plan ∷ implement ∷ review ∷ finish ∷ []
phases_of initiative = triage ∷ explore ∷ plan ∷ integrate ∷ finish ∷ []

abbrev pub route_transitions : Route → List Transition
route_transitions quick =
    transition active triage active implement (to_route ∷ [])
    ∷ transition active implement active review (to_implement ∷ [])
    ∷ transition active review active implement (review_repair ∷ [])
    ∷ transition active review active finish (to_review ∷ [])
    ∷ transition active finish completed finish (to_finish ∷ [])
    ∷ []
route_transitions build =
    transition active triage active explore (to_route ∷ [])
    ∷ transition active explore active plan (to_explore ∷ [])
    ∷ transition active plan active implement (to_plan ∷ [])
    ∷ transition active implement active plan (replan ∷ [])
    ∷ transition active implement active review (to_implement ∷ [])
    ∷ transition active review active implement (review_repair ∷ [])
    ∷ transition active review active finish (to_review ∷ [])
    ∷ transition active finish completed finish (to_finish ∷ [])
    ∷ []
route_transitions initiative =
    transition active triage active explore (to_route ∷ [])
    ∷ transition active explore active plan (to_explore ∷ [])
    ∷ transition active plan active integrate (to_plan ∷ initiative_ready ∷ [])
    ∷ transition active integrate active finish (to_integrate ∷ [])
    ∷ transition active finish completed finish (to_finish ∷ [])
    ∷ []

-- routeDefinitions, the `transitions` of each Route.
abbrev pub transitions_of : Route → List Transition
transitions_of route = route_transitions route ++ lifecycle_transitions (phases_of route)

abbrev pub positions_equal : Position → Position → Bool
positions_equal a b =
    eq_lifecycle a.lifecycle b.lifecycle && eq_phase a.phase b.phase && str_eq a.step b.step

abbrev pub position_of : Projection → Position
position_of p = record { lifecycle = p.lifecycle; phase = p.phase; step = p.step }

abbrev pub goes : Position → Position → Transition → Bool
goes from to candidate = positions_equal candidate.from from && positions_equal candidate.to to

unfoldable pub find_transition : Projection → Position → Option Transition
find_transition p to = find (goes (position_of p) to) (transitions_of p.task.route)
