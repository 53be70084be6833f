-- ===== src/Workflow/Routes/Table.antt =====
-- What the table of transitions permits (routeDefinitions of packages/core/src/workflow.ts), without the
-- table.
use say_hi.Prelude.{
  ◌≡◌, refl, sym, ap, ◌∙◌, inl, inr, Bool, true, false, ◌&&◌, ◌||◌, some, List, [], ◌∷◌, find, all,
  Bool-cases, &&-both, arith,
}
use say_hi.Records.{
  Route, quick, build, initiative, Phase, plan, implement, review, finish, Lifecycle, proposed,
  active, blocked, completed, archived, cancelled, eq_phase, eq_lifecycle,
}
use say_hi.Records.Equality.{eq_phase-true, eq_lifecycle-true}
use say_hi.Workflow.Events.{Position, Projection}
use say_hi.Workflow.Routes.{
  Transition, phases_of, transitions_of, positions_equal, position_of, goes, find_transition,
}

-- One Phase stands right before the other.
abbrev pub is_next : List Phase → Phase → Phase → Bool
is_next (a ∷ b ∷ phases) x y = eq_phase a x && eq_phase b y || is_next (b ∷ phases) x y
is_next _ x y = false

abbrev includes_phase : List Phase → Phase → Bool
includes_phase [] x = false
includes_phase (p ∷ phases) x = eq_phase p x || includes_phase phases x

-- The moves back: a repair, and in a Build a new plan.
abbrev pub is_return : Route → Phase → Phase → Bool
is_return quick x y = eq_phase x review && eq_phase y implement
is_return build x y =
    eq_phase x review && eq_phase y implement || eq_phase x implement && eq_phase y plan
is_return initiative x y = false

-- The moves between lifecycles, and what they ask of the Phases.
abbrev pub is_permitted : Route → Lifecycle → Phase → Lifecycle → Phase → Bool
is_permitted route active x active y = is_next (phases_of route) x y || is_return route x y
is_permitted route active x blocked y = eq_phase x y && includes_phase (phases_of route) x
is_permitted route active x cancelled y = eq_phase x y && includes_phase (phases_of route) x
is_permitted route active x completed y = eq_phase x finish && eq_phase y finish
is_permitted route blocked x active y = eq_phase x y && includes_phase (phases_of route) x
is_permitted route completed x archived y = eq_phase x finish && eq_phase y finish
is_permitted route _ x _ y = false

find-all :
    (f q : Transition → Bool) (ts : List Transition) (t : Transition)
    → all q ts ≡ true
    → find f ts ≡ some t
    → (f t ≡ true) × (q t ≡ true)
find-all f q [] t h e = cc
find-all f q (x ∷ ts) t h e = elim (Bool-cases (f x)) [
  | inl hit ↦
      let same : x ≡ t = ground (arith, hit) in
      (ap f (sym same) ∙ hit, ap q (sym same) ∙ ground arith)
  | inr miss ↦ find-all f q ts t (ground arith) (ground (arith, miss))
]

-- A test of every entry of the table is a test of the transition that is found, which goes from the
-- projection's position to the target.
pub find_transition-all :
    (q : Transition → Bool) (p : Projection) (to : Position) (t : Transition)
    → all q (transitions_of p.task.route) ≡ true
    → find_transition p to ≡ some t
    → (goes (position_of p) to t ≡ true) × (q t ≡ true)
unfolding find_transition
find_transition-all q p to t h e =
    find-all (goes (position_of p) to) q (transitions_of p.task.route) t h e

same_place :
    (a b : Position)
    → positions_equal a b ≡ true
    → (a.lifecycle ≡ b.lifecycle) × (a.phase ≡ b.phase)
same_place a b h = (
  eq_lifecycle-true a.lifecycle b.lifecycle (ground arith),
  eq_phase-true a.phase b.phase (ground arith),
)

permits : Route → Transition → Bool
permits route t = is_permitted route t.from.lifecycle t.from.phase t.to.lifecycle t.to.phase

table_permits : (route : Route) → all (permits route) (transitions_of route) ≡ true
unfolding permits
table_permits quick = refl
table_permits build = refl
table_permits initiative = refl

-- A transition that a Route permits goes between active Phases to the next Phase of the Route, back
-- from Review to Implement or, in a Build, back from Implement to Plan; it blocks or cancels an active
-- Task or resumes a blocked one in the Phase in which the Task is; or it completes an active Task in
-- Finish or archives a completed one. There is no other: nothing leaves archived, cancelled or proposed.
pub find_transition-is_permitted :
    (p : Projection) (to : Position) (t : Transition)
    → find_transition p to ≡ some t
    → is_permitted p.task.route p.lifecycle p.phase to.lifecycle to.phase ≡ true
unfolding permits
find_transition-is_permitted p to t h =
    let (gone, good) =
      find_transition-all (permits p.task.route) p to t (table_permits p.task.route) h in
    let (here, there) =
      &&-both (positions_equal t.from (position_of p)) (positions_equal t.to to) gone in
    let (l, x) = same_place t.from (position_of p) here in
    let (l2, y) = same_place t.to to there in cc (good, l, x, l2, y)

-- A blocked Task goes nowhere but to active.
pub blocked_resumes :
    (route : Route) (l : Lifecycle) (x : Phase) (l2 : Lifecycle) (y : Phase)
    → is_permitted route l x l2 y ≡ true
    → eq_lifecycle l blocked ≡ true
    → eq_lifecycle l2 active ≡ true
blocked_resumes route blocked x active y h e = refl
blocked_resumes route blocked x proposed y h e = cc
blocked_resumes route blocked x blocked y h e = cc
blocked_resumes route blocked x completed y h e = cc
blocked_resumes route blocked x archived y h e = cc
blocked_resumes route blocked x cancelled y h e = cc
blocked_resumes route proposed x l2 y h e = cc
blocked_resumes route active x l2 y h e = cc
blocked_resumes route completed x l2 y h e = cc
blocked_resumes route archived x l2 y h e = cc
blocked_resumes route cancelled x l2 y h e = cc
