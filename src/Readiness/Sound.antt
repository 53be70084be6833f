-- ===== src/Readiness/Sound.antt =====
-- What it takes for a Task to be in the frontier of an Initiative
-- (packages/core/src/initiative-readiness.ts).
use say_hi.Prelude.{
  ◌≡◌, refl, sym, ap, ◌∙◌, inl, inr, String, str_eq, Bool, true, false, ◌||◌, Option, some, List,
  [], ◌∷◌, All, Bool-cases, Option-cases, arith,
}
use say_hi.Records.{build, blocks, Edge, eq_route, eq_edge_type}
use say_hi.Workflow.Events.{State}
use say_hi.Readiness.{
  Readiness, ready, waiting, blocked, completed, ReadinessTask, ReadinessNode, Standing, is_done,
  readiness_for_task, own_standing, last_with, requires_initiative_triage_context,
  has_accepted_route_gate,
}
use say_hi.Readiness.Derive.{
  eq_readiness, readiness_index, Findings, weigh_edge, weigh_edges, concluded, settled, derive_with,
}

-- The Task of an identifier can be started: it is an active Build in Triage whose Route Gate a human has
-- approved, with a valid Context.
abbrev pub IsStartable : List ReadinessTask → String → Type 0
IsStartable tasks id =
    (t : ReadinessTask) × (s : State) × (last_with (λ x. str_eq x.task_id id) tasks ≡ some t)
    × (t.state ≡ some s)
    × (requires_initiative_triage_context s ≡ true)
    × (has_accepted_route_gate s ≡ true)
    × (t.has_valid_context ≡ true)

-- The Task of an identifier is a Build that is completed or archived.
abbrev pub IsDone : List ReadinessTask → String → Type 0
IsDone tasks id =
    (t : ReadinessTask) × (s : State) × (last_with (λ x. str_eq x.task_id id) tasks ≡ some t)
    × (t.state ≡ some s)
    × (eq_route s.projection.task.route build ≡ true)
    × (is_done s ≡ true)

ready_state :
    (id : String) (s : State) (c : Bool)
    → eq_readiness (readiness_for_task id (some s) c).readiness ready ≡ true
    → (requires_initiative_triage_context s ≡ true)
      × (has_accepted_route_gate s ≡ true)
      × (c ≡ true)
unfolding readiness_for_task
ready_state id s c h = (ground arith, ground arith, ground arith)

completed_state :
    (id : String) (s : State) (c : Bool)
    → eq_readiness (readiness_for_task id (some s) c).readiness completed ≡ true
    → (eq_route s.projection.task.route build ≡ true) × (is_done s ≡ true)
unfolding readiness_for_task
completed_state id s c h = (ground arith, ground arith)

-- A standing that a missing Task does not have comes from the state of a Task.
standing_state :
    (tasks : List ReadinessTask) (id : String) (readiness : Readiness)
    → eq_readiness waiting readiness ≡ false
    → eq_readiness (own_standing tasks id).readiness readiness ≡ true
    → (t : ReadinessTask) × (s : State) × (last_with (λ x. str_eq x.task_id id) tasks ≡ some t)
      × (t.state ≡ some s)
      × (eq_readiness (readiness_for_task id (some s) t.has_valid_context).readiness readiness
          ≡ true)
unfolding readiness_for_task
standing_state tasks id readiness other h =
    elim (Option-cases (last_with (λ x. str_eq x.task_id id) tasks)) [
      | inl missing ↦ ground (arith, missing)
      | inr (t, found) ↦ elim (Option-cases t.state) [
        | inl no_state ↦ ground (arith, found, no_state)
        | inr (s, is) ↦ (t, s, found, is, ground (arith, found, is))
      ]
    ]

pub ready-IsStartable :
    (tasks : List ReadinessTask) (id : String)
    → eq_readiness (own_standing tasks id).readiness ready ≡ true
    → IsStartable tasks id
ready-IsStartable tasks id h =
    let (t, s, found, is, readiness) = standing_state tasks id ready refl h in
    let (triage, confirmed, context) = ready_state id s t.has_valid_context readiness in
    (t, s, found, is, triage, confirmed, context)

pub completed-IsDone :
    (tasks : List ReadinessTask) (id : String)
    → eq_readiness (own_standing tasks id).readiness completed ≡ true
    → IsDone tasks id
completed-IsDone tasks id h =
    let (t, s, found, is, readiness) = standing_state tasks id completed refl h in
    let (on_build, done) = completed_state id s t.has_valid_context readiness in
    (t, s, found, is, on_build, done)

-- An edge that stands in nobody's way.
abbrev pub IsSatisfied : (String → Option ReadinessNode) → Edge → Type 0
IsSatisfied derive e =
    (eq_edge_type e.type blocks ≡ true)
    × ((p : ReadinessNode) × (derive e.from ≡ some p) × (eq_readiness p.readiness completed ≡ true))

clear_edge :
    (f : Findings) (e : Edge) (p : ReadinessNode)
    → (weigh_edge f e p).has_incomplete ≡ false
    → (weigh_edge f e p).has_blocked ≡ false
    → (f.has_incomplete ≡ false)
      × (f.has_blocked ≡ false)
      × (eq_edge_type e.type blocks ≡ true)
      × (eq_readiness p.readiness completed ≡ true)
unfolding weigh_edge
clear_edge f e p h k = (ground arith, ground arith, ground arith, ground arith)

clear_edges :
    (derive : String → Option ReadinessNode) (f : Findings) (edges : List Edge) (g : Findings)
    → weigh_edges derive f edges ≡ some g
    → g.has_incomplete ≡ false
    → g.has_blocked ≡ false
    → (f.has_incomplete ≡ false) × (f.has_blocked ≡ false) × All (IsSatisfied derive) edges
unfolding weigh_edges
clear_edges derive f [] g h i b = (ground arith, ground arith, tt)
clear_edges derive f (e ∷ edges) g h i b = elim (Option-cases (derive e.from)) [
  | inl missing ↦ ground (arith, missing)
  | inr (p, found) ↦
      let (rest_incomplete, rest_blocked, rest) =
        clear_edges derive (weigh_edge f e p) edges g (ground (arith, found)) i b in
      let (incomplete, blocked_before, type, done) =
        clear_edge f e p rest_incomplete rest_blocked in
      (incomplete, blocked_before, ((type, (p, found, done)), rest))
]

only_ready :
    (r : Readiness)
    → eq_readiness r completed || eq_readiness r blocked ≡ false
    → eq_readiness r waiting ≡ false
    → eq_readiness r ready ≡ true
only_ready ready h k = refl
only_ready waiting h k = cc
only_ready blocked h k = cc
only_ready completed h k = cc

concluded-ready :
    (id : String) (own : Standing) (f : Findings)
    → settled own ≡ false
    → eq_readiness (concluded id own f).readiness ready ≡ true
    → (eq_readiness own.readiness ready ≡ true)
      × (f.has_incomplete ≡ false)
      × (f.has_blocked ≡ false)
concluded-ready id own f undecided h =
    (only_ready own.readiness undecided (ground arith), ground arith, ground arith)

abbrev as_node : String → Standing → ReadinessNode
as_node id own = record { task_id = id; readiness = own.readiness; blockers = own.blockers }

-- A node that is ready has a ready Task and satisfied edges only.
pub derive_with-ready :
    (derive : String → Option ReadinessNode) (edges : List Edge) (id : String) (own : Standing)
    (n : ReadinessNode)
    → derive_with derive edges id own ≡ some n
    → eq_readiness n.readiness ready ≡ true
    → (eq_readiness own.readiness ready ≡ true) × All (IsSatisfied derive) edges
unfolding derive_with
derive_with-ready derive edges id own n h r = elim (Bool-cases (settled own)) [
  | inl over ↦
      let is : some (as_node id own) ≡ some n = rw over at h in
      let same : as_node id own ≡ n = ground arith in
      ground (arith, over, ap (λ x. readiness_index x.readiness) same)
  | inr undecided ↦
      let start : Findings = record {
        has_incomplete = false;
        has_blocked = false;
        blockers = own.blockers;
      } in
      elim (Option-cases (weigh_edges derive start edges)) [
        | inl missing ↦ ground (arith, undecided, missing)
        | inr (f, found) ↦
            let is : some (concluded id own f) ≡ some n = rw (undecided, found) at h in
            let same : concluded id own f ≡ n = ground arith in
            let (mine, incomplete, blocked_before) =
              concluded-ready id own f undecided
                (ap (λ x. eq_readiness x.readiness ready) same ∙ r) in
            (mine, (clear_edges derive start edges f found incomplete blocked_before).2)
      ]
]

concluded-open :
    (id : String) (own : Standing) (f : Findings)
    → eq_readiness (concluded id own f).readiness completed ≡ false
concluded-open id own f = elim (Bool-cases f.has_blocked) [
  | inl b ↦ rw b
  | inr b ↦ elim (Bool-cases (f.has_incomplete || eq_readiness own.readiness waiting)) [
    | inl i ↦ rw (b, i)
    | inr i ↦ rw (b, i)
  ]
]

-- A node is of its Task, and it is completed only if the Task is.
pub derive_with-completed :
    (derive : String → Option ReadinessNode) (edges : List Edge) (id : String) (own : Standing)
    (n : ReadinessNode)
    → derive_with derive edges id own ≡ some n
    → (n.task_id ≡ id)
      × (eq_readiness n.readiness completed ≡ true → eq_readiness own.readiness completed ≡ true)
unfolding derive_with
derive_with-completed derive edges id own n h = elim (Bool-cases (settled own)) [
  | inl over ↦
      let is : some (as_node id own) ≡ some n = rw over at h in
      let same : as_node id own ≡ n = ground arith in
      (sym (ap (λ x. x.task_id) same), (λ r. ap (λ x. eq_readiness x.readiness completed) same ∙ r))
  | inr undecided ↦
      let start : Findings = record {
        has_incomplete = false;
        has_blocked = false;
        blockers = own.blockers;
      } in
      elim (Option-cases (weigh_edges derive start edges)) [
        | inl missing ↦ ground (arith, undecided, missing)
        | inr (f, found) ↦
            let is : some (concluded id own f) ≡ some n = rw (undecided, found) at h in
            let same : concluded id own f ≡ n = ground arith in
            (
              sym (ap (λ x. x.task_id) same),
              (λ r. ground (
                arith,
                concluded-open id own f,
                ap (λ x. eq_readiness x.readiness completed) same ∙ r,
              )),
            )
      ]
]
