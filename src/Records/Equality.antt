-- ===== src/Records/Equality.antt =====
-- Two values of a text union for which `===` answers true are equal.
use say_hi.Prelude.{==_iff, ◌≡◌, refl, ap, true, some, List, [], ◌∷◌, get_elem?, arith}
use say_hi.Records.{
  EvidenceKind, human_approval, validation, review_evidence, workflow, evidence_kind_index,
  eq_evidence_kind, Route, quick, build, initiative, route_index, eq_route, Phase, triage, explore,
  plan, implement, review, integrate, finish, phase_index, eq_phase, Lifecycle, proposed, active,
  blocked, completed, archived, cancelled, lifecycle_index, eq_lifecycle, Gate, to_route,
  to_explore, to_plan, to_implement, to_review, to_integrate, to_finish, initiative_ready, replan,
  review_repair, block, resume, cancel, archive, gate_index, eq_gate,
}

abbrev all_routes : List Route
all_routes = quick ∷ build ∷ initiative ∷ []

route_at : (a : Route) → get_elem? all_routes (route_index a) ≡ some a
route_at quick = refl
route_at build = refl
route_at initiative = refl

pub eq_route-true : (a b : Route) → eq_route a b ≡ true → a ≡ b
eq_route-true a b e =
    let same : route_index a ≡ route_index b = (==_iff (route_index a) (route_index b)).0 e in
    ground (arith, route_at a, route_at b, ap (get_elem? all_routes) same)

abbrev all_phases : List Phase
all_phases = triage ∷ explore ∷ plan ∷ implement ∷ review ∷ integrate ∷ finish ∷ []

phase_at : (a : Phase) → get_elem? all_phases (phase_index a) ≡ some a
phase_at triage = refl
phase_at explore = refl
phase_at plan = refl
phase_at implement = refl
phase_at review = refl
phase_at integrate = refl
phase_at finish = refl

pub eq_phase-true : (a b : Phase) → eq_phase a b ≡ true → a ≡ b
eq_phase-true a b e =
    let same : phase_index a ≡ phase_index b = (==_iff (phase_index a) (phase_index b)).0 e in
    ground (arith, phase_at a, phase_at b, ap (get_elem? all_phases) same)

abbrev all_lifecycles : List Lifecycle
all_lifecycles = proposed ∷ active ∷ blocked ∷ completed ∷ archived ∷ cancelled ∷ []

lifecycle_at : (a : Lifecycle) → get_elem? all_lifecycles (lifecycle_index a) ≡ some a
lifecycle_at proposed = refl
lifecycle_at active = refl
lifecycle_at blocked = refl
lifecycle_at completed = refl
lifecycle_at archived = refl
lifecycle_at cancelled = refl

pub eq_lifecycle-true : (a b : Lifecycle) → eq_lifecycle a b ≡ true → a ≡ b
eq_lifecycle-true a b e =
    let same : lifecycle_index a ≡ lifecycle_index b =
      (==_iff (lifecycle_index a) (lifecycle_index b)).0 e in
    ground (arith, lifecycle_at a, lifecycle_at b, ap (get_elem? all_lifecycles) same)

abbrev all_gates : List Gate
all_gates =
    to_route ∷ to_explore ∷ to_plan ∷ to_implement ∷ to_review ∷ to_integrate ∷ to_finish
    ∷ initiative_ready ∷ replan ∷ review_repair ∷ block ∷ resume ∷ cancel ∷ archive ∷ []

gate_at : (a : Gate) → get_elem? all_gates (gate_index a) ≡ some a
gate_at to_route = refl
gate_at to_explore = refl
gate_at to_plan = refl
gate_at to_implement = refl
gate_at to_review = refl
gate_at to_integrate = refl
gate_at to_finish = refl
gate_at initiative_ready = refl
gate_at replan = refl
gate_at review_repair = refl
gate_at block = refl
gate_at resume = refl
gate_at cancel = refl
gate_at archive = refl

pub eq_gate-true : (a b : Gate) → eq_gate a b ≡ true → a ≡ b
eq_gate-true a b e =
    let same : gate_index a ≡ gate_index b = (==_iff (gate_index a) (gate_index b)).0 e in
    ground (arith, gate_at a, gate_at b, ap (get_elem? all_gates) same)

abbrev all_evidence_kinds : List EvidenceKind
all_evidence_kinds = human_approval ∷ validation ∷ review_evidence ∷ workflow ∷ []

evidence_kind_at :
    (a : EvidenceKind) → get_elem? all_evidence_kinds (evidence_kind_index a) ≡ some a
evidence_kind_at human_approval = refl
evidence_kind_at validation = refl
evidence_kind_at review_evidence = refl
evidence_kind_at workflow = refl

pub eq_evidence_kind-true : (a b : EvidenceKind) → eq_evidence_kind a b ≡ true → a ≡ b
eq_evidence_kind-true a b e =
    let same : evidence_kind_index a ≡ evidence_kind_index b =
      (==_iff (evidence_kind_index a) (evidence_kind_index b)).0 e in
    ground (arith, evidence_kind_at a, evidence_kind_at b, ap (get_elem? all_evidence_kinds) same)
