-- ===== src/Workflow/Gates.antt =====
-- The acceptance of Gates (validateGates, validateRouteGate and evidenceKindsByGate of
-- packages/core/src/workflow.ts).
pub mod Exact
use say_hi.Prelude.{
  ℕ, suc, leb, String, Bool, true, false, not, ◌&&◌, ◌||◌, Option, none, some, List, [], ◌∷◌, map,
  any, all, find, length, ◌or_else◌, unless, is_blank,
}
use say_hi.Records.{
  Route, quick, Gate, to_route, to_explore, to_plan, to_implement, to_review, to_integrate,
  to_finish, initiative_ready, replan, review_repair, block, resume, cancel, archive, EvidenceKind,
  human_approval, validation, review_evidence, workflow, Evidence, GateAcceptance, field, JsonPath,
  eq_route, eq_gate, eq_evidence_kind,
}
use say_hi.Workflow.Events.{Code, gate_unmet, gate_unexpected, gate_evidence_invalid, Diagnostic}

abbrev pub evidence_kinds_by_gate : Gate → List EvidenceKind
evidence_kinds_by_gate to_route = human_approval ∷ workflow ∷ []
evidence_kinds_by_gate to_explore = validation ∷ []
evidence_kinds_by_gate to_plan = human_approval ∷ []
evidence_kinds_by_gate to_implement = validation ∷ []
evidence_kinds_by_gate to_review = review_evidence ∷ []
evidence_kinds_by_gate to_integrate = validation ∷ []
evidence_kinds_by_gate to_finish = validation ∷ []
evidence_kinds_by_gate initiative_ready = workflow ∷ []
evidence_kinds_by_gate replan = workflow ∷ []
evidence_kinds_by_gate review_repair = review_evidence ∷ []
evidence_kinds_by_gate block = workflow ∷ []
evidence_kinds_by_gate resume = workflow ∷ []
evidence_kinds_by_gate cancel = human_approval ∷ []
evidence_kinds_by_gate archive = validation ∷ []

abbrev pub at_gates : Code → Diagnostic
at_gates code = record { code = code; path = field "gates" ∷ [] }

abbrev pub includes_gate : List Gate → Gate → Bool
includes_gate gates g = any (eq_gate g) gates

abbrev pub includes_kind : List EvidenceKind → EvidenceKind → Bool
includes_kind kinds k = any (eq_evidence_kind k) kinds

-- The first loop: `seen` is the keys of the map `accepted` so far.
unfoldable pub declared_once : List Gate → List GateAcceptance → Option Diagnostic
declared_once seen [] = none
declared_once seen (a ∷ gates) =
    unless (not (includes_gate seen a.gate)) (at_gates gate_unexpected)
    or_else declared_once (a.gate ∷ seen) gates

-- `accepted.get(gate)`
unfoldable pub accepted : List GateAcceptance → Gate → Option GateAcceptance
accepted gates g = find (λ a. eq_gate a.gate g) gates

abbrev pub is_compatible : Gate → Evidence → Bool
is_compatible g e = includes_kind (evidence_kinds_by_gate g) e.kind && not (is_blank e.reference)

abbrev pub acceptance_failure : Gate → Option GateAcceptance → Option Diagnostic
acceptance_failure g none = some (at_gates gate_unmet)
acceptance_failure g (some a) =
    unless (leb 1 (length a.evidence)) (at_gates gate_evidence_invalid)
    or_else unless (all (is_compatible g) a.evidence) (at_gates gate_evidence_invalid)

-- The second loop, over the required Gates.
unfoldable pub required_met : List GateAcceptance → List Gate → Option Diagnostic
required_met gates [] = none
required_met gates (g ∷ required) =
    acceptance_failure g (accepted gates g) or_else required_met gates required

-- The third loop.
unfoldable pub declared_expected : List Gate → List GateAcceptance → Option Diagnostic
declared_expected required [] = none
declared_expected required (a ∷ gates) =
    unless (includes_gate required a.gate) (at_gates gate_unexpected)
    or_else declared_expected required gates

unfoldable pub validate_gates : List Gate → List GateAcceptance → Option Diagnostic
validate_gates required gates =
    declared_once [] gates
    or_else required_met gates required
    or_else declared_expected required gates

abbrev at_route_gate : Diagnostic → Diagnostic
at_route_gate d = record { code = d.code; path = field "routeGate" ∷ [] }

abbrev pub confirmed : Route → GateAcceptance → Bool
confirmed route gate =
    eq_route route quick || any (λ e. eq_evidence_kind e.kind human_approval) gate.evidence

abbrev pub move_to_route_gate : Option Diagnostic → Option Diagnostic
move_to_route_gate none = none
move_to_route_gate (some d) = some (at_route_gate d)

unfoldable pub validate_route_gate : Route → Option GateAcceptance → Option Diagnostic
validate_route_gate route none = some (record { code = gate_unmet; path = field "routeGate" ∷ [] })
validate_route_gate route (some gate) =
    move_to_route_gate (validate_gates (to_route ∷ []) (gate ∷ []))
    or_else unless (confirmed route gate)
        (record { code = gate_evidence_invalid; path = field "routeGate" ∷ [] })
