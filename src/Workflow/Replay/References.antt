-- ===== src/Workflow/Replay/References.antt =====
-- The records that pass the tests of a request pass those of the replay (packages/core/src/workflow.ts).
use say_hi.Prelude.{
  ◌≡◌, refl, sym, ap, ◌∙◌, inl, inr, subst, String, str_eq, str_eq_iff, is_empty, is_blank, true,
  false, none, some, List, [], ◌∷◌, all, In, Bool-cases, arith,
}
use say_hi.Records.{Gate, Evidence, GateAcceptance}
use say_hi.Workflow.Gates.{accepted, validate_gates, is_compatible}
use say_hi.Workflow.Gates.Exact.{Fit, In-all, In-accepted, validate_gates-exact}
use say_hi.Workflow.Payloads.{has_reference, is_gate_acceptance}

pub is_blank-is_empty : (s : String) → is_blank s ≡ false → is_empty s ≡ false
unfolding is_blank is_empty
is_blank-is_empty s h = elim (Bool-cases (str_eq s "")) [
  | inr other ↦ other
  | inl same ↦ ground (arith, ap is_blank ((str_eq_iff s "").0 same))
]

referenced : (g : Gate) (e : Evidence) → is_compatible g e ≡ true → has_reference e ≡ true
referenced g e h = ground (arith, is_blank-is_empty e.reference)

acceptances :
    (gates : List GateAcceptance)
    → ((a : GateAcceptance) → In a gates → Fit a)
    → all is_gate_acceptance gates ≡ true
unfolding is_gate_acceptance
acceptances [] h = refl
acceptances (a ∷ gates) h =
    let here : all has_reference a.evidence ≡ true =
      In-all has_reference a.evidence (λ e i. referenced a.gate e ((h a (inl refl)).1 e i)) in
    ground (arith, acceptances gates (λ b i. h b (inr i)))

-- The Gates that satisfy a transition name the references of their evidence.
pub validate_gates-is_gate_acceptance :
    (required : List Gate) (gates : List GateAcceptance)
    → validate_gates required gates ≡ none
    → all is_gate_acceptance gates ≡ true
validate_gates-is_gate_acceptance required gates h =
    let (distinct, met, expected) = (validate_gates-exact required gates).0 h in
    acceptances gates (λ a i.
      let (b, there, gate, fit) = met a.gate (expected a i) in
      let same : some b ≡ some a =
        sym (In-accepted gates b distinct there)
        ∙ ap (accepted gates) gate
        ∙ In-accepted gates a distinct i in
      subst Fit (ground arith) fit)
