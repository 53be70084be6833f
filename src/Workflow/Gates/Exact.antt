-- ===== src/Workflow/Gates/Exact.antt =====
-- What the acceptance of Gates decides (validateGates of packages/core/src/workflow.ts), said without
-- its loops.
use say_hi.Prelude.{
  ◌≡◌, ◌≢◌, ◌↔◌, inl, inr, refl, sym, ap, subst, ◌∙◌, Bool, true, false, none, some, List, [], ◌∷◌,
  all, length, In, Bool-cases, Option-cases, arith,
}
use say_hi.Records.{Gate, Evidence, GateAcceptance, gate_index, eq_gate}
use say_hi.Records.Equality.{eq_gate-true}
use say_hi.Workflow.Gates.{
  includes_gate, declared_once, accepted, is_compatible, acceptance_failure, required_met,
  declared_expected, validate_gates,
}

includes_gate-In : (gates : List Gate) (g : Gate) → includes_gate gates g ≡ true → In g gates
includes_gate-In [] g h = cc
includes_gate-In (x ∷ gates) g h = elim (Bool-cases (eq_gate g x)) [
  | inl e ↦ inl (eq_gate-true g x e)
  | inr e ↦ inr (includes_gate-In gates g (ground arith))
]

In-includes_gate : (gates : List Gate) (g : Gate) → In g gates → includes_gate gates g ≡ true
In-includes_gate [] g h = elim h [ ]
In-includes_gate (x ∷ gates) g (inl e) = ground (arith, ap gate_index e)
In-includes_gate (x ∷ gates) g (inr h) = ground (arith, In-includes_gate gates g h)

-- No two acceptances are of one Gate.
abbrev pub Distinct : List GateAcceptance → Type 0
Distinct [] = Unit
Distinct (a ∷ gates) = ((b : GateAcceptance) → In b gates → b.gate ≢ a.gate) × Distinct gates

-- An acceptance with evidence, all of it of a kind that its Gate allows and with a reference.
abbrev pub Fit : GateAcceptance → Type 0
Fit a = (length a.evidence ≢ 0) × ((e : Evidence) → In e a.evidence → is_compatible a.gate e ≡ true)

abbrev pub Satisfies : List Gate → List GateAcceptance → Type 0
Satisfies required gates =
    Distinct gates
    × ((g : Gate) → In g required → (a : GateAcceptance) × In a gates × (a.gate ≡ g) × Fit a)
    × ((a : GateAcceptance) → In a gates → In a.gate required)

-- The map's keys so far are no obstacle.
abbrev Unseen : List Gate → List GateAcceptance → Type 0
Unseen seen gates = (b : GateAcceptance) → In b gates → includes_gate seen b.gate ≡ false

unseen_at :
    (seen : List Gate) (a b : GateAcceptance)
    → includes_gate seen a.gate ≡ false
    → b ≡ a
    → includes_gate seen b.gate ≡ false
unseen_at seen a b h e = ap (λ c. includes_gate seen c.gate) e ∙ h

Unseen-first :
    (seen : List Gate) (a : GateAcceptance) (gates : List GateAcceptance)
    → includes_gate seen a.gate ≡ false
    → Unseen (a.gate ∷ seen) gates × Distinct gates
    → Unseen seen (a ∷ gates) × Distinct (a ∷ gates)
Unseen-first seen a gates e (u, d) = (
  (λ b i. elim i [ inl p ↦ unseen_at seen a b e p | inr k ↦ ground (arith, u b k) ]),
  ((λ b i p. ground (arith, u b i, ap gate_index p)), d),
)

declared_once_sound :
    (seen : List Gate) (gates : List GateAcceptance)
    → declared_once seen gates ≡ none
    → Unseen seen gates × Distinct gates
unfolding declared_once
declared_once_sound seen [] h = ((λ b i. elim i [ ]), tt)
declared_once_sound seen (a ∷ gates) h = elim (Bool-cases (includes_gate seen a.gate)) [
  | inl e ↦ ground (arith, e)
  | inr e ↦
      Unseen-first seen a gates e (declared_once_sound (a.gate ∷ seen) gates (ground (arith, e)))
]

declared_once_complete :
    (seen : List Gate) (gates : List GateAcceptance)
    → Unseen seen gates
    → Distinct gates
    → declared_once seen gates ≡ none
unfolding declared_once
declared_once_complete seen [] u d = refl
declared_once_complete seen (a ∷ gates) u (d, ds) =
    let unseen : Unseen (a.gate ∷ seen) gates = λ b i. elim (Bool-cases (eq_gate b.gate a.gate)) [
      | inl e ↦ elim (d b i (eq_gate-true b.gate a.gate e)) [ ]
      | inr e ↦ ground (arith, u b (inr i))
    ] in
    ground (arith, u a (inl refl), declared_once_complete (a.gate ∷ seen) gates unseen ds)

accepted-In :
    (gates : List GateAcceptance) (g : Gate) (a : GateAcceptance)
    → accepted gates g ≡ some a
    → In a gates × (a.gate ≡ g)
unfolding accepted
accepted-In [] g a h = cc
accepted-In (b ∷ gates) g a h = elim (Bool-cases (eq_gate b.gate g)) [
  | inl e ↦
      let same : b ≡ a = ground (arith, e) in
      (inl (sym same), ap (λ c. c.gate) (sym same) ∙ eq_gate-true b.gate g e)
  | inr e ↦
      let rest : In a gates × (a.gate ≡ g) = accepted-In gates g a (ground (arith, e)) in
      (inr rest.0, rest.1)
]

pub In-accepted :
    (gates : List GateAcceptance) (a : GateAcceptance)
    → Distinct gates
    → In a gates
    → accepted gates a.gate ≡ some a
unfolding accepted
In-accepted [] a d i = elim i [ ]
In-accepted (b ∷ gates) a (d, ds) (inl e) = ground (arith, ap (λ c. gate_index c.gate) e, e)
In-accepted (b ∷ gates) a (d, ds) (inr i) =
    let apart : a.gate ≢ b.gate = d a i in
    elim (Bool-cases (eq_gate b.gate a.gate)) [
      | inl e ↦ elim (apart (sym (eq_gate-true b.gate a.gate e))) [ ]
      | inr e ↦ ground (arith, e, In-accepted gates a ds i)
    ]

pub all-In :
    (p : Evidence → Bool) (es : List Evidence)
    → all p es ≡ true
    → (e : Evidence) → In e es
    → p e ≡ true
all-In p [] h e i = elim i [ ]
all-In p (x ∷ es) h e (inl q) = ap p q ∙ ground arith
all-In p (x ∷ es) h e (inr i) = all-In p es (ground arith) e i

pub In-all :
    (p : Evidence → Bool) (es : List Evidence)
    → ((e : Evidence) → In e es → p e ≡ true)
    → all p es ≡ true
In-all p [] h = refl
In-all p (x ∷ es) h = ground (arith, h x (inl refl), In-all p es (λ e i. h e (inr i)))

fits : (g : Gate) (a : GateAcceptance) → a.gate ≡ g → acceptance_failure g (some a) ≡ none → Fit a
fits g a e h = (
  ground arith,
  λ x i.
      all-In (is_compatible a.gate) a.evidence
        (ap (λ k. all (is_compatible k) a.evidence) e ∙ ground arith) x i,
)

Fit-passes : (a : GateAcceptance) → Fit a → acceptance_failure a.gate (some a) ≡ none
Fit-passes a (nonempty, compatible) =
    ground (arith, In-all (is_compatible a.gate) a.evidence compatible)

abbrev Met : List GateAcceptance → Gate → Type 0
Met gates g = (a : GateAcceptance) × In a gates × (a.gate ≡ g) × Fit a

met :
    (gates : List GateAcceptance) (g : Gate)
    → acceptance_failure g (accepted gates g) ≡ none
    → Met gates g
met gates g h = elim (Option-cases (accepted gates g)) [
  | inl e ↦ ground (arith, e)
  | inr (a, e) ↦
      let here : In a gates × (a.gate ≡ g) = accepted-In gates g a e in
      (a, here.0, here.1, fits g a here.1 (ap (acceptance_failure g) (sym e) ∙ h))
]

Met-passes :
    (gates : List GateAcceptance) (g : Gate)
    → Distinct gates
    → Met gates g
    → acceptance_failure g (accepted gates g) ≡ none
Met-passes gates g d (a, i, e, fit) =
    let found : accepted gates g ≡ some a = ap (accepted gates) (sym e) ∙ In-accepted gates a d i in
    ap (acceptance_failure g) found
    ∙ ap (λ k. acceptance_failure k (some a)) (sym e)
    ∙ Fit-passes a fit

required_met_sound :
    (gates : List GateAcceptance) (required : List Gate)
    → required_met gates required ≡ none
    → (g : Gate) → In g required
    → Met gates g
unfolding required_met
required_met_sound gates [] h g i = elim i [ ]
required_met_sound gates (r ∷ required) h g (inl e) =
    subst (Met gates) (sym e) (met gates r (ground arith))
required_met_sound gates (r ∷ required) h g (inr i) =
    required_met_sound gates required (ground arith) g i

required_met_complete :
    (gates : List GateAcceptance) (required : List Gate)
    → Distinct gates
    → ((g : Gate) → In g required → Met gates g)
    → required_met gates required ≡ none
unfolding required_met
required_met_complete gates [] d h = refl
required_met_complete gates (r ∷ required) d h = ground (
  arith,
  Met-passes gates r d (h r (inl refl)),
  required_met_complete gates required d (λ g i. h g (inr i)),
)

declared_expected_sound :
    (required : List Gate) (gates : List GateAcceptance)
    → declared_expected required gates ≡ none
    → (a : GateAcceptance) → In a gates
    → In a.gate required
unfolding declared_expected
declared_expected_sound required [] h a i = elim i [ ]
declared_expected_sound required (b ∷ gates) h a (inl e) =
    subst (λ c. In c.gate required) (sym e) (includes_gate-In required b.gate (ground arith))
declared_expected_sound required (b ∷ gates) h a (inr i) =
    declared_expected_sound required gates (ground arith) a i

declared_expected_complete :
    (required : List Gate) (gates : List GateAcceptance)
    → ((a : GateAcceptance) → In a gates → In a.gate required)
    → declared_expected required gates ≡ none
unfolding declared_expected
declared_expected_complete required [] h = refl
declared_expected_complete required (b ∷ gates) h = ground (
  arith,
  In-includes_gate required b.gate (h b (inl refl)),
  declared_expected_complete required gates (λ a i. h a (inr i)),
)

-- Gates pass `validate_gates` for a list of required Gates exactly when no Gate is accepted twice, every
-- required Gate has an acceptance with evidence, all of it of a kind that this Gate allows and with a
-- reference that is not blank, and no Gate is accepted that is not required.
pub validate_gates-exact :
    (required : List Gate) (gates : List GateAcceptance)
    → (validate_gates required gates ≡ none) ↔ Satisfies required gates
unfolding validate_gates
validate_gates-exact required gates = (
  (λ h. (
    (declared_once_sound [] gates (ground arith)).1,
    required_met_sound gates required (ground arith),
    declared_expected_sound required gates (ground arith),
  )),
  (λ (d, m, u). ground (
    arith,
    declared_once_complete [] gates (λ b i. refl) d,
    required_met_complete gates required d m,
    declared_expected_complete required gates u,
  )),
)
