-- ===== src/Readiness/Ranking.antt =====
-- The order of the nodes of an Initiative, by their priorities and their identifiers
-- (deriveInitiativeReadiness of packages/core/src/initiative-readiness.ts).
use say_hi.Prelude.{
  ℕ, ◌≤◌, ◌<◌, ◌≡◌, refl, sym, ap, ◌∙◌, subst, inl, inr, String, str_eq, str_eq_iff, codes, true,
  false, none, some, List, [], ◌∷◌, ◌++◌, In, Bool-cases, ltb, arith,
}
use say_hi.Records.{ℤ, pos, negsuc, Node}
use say_hi.DependencyGraph.Accepts.{IsDistinct}
use say_hi.DependencyGraph.Validate.{task_ids}
use say_hi.Workflow.Changes.Tracker.{leq_codes}
use say_hi.Readiness.{ReadinessNode, last_with}
use say_hi.Readiness.Derive.{less, priority_of, comes_before}

-- The first integer is at most the second.
abbrev pub AtMost : ℤ → ℤ → Type 0
AtMost (pos a) (pos b) = a ≤ b
AtMost (pos a) (negsuc b) = ⊥
AtMost (negsuc a) (pos b) = Unit
AtMost (negsuc a) (negsuc b) = b ≤ a

-- A text that has ended, or goes on with a lower code point.
abbrev pub Lower : List ℕ → List ℕ → Type 0
Lower [] t = Unit
Lower (c ∷ s) [] = ⊥
Lower (c ∷ s) (d ∷ t) = c < d

-- The dictionary's order of two texts: they agree up to a place at which the first is lower.
abbrev pub Lex : List ℕ → List ℕ → Type 0
Lex s t =
    (prefix : List ℕ) × (a : List ℕ) × (b : List ℕ) × (s ≡ prefix ++ a)
    × (t ≡ prefix ++ b)
    × Lower a b

leq_codes-Lex : (s t : List ℕ) → leq_codes s t ≡ true → Lex s t
leq_codes-Lex [] t h = ([], [], t, refl, refl, tt)
leq_codes-Lex (c ∷ s) [] h = cc
leq_codes-Lex (c ∷ s) (d ∷ t) h = elim (Bool-cases (ltb c d)) [
  | inl lower ↦ ([], c ∷ s, d ∷ t, refl, refl, ground (arith, lower))
  | inr not_lower ↦
      let same : c ≡ d = ground (arith, not_lower) in
      let rest : leq_codes s t ≡ true = ground (arith, not_lower) in
      let (prefix, a, b, p, q, low) = leq_codes-Lex s t rest in
      (c ∷ prefix, a, b, ap (λ l. c ∷ l) p, ground (arith, same, q), low)
]

less-AtMost : (a b : ℤ) → less a b ≡ true → AtMost a b
less-AtMost (pos a) (pos b) h = ground (arith, h)
less-AtMost (pos a) (negsuc b) h = cc
less-AtMost (negsuc a) (pos b) h = tt
less-AtMost (negsuc a) (negsuc b) h = ground (arith, h)

not_less-AtMost : (a b : ℤ) → less b a ≡ false → AtMost a b
not_less-AtMost (pos a) (pos b) h = ground (arith, h)
not_less-AtMost (pos a) (negsuc b) h = cc
not_less-AtMost (negsuc a) (pos b) h = tt
not_less-AtMost (negsuc a) (negsuc b) h = ground (arith, h)

less_irrefl : (a : ℤ) → less a a ≡ false
less_irrefl (pos a) = ground arith
less_irrefl (negsuc a) = ground arith

-- Of two Tasks, the first has the higher priority, or the same one and the lower identifier.
abbrev pub Precedes : List Node → String → String → Type 0
Precedes nodes i j =
    (a b : Node)
    → In a nodes
    → In b nodes
    → a.task_id ≡ i
    → b.task_id ≡ j
    → AtMost b.priority a.priority × (a.priority ≡ b.priority → Lex (codes i) (codes j))

abbrev pub IsOrdered : List Node → List String → Type 0
IsOrdered nodes [] = Unit
IsOrdered nodes (i ∷ []) = Unit
IsOrdered nodes (i ∷ j ∷ ids) = Precedes nodes i j × IsOrdered nodes (j ∷ ids)

absent_id :
    (nodes : List Node) (a : Node) (id : String)
    → In a nodes
    → a.task_id ≡ id
    → In id (task_ids nodes)
absent_id [] a id i is = elim i [ ]
absent_id (n ∷ nodes) a id (inl same) is = inl (sym is ∙ ap (λ x. x.task_id) same)
absent_id (n ∷ nodes) a id (inr later) is = inr (absent_id nodes a id later is)

-- The last node with an identifier that no node has.
last_with-none :
    (nodes : List Node) (id : String)
    → ¬ In id (task_ids nodes)
    → last_with (λ n. str_eq n.task_id id) nodes ≡ none
last_with-none [] id absent = refl
last_with-none (n ∷ nodes) id absent = elim (Bool-cases (str_eq n.task_id id)) [
  | inl hit ↦ elim (absent (inl (sym ((str_eq_iff n.task_id id).0 hit)))) [ ]
  | inr miss ↦ rw (last_with-none nodes id (λ i. absent (inr i)), miss) refl
]

-- A node is the only one with its identifier.
last_with-In :
    (nodes : List Node) (a : Node) (id : String)
    → IsDistinct (task_ids nodes)
    → In a nodes
    → a.task_id ≡ id
    → last_with (λ n. str_eq n.task_id id) nodes ≡ some a
last_with-In [] a id distinct i is = elim i [ ]
last_with-In (n ∷ nodes) a id (fresh, distinct) (inl same) is =
    let named : n.task_id ≡ id = sym (ap (λ x. x.task_id) same) ∙ is in
    rw
      (
        last_with-none nodes id (subst (λ x. ¬ In x (task_ids nodes)) named fresh),
        (str_eq_iff n.task_id id).1 named,
      )
      (ap some (sym same))
last_with-In (n ∷ nodes) a id (fresh, distinct) (inr later) is =
    rw (last_with-In nodes a id distinct later is) refl

priority_of-In :
    (nodes : List Node) (a : Node) (id : String)
    → IsDistinct (task_ids nodes)
    → In a nodes
    → a.task_id ≡ id
    → priority_of nodes id ≡ a.priority
priority_of-In nodes a id distinct i is =
    rw (last_with-In nodes a id distinct i is, priority_of) refl

-- What the comparison of two priorities and two identifiers says.
compared :
    (nodes : List Node) (n m : ReadinessNode)
    → comes_before nodes n m ≡ true
    → let p = priority_of nodes n.task_id in
      let q = priority_of nodes m.task_id in
      AtMost q p × (p ≡ q → Lex (codes n.task_id) (codes m.task_id))
unfolding comes_before
compared nodes n m h =
    let p = priority_of nodes n.task_id in
    let q = priority_of nodes m.task_id in
    elim (Bool-cases (less q p)) [
      | inl lower ↦ (less-AtMost q p lower, (λ same. cc (same, lower, less_irrefl q)))
      | inr not_lower ↦ elim (Bool-cases (less p q)) [
        | inl higher ↦ ground (arith, not_lower, higher)
        | inr not_higher ↦
            let after : leq_codes (codes n.task_id) (codes m.task_id) ≡ true =
              rw (not_lower, not_higher) at h in
            (not_less-AtMost q p not_higher, (λ same. leq_codes-Lex _ _ after))
      ]
    ]

pub comes_before-Precedes :
    (nodes : List Node) (n m : ReadinessNode)
    → IsDistinct (task_ids nodes)
    → comes_before nodes n m ≡ true
    → Precedes nodes n.task_id m.task_id
comes_before-Precedes nodes n m distinct h a b i j is js =
    let p = priority_of-In nodes a n.task_id distinct i is in
    let q = priority_of-In nodes b m.task_id distinct j js in
    let (at_most, lower) = compared nodes n m h in
    (rw (p, q) at at_most, (λ same. lower (p ∙ same ∙ sym q)))
