-- ===== src/DependencyGraph/Cycle/Fuel.antt =====
-- Every round uses up some of a measure that starts at the fuel.
use say_hi.Prelude.{
  ℕ, zero, suc, ◌+◌, ◌-◌, ◌<◌, ◌≤◌, String, str_eq-cases, ◌≡◌, ◌≢◌, inl, inr, none, some, List, [],
  ◌∷◌, arith, In, get_elem?, length, sym, ◌∙◌, ap, subst, true, false, weigh, All, if◌then◌else◌,
}
use say_hi.DependencyGraph.Cycle.{
  DirectedEdge, outgoing, Mark, Marks, unvisited, Frame, mark, is_unvisited,
}
use say_hi.DependencyGraph.Cycle.Invariant.{mark_self, mark-ne}

-- What has been visited stays so.
abbrev pub Grows : Marks → Marks → Type 0
Grows st st' = (v : String) → is_unvisited (st v) ≡ false → is_unvisited (st' v) ≡ false

pub mark-Grows : (st : Marks) (u : String) (m : Mark) → m ≢ unvisited → Grows st (mark st u m)
unfolding mark
mark-Grows st u m ne v h = ground arith

module _ (es : List DirectedEdge) where
  abbrev pub room : Marks → String → ℕ
  room st v = if is_unvisited (st v) then length (outgoing es v) + 1 else 0

  -- The edges and nodes that the search has still to pass.
  abbrev pub unseen : Marks → List String → ℕ
  unseen st order = weigh (room st) order

  abbrev pub unpassed : List Frame → ℕ
  unpassed stack = weigh (λ f. length (outgoing es f.task_id) + 1 - f.next_index) stack

  pub unseen-le :
      (st st' : Marks) (order : List String) → Grows st st' → unseen st' order ≤ unseen st order
  unseen-le st st' [] g = omega arith
  unseen-le st st' (v ∷ order) g = ground (arith, unseen-le st st' order g, g v)

  pub unseen-mark :
      (st : Marks) (d : String) (m : Mark) (order : List String)
      → m ≢ unvisited
      → is_unvisited (st d) ≡ true
      → In d order
      → unseen (mark st d m) order + length (outgoing es d) + 1 ≤ unseen st order
  unseen-mark st d m [] ne h q = elim q [ ]
  unseen-mark st d m (v ∷ order) ne h (inl e) = ground (
    arith,
    unseen-le st (mark st d m) order (mark-Grows st d m ne),
    mark_self st d m,
    ap (λ x. length (outgoing es x)) e,
    ap st e,
    ap (mark st d m) e,
  )
  unseen-mark st d m (v ∷ order) ne h (inr q) =
      ground (arith, unseen-mark st d m order ne h q, mark-Grows st d m ne v)

  -- The marks are those of the declared nodes, and no frame is past its last target.
  pub record IsBounded (order : List String) (st : Marks) (stack : List Frame) : Type 0 where
    pub has : (v : String) → In v order → st v ≢ none
    pub only : (v : String) (m : Mark) → st v ≡ some m → In v order
    pub within : All (λ f. f.next_index ≤ length (outgoing es f.task_id)) stack

  pub mark-has :
      (order : List String) (st : Marks) (u : String) (m : Mark)
      → ((v : String) → In v order → st v ≢ none)
      → (v : String) → In v order
      → mark st u m v ≢ none
  unfolding mark
  mark-has order st u m has v h = ground (arith, has v h)

  pub mark-only :
      (order : List String) (st : Marks) (u : String) (m : Mark)
      → In u order
      → ((v : String) (k : Mark) → st v ≡ some k → In v order)
      → (v : String) (k : Mark) → mark st u m v ≡ some k
      → In v order
  mark-only order st u m h only v k q = elim (str_eq-cases v u) [
    | inl e ↦ subst (λ x. In x order) (sym e) h
    | inr ne ↦ only v k (sym (mark-ne st u v m ne.0) ∙ q)
  ]

pub index_le : (xs : List String) (i : ℕ) → i ≤ length xs → get_elem? xs i ≡ none → i ≡ length xs
index_le [] i h q = omega arith
index_le (x ∷ xs) zero h q = cc
index_le (x ∷ xs) (suc i) h q = omega (arith, index_le xs i)

pub index_lt_length :
    (xs : List String) (i : ℕ) {v : String} → get_elem? xs i ≡ some v → i < length xs
index_lt_length [] i h = cc
index_lt_length (x ∷ xs) zero h = omega arith
index_lt_length (x ∷ xs) (suc i) h = omega (arith, index_lt_length xs i h)
